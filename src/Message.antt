-- ===== src/Message.antt =====
-- The control messages and the two framings of src/tunnel_message.rs. The `bincode` crate, which
-- turns a message into bytes, is a parameter.
pub mod Frames
pub mod Raw
mod Examples
use rstun.Base.{
  ℕ, ◌%◌, ◌^◌, ◌≡◌, Bool, true, false, Option, none, some, List, [], ◌∷◌, ◌++◌, length, ltb, leb,
  if◌then◌else◌, Result, ok, err, ◌>>=◌, ◌>>◌, ensure, ok_or, map_err, to_be_bytes, from_be_bytes,
  not,
}
use rstun.Net.{Text, LoginInfo, ServerCapabilities}
use rstun.Io.{Reader, ReadError, read_exact}

pub data TunnelMessage : Type 0 where
  req_login : LoginInfo → TunnelMessage
  req_heartbeat : ℕ → TunnelMessage
  resp_heartbeat : ℕ → TunnelMessage
  resp_failure : Text → TunnelMessage
  resp_success : ServerCapabilities → TunnelMessage

-- `bincode::serde::encode_to_vec` and the message part of `decode_from_slice`.
pub record Bincode : Type 0 where
  pub encode : TunnelMessage → Option (List ℕ)
  pub decode : List ℕ → Option TunnelMessage

-- The crate decodes what it has encoded.
pub record IsRoundTrip (b : Bincode) : Type 0 where
  pub decode-encode :
      (m : TunnelMessage) (bs : List ℕ) → b.encode m ≡ some bs → b.decode bs ≡ some m

pub data MessageError : Type 0 where
  read_failed : ReadError → MessageError
  write_failed serialize_failed deserialize_failed : MessageError
  too_large : ℕ → MessageError

-- A writer keeps what was written to it, until it breaks.
pub record Writer : Type 0 where
  pub written : List ℕ
  pub broken : Bool

unfoldable pub write_all : List ℕ → Writer → Result MessageError Writer
write_all bs w = if w.broken then err write_failed else ok (record w { written = w.written ++ bs })

abbrev pub max_tunnel_message_size : ℕ
max_tunnel_message_size = 65536

abbrev pub read : ℕ → Reader → Result MessageError (List ℕ × Reader)
read n r = map_err read_failed (read_exact n r)

read_message_body : Bincode → ℕ → Reader → Result MessageError (TunnelMessage × Reader)
read_message_body b msg_len r = do
  ensure (leb msg_len max_tunnel_message_size) (too_large msg_len)
  (msg, r1) ← read msg_len r
  tun_msg ← ok_or (b.decode msg) deserialize_failed
  ok (tun_msg, r1)

unfoldable pub recv_from : Bincode → Reader → Result MessageError (TunnelMessage × Reader)
unfolding read_message_body
recv_from b r = do (len, r1) ← read 4 r; read_message_body b (from_be_bytes len) r1

unfoldable pub send_to : Bincode → Writer → TunnelMessage → Result MessageError Writer
unfolding write_all
send_to b w message = do
  msg ← ok_or (b.encode message) serialize_failed
  w1 ← write_all (to_be_bytes 4 (length msg % 2 ^ 32)) w
  write_all msg w1

read_raw_body : ℕ → ℕ → Reader → Result MessageError (List ℕ × Reader)
read_raw_body capacity msg_len r = do
  ensure (leb msg_len capacity) (too_large msg_len)
  read msg_len r

-- `data` is a buffer of `capacity` bytes; the result is `data[..msg_len]`.
unfoldable pub recv_raw_from : ℕ → Reader → Result MessageError (List ℕ × Reader)
unfolding read_raw_body
recv_raw_from capacity r = do (len, r1) ← read 2 r; read_raw_body capacity (from_be_bytes len) r1

unfoldable pub send_raw_to : Writer → List ℕ → Result MessageError Writer
unfolding write_all
send_raw_to w payload = do
  w1 ← write_all (to_be_bytes 2 (length payload % 2 ^ 16)) w
  write_all payload w1
