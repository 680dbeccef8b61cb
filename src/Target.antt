-- ===== src/Target.antt =====
-- The tunnel target on the wire, src/util/stream_util.rs: `encode_tunnel_target`,
-- `read_tunnel_target`, `read_optional_tunnel_target` and their helpers.
pub mod Utf8
pub mod Bounds
pub mod RoundTrip
pub mod Sound
pub mod Errors
mod Examples
use rstun.Base.{
  ℕ, ◌+◌, ◌%◌, ◌≡◌, Bool, true, false, ◌||◌, Option, none, some, List, [], ◌∷◌, ◌++◌, take, drop,
  length, ltb, leb, ◌==◌, if◌then◌else◌, Result, ok, err, ◌>>=◌, ◌>>◌, ensure, map_err, to_be_bytes,
  from_be_bytes,
}
use rstun.Net.{IpAddr, v4, v6, SocketAddr, TunnelTarget, addr, domain}
use rstun.Io.{Reader, ReadError, timed_out, failed, read_exact}
use Utf8.{is_utf8}

pub data TransferError : Type 0 where
  internal_error invalid_ip_address invalid_ip_family invalid_domain timeout_error : TransferError

-- `anyhow::bail!("invalid tunnel domain length: …")`.
pub data EncodeError : Type 0 where
  invalid_domain_length : ℕ → EncodeError

-- `v4.ip().octets()` and `v6.ip().octets()` behind the family byte.
encode_addr : IpAddr → ℕ → List ℕ
encode_addr (v4 octets) port = 4 ∷ (octets ++ to_be_bytes 2 port)
encode_addr (v6 octets) port = 6 ∷ (octets ++ to_be_bytes 2 port)

unfoldable pub encode_tunnel_target :
    Option TunnelTarget → Bool → Result EncodeError (Option (List ℕ))
unfolding encode_addr
encode_tunnel_target (some (addr a)) mark_none = ok (some (encode_addr a.ip a.port))
encode_tunnel_target (some (domain host port)) mark_none =
    if (length host == 0) || ltb 255 (length host)
    then err (invalid_domain_length (length host))
    else ok (some (3 ∷ (length host % 256) ∷ (host ++ to_be_bytes 2 port)))
encode_tunnel_target none mark_none = if mark_none then ok (some (0 ∷ [])) else ok none

-- `.map_err(|_: Elapsed| TimeoutError)?.map_err(|_| InternalError)?`.
unfoldable pub transfer_error : ReadError → TransferError
transfer_error timed_out = timeout_error
transfer_error failed = internal_error

unfoldable pub read_bytes : ℕ → Reader → Result TransferError (List ℕ × Reader)
unfolding transfer_error
read_bytes n r = map_err transfer_error (read_exact n r)

-- `family[0]`, of a buffer of one byte.
abbrev pub first_byte : List ℕ → ℕ
first_byte [] = 0
first_byte (b ∷ bs) = b

read_target_family : Reader → Result TransferError (ℕ × Reader)
read_target_family r = do (buf, r1) ← read_bytes 1 r; ok (first_byte buf, r1)

-- The slices have their sizes by construction, so `InvalidIPAddress` is never returned.
read_v4_body : Reader → Result TransferError (TunnelTarget × Reader)
read_v4_body r = do
  (buf, r1) ← read_bytes 6 r
  ok (addr (record { ip = v4 (take 4 buf); port = from_be_bytes (drop 4 buf) }), r1)

read_v6_body : Reader → Result TransferError (TunnelTarget × Reader)
read_v6_body r = do
  (buf, r1) ← read_bytes 18 r
  ok (addr (record { ip = v6 (take 16 buf); port = from_be_bytes (drop 16 buf) }), r1)

read_host_and_port : ℕ → Reader → Result TransferError (TunnelTarget × Reader)
read_host_and_port host_len r = do
  (buf, r1) ← read_bytes (host_len + 2) r
  ensure (is_utf8 (take host_len buf)) invalid_domain
  ok (domain (take host_len buf) (from_be_bytes (drop host_len buf)), r1)

read_domain_body : Reader → Result TransferError (TunnelTarget × Reader)
unfolding read_host_and_port
read_domain_body r = do
  (len, r1) ← read_bytes 1 r
  if first_byte len == 0 then err invalid_domain else read_host_and_port (first_byte len) r1

unfoldable pub read_tunnel_target_body : ℕ → Reader → Result TransferError (TunnelTarget × Reader)
unfolding read_v4_body read_v6_body read_domain_body
read_tunnel_target_body family r =
    if family == 4
    then read_v4_body r
    else if family == 6
    then read_v6_body r
    else if family == 3
    then read_domain_body r
    else err invalid_ip_family

unfoldable pub read_tunnel_target : Reader → Result TransferError (TunnelTarget × Reader)
unfolding read_target_family read_tunnel_target_body
read_tunnel_target r = do (family, r1) ← read_target_family r; read_tunnel_target_body family r1

read_optional_body : ℕ → Reader → Result TransferError (Option TunnelTarget × Reader)
unfolding read_tunnel_target_body
read_optional_body family r =
    if family == 0
    then ok (none, r)
    else (do (target, r1) ← read_tunnel_target_body family r; ok (some target, r1))

unfoldable pub read_optional_tunnel_target :
    Reader → Result TransferError (Option TunnelTarget × Reader)
unfolding read_target_family read_optional_body
read_optional_tunnel_target r = do (family, r1) ← read_target_family r; read_optional_body family r1
