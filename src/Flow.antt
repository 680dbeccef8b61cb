-- ===== src/Flow.antt =====
-- The copying of a stream, in both directions, of src/util/stream_util.rs: `stream_to_quic`,
-- `quic_to_stream` and the loops of `start_flowing` around them. A read is what it puts
-- in the buffer of `STREAM_IO_BUFFER_SIZE`
-- bytes; the other end of a writer takes a number of bytes and fails from there.
pub mod Copy
pub mod Tasks
mod Examples
use rstun.Base.{
  ℕ, ◌+◌, ◌-◌, ◌%◌, ◌^◌, Bool, true, false, Option, none, some, List, [], ◌∷◌, ◌++◌, take, length,
  leb, if◌then◌else◌, Result, ok, err, zero, suc,
}
use rstun.Io.{ReadError}
use rstun.Target.{
  TransferError, internal_error, invalid_ip_address, invalid_ip_family, invalid_domain,
  timeout_error, transfer_error,
}

-- A writer: the bytes it took, how many more it takes, whether it accepts the end of the stream,
-- and whether that end was signalled (`SendStream::finish`, or `shutdown` of the TCP stream).
pub record Writer : Type 0 where
  pub bytes : List ℕ
  pub room : ℕ
  pub accepts_end : Bool
  pub ended : Bool

-- One direction: `stream_write` or `quic_send`, and `transfer_bytes`.
pub record Direction : Type 0 where
  pub writer : Writer
  pub transfer_bytes : ℕ

pub record Copied : Type 0 where
  pub result : Result TransferError ℕ
  pub direction : Direction

-- `*transfer_bytes += len_read as u64`.
count_bytes : List ℕ → Direction → ℕ
count_bytes buffer d = (d.transfer_bytes + length buffer) % 2 ^ 64

unfoldable pub took_all : List ℕ → Direction → Copied
unfolding count_bytes
took_all buffer d = record {
  result = ok (length buffer);
  direction = record {
    writer = record d.writer {
      bytes = d.writer.bytes ++ buffer;
      room = d.writer.room - length buffer;
    };
    transfer_bytes = count_bytes buffer d;
  };
}

unfoldable pub took_part : List ℕ → Direction → Copied
unfolding count_bytes
took_part buffer d = record {
  result = err internal_error;
  direction = record {
    writer = record d.writer { bytes = d.writer.bytes ++ take d.writer.room buffer; room = 0 };
    transfer_bytes = count_bytes buffer d;
  };
}

-- `write_all(&buffer[..len_read])`, after `transfer_bytes` has counted the read.
unfoldable pub write_read : List ℕ → Direction → Copied
unfolding took_all took_part
write_read buffer d =
    if leb (length buffer) d.writer.room then took_all buffer d else took_part buffer d

unfoldable pub end_accepted : Direction → Copied
end_accepted d = record {
  result = ok 0;
  direction = record d { writer = record d.writer { ended = true } };
}

unfoldable pub end_refused : Direction → Copied
end_refused d = record { result = err internal_error; direction = d }

-- `finish()` and `shutdown()`.
unfoldable pub end_writer : Direction → Copied
unfolding end_accepted end_refused
end_writer d = if d.writer.accepts_end then end_accepted d else end_refused d

-- A read of no bytes is the end of the stream.
unfoldable pub stream_to_quic : Result ReadError (List ℕ) → Direction → Copied
unfolding transfer_error write_read end_writer
stream_to_quic (err e) d = record { result = err (transfer_error e); direction = d }
stream_to_quic (ok []) d = end_writer d
stream_to_quic (ok (b ∷ bs)) d = write_read (b ∷ bs) d

-- `quic_recv.read` gives `None` at the end of the stream.
unfoldable pub quic_to_stream : Result ReadError (Option (List ℕ)) → Direction → Copied
unfolding transfer_error write_read end_writer
quic_to_stream (err e) d = record { result = err (transfer_error e); direction = d }
quic_to_stream (ok none) d = end_writer d
quic_to_stream (ok (some buffer)) d = write_read buffer d

-- How a loop stands: it goes on, it broke off, or it timed out and waits for the other direction.
pub data Ending : Type 0 where
  flowing broke waits_for_other : Ending

-- The `match result` of both loops.
unfoldable pub ending_of : Result TransferError ℕ → Ending
ending_of (err timeout_error) = waits_for_other
ending_of (err internal_error) = broke
ending_of (err invalid_ip_address) = broke
ending_of (err invalid_ip_family) = broke
ending_of (err invalid_domain) = broke
ending_of (ok zero) = broke
ending_of (ok (suc n)) = flowing

pub record Flow : Type 0 where
  pub direction : Direction
  pub ending : Ending

unfoldable pub go_on : Ending → Direction → Flow → Flow
go_on flowing d rest = rest
go_on broke d rest = record { direction = d; ending = broke }
go_on waits_for_other d rest = record { direction = d; ending = waits_for_other }

-- The `match result` of an iteration, before the further ones.
unfoldable pub after : Copied → Flow → Flow
unfolding ending_of go_on
after c rest = go_on (ending_of c.result) c.direction rest

-- The `loop` of a direction, over what its reads give.
unfoldable pub copy_loop : {A : Type 0} → (A → Direction → Copied) → List A → Direction → Flow
unfolding after
copy_loop copy [] d = record { direction = d; ending = flowing }
copy_loop copy (r ∷ reads) d =
    let c = copy r d in let rest = copy_loop copy reads c.direction in after c rest
