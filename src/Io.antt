-- ===== src/Io.antt =====
-- Asynchronous readers, as src/tunnel_message.rs and src/util/stream_util.rs use them: the bytes
-- that arrive in time, and what happens after the last of them.
pub mod Laws
use rstun.Base.{ℕ, List, take, drop, length, leb, if◌then◌else◌, Result, ok, err}

-- `eof`: the peer closed the stream; `reset`: the stream failed; `stall`: nothing more arrives
-- before the timeout of the read that waits.
pub data End : Type 0 where
  eof reset stall : End

pub record Reader : Type 0 where
  pub bytes : List ℕ
  pub after : End

pub data ReadError : Type 0 where
  timed_out failed : ReadError

unfoldable pub end_error : End → ReadError
end_error eof = failed
end_error reset = failed
end_error stall = timed_out

-- `AsyncReadExt::read_exact` under a timeout. A reader that has failed is not used again.
unfoldable pub read_exact : ℕ → Reader → Result ReadError (List ℕ × Reader)
unfolding end_error
read_exact n r =
    if leb n (length r.bytes)
    then ok (take n r.bytes, record r { bytes = drop n r.bytes })
    else err (end_error r.after)
