-- ===== src/TcpTunnel.antt =====
-- The sending side of a TCP tunnel: `start_serving` of src/tcp/tcp_tunnel.rs, with
-- `write_tunnel_target` of src/util/stream_util.rs, under the `select!` of src/client.rs that drops it
-- when the connection closes.
pub mod Kept
pub mod Requests
pub mod HeldUp
pub mod Accept
pub mod Join
mod Examples
use rstun.Base.{
  ℕ, ◌≡◌, Bool, true, false, Option, none, some, List, [], ◌∷◌, ◌++◌, if◌then◌else◌, Result, ok,
  err,
}
use rstun.Target.{EncodeError, encode_tunnel_target}
use rstun.TcpServer.{StreamRequest, StreamMessage, request, quit}

-- What `open_bi` comes to, and whether the new stream takes what is written; `dropped` when the
-- connection closes first, at either `await`, with the request already taken.
pub data Opening : Type 0 where
  open_fails dropped : Opening
  opens : Bool → Opening

-- What a round meets: the connection closes before the round has taken a request, at `recv` or
-- before the loop is polled for the first time; or the opening of a stream.
pub data Event : Type 0 where
  closed : Event
  attempt : Opening → Event

-- `pending_request`, the channel, the streams that flow in the order of their start, the requests
-- that were dropped with the loop, and whether the loop runs.
pub record Serving : Type 0 where
  pub pending_request : Option StreamRequest
  pub queue : List StreamMessage
  pub flowing : List StreamRequest
  pub lost : List StreamRequest
  pub runs : Bool

target_written : Result EncodeError (Option (List ℕ)) → Bool → Bool
target_written (err e) takes = false
target_written (ok none) takes = true
target_written (ok (some buf)) takes = takes

-- Whether `write_tunnel_target` works, without a mark for a missing target.
unfoldable pub write_tunnel_target : StreamRequest → Bool → Bool
unfolding target_written
write_tunnel_target r takes = target_written (encode_tunnel_target r.target false) takes

unfoldable pub serve_request : Opening → StreamRequest → Serving → Serving
serve_request open_fails r s = record s { pending_request = some r; runs = false }
serve_request dropped r s = record s { lost = s.lost ++ r ∷ []; runs = false }
serve_request (opens takes) r s =
    if write_tunnel_target r takes
    then record s { flowing = s.flowing ++ r ∷ [] }
    else record s { pending_request = some r }

-- A message of the channel. With none there the loop waits, until the connection closes.
from_queue : List StreamMessage → Opening → Serving → Serving
from_queue [] open_fails s = s
from_queue [] (opens takes) s = s
from_queue [] dropped s = record s { runs = false }
from_queue (request r ∷ queue) o s = serve_request o r (record s { queue = queue })
from_queue (quit ∷ queue) o s = record s { queue = queue; runs = false }

take_request : Option StreamRequest → Opening → Serving → Serving
unfolding from_queue
take_request (some r) o s = serve_request o r (record s { pending_request = none })
take_request none o s = from_queue s.queue o s

unfoldable pub round : Event → Serving → Serving
unfolding take_request
round closed s = record s { runs = false }
round (attempt o) s = take_request s.pending_request o s

-- The rounds of one connection.
unfoldable pub start_serving : List Event → Serving → Serving
start_serving [] s = s
start_serving (e ∷ events) s = if s.runs then start_serving events (round e s) else s

-- The connections one after the other; the pending request is kept between them.
unfoldable pub reconnect : List (List Event) → Serving → Serving
reconnect [] s = s
reconnect (events ∷ connections) s =
    reconnect connections (start_serving events (record s { runs = true }))
