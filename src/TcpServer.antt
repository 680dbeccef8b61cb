-- ===== src/TcpServer.antt =====
-- The local TCP listener of src/tcp/tcp_server.rs: its state behind the lock, and its accept loop.
-- The receiver of its channel is a token: it is in the state, or someone has taken it.
pub mod Receiver
pub mod Accept
use rstun.Base.{
  ℕ, ◌+◌, Bool, true, false, not, Option, none, some, List, [], ◌∷◌, ◌++◌, if◌then◌else◌, Result,
  ok, err,
}
use rstun.Net.{SocketAddr, TunnelTarget}

-- `StreamMessage`, of src/tcp/mod.rs, with a number for the stream.
pub record StreamRequest : Type 0 where
  pub stream : ℕ
  pub target : Option TunnelTarget

pub data StreamMessage : Type 0 where
  request : StreamRequest → StreamMessage
  quit : StreamMessage

pub record State : Type 0 where
  pub addr : SocketAddr
  -- `tcp_receiver`, by the number of its channel.
  pub tcp_receiver : Option ℕ
  pub active : Bool
  pub terminated : Bool

pub data TakeError : Type 0 where
  already_taken : TakeError

-- `bind_and_start`, once the address is bound.
unfoldable pub start : SocketAddr → ℕ → State
start addr channel = record {
  addr = addr;
  tcp_receiver = some channel;
  active = false;
  terminated = false;
}

take_from : Option ℕ → State → Result TakeError ℕ × State
take_from (some receiver) s = (ok receiver, record s { active = true; tcp_receiver = none })
take_from none s = (err already_taken, record s { active = false; tcp_receiver = none })

unfoldable pub take_receiver : State → Result TakeError ℕ × State
unfolding take_from
take_receiver s = take_from s.tcp_receiver s

unfoldable pub put_receiver : ℕ → State → State
put_receiver receiver s = record s { active = false; tcp_receiver = some receiver }

-- `shutdown` also opens a connection to its own address, to wake the accept loop.
unfoldable pub shutdown : State → State
shutdown s = record s { terminated = true }

-- What `send_timeout` does to a message.
pub data Forwarded : Type 0 where
  sent timed_out closed : Forwarded

pub data Accepted : Type 0 where
  connection : ℕ → Forwarded → Accepted
  accept_failed : Accepted

-- The accept loop: whether it still runs, and what it has put into its channel.
pub record Loop : Type 0 where
  pub runs : Bool
  pub queue : List StreamMessage

forward : StreamMessage → Forwarded → Loop → Loop
forward m sent l = record l { queue = l.queue ++ (m ∷ []) }
forward m timed_out l = l
forward m closed l = record l { runs = false }

-- One round of the loop. The `Quit` that ends it is lost if the channel is closed.
unfoldable pub accept : State → Accepted → Loop → Loop
unfolding forward
accept s accept_failed l = l
accept s (connection stream f) l =
    if s.terminated
    then record (forward quit f l) { runs = false }
    else if s.active
    then forward (request (record { stream = stream; target = none })) f l
    else l
