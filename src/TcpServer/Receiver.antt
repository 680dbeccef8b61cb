-- ===== src/TcpServer/Receiver.antt =====
-- Who holds the receiver, and when the listener is active: src/tcp/tcp_server.rs.
use rstun.Base.{◌≡◌, true, false, not, none, is_some, arith}
use rstun.TcpServer.{State, take_receiver}

-- The listener is active exactly while its receiver is out.
abbrev pub IsConsistent : State → Type 0
IsConsistent s = s.active ≡ not (is_some s.tcp_receiver)

-- A taking that fails changes more than nothing: it deactivates the listener whose receiver someone
-- else holds, so the state is no longer consistent.
take_receiver_deactivates :
    (s : State)
    → IsConsistent s
    → s.tcp_receiver ≡ none
    → (s.active ≡ true)
      × ((take_receiver s).1.active ≡ false)
      × (¬ IsConsistent (take_receiver s).1)
unfolding take_receiver
take_receiver_deactivates s c h = (ground arith, ground arith, λ k. ground arith)
