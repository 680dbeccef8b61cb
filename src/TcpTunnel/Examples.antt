-- ===== src/TcpTunnel/Examples.antt =====
-- The sending side of a TCP tunnel at concrete requests.
use rstun.Base.{◌≡◌, ◌++◌, map, refl, true, false, none, some, List, [], ◌∷◌, err, arith}
use rstun.Net.{TunnelTarget, domain}
use rstun.Io.{eof, stall}
use rstun.Target.Bounds.{IsTarget}
use rstun.Target.Utf8.{is_utf8}
use rstun.Target.{invalid_domain_length, encode_tunnel_target}
use rstun.TcpServer.{StreamRequest, request, quit}
use rstun.TcpTunnel.{
  open_fails, dropped, opens, Event, closed, attempt, Serving, serve_request, start_serving,
  write_tunnel_target, round, reconnect,
}
use rstun.TcpTunnel.Accept.{
  Network, connected, stream, timed_out, join_upstream, start_accepting_with_connector,
}
use rstun.TcpTunnel.Join.{Request, on_the_wire, payload_only, start_accepting_with_connector-header}
use rstun.TcpTunnel.Kept.{Keeps}
use rstun.TcpTunnel.Requests.{reconnect-Keeps}
use rstun.TcpTunnel.HeldUp.{Held, reconnect-Held}

abbrev one : StreamRequest
one = record { stream = 1; target = none }

abbrev two : StreamRequest
two = record { stream = 2; target = some (domain (97 ∷ []) 80) }

abbrev no_host : StreamRequest
no_host = record { stream = 3; target = some (domain [] 80) }

abbrev connections : List (List Event)
connections =
    (attempt (opens true) ∷ attempt open_fails ∷ [])
    ∷ (attempt (opens false) ∷ attempt (opens true) ∷ closed ∷ [])
    ∷ []

abbrev waiting : Serving
waiting = record {
  pending_request = none;
  queue = request one ∷ request two ∷ quit ∷ [];
  flowing = [];
  lost = [];
  runs = true;
}

-- The connection closes while the stream of the first request is opened.
abbrev closing : List (List Event)
closing = (attempt dropped ∷ []) ∷ (attempt (opens true) ∷ []) ∷ []

reconnect-Keeps_example : Keeps 1 waiting (reconnect closing waiting)
reconnect-Keeps_example = reconnect-Keeps closing waiting

first_lost : (reconnect closing waiting).lost ≡ one ∷ []
unfolding reconnect start_serving round serve_request write_tunnel_target encode_tunnel_target
first_lost = refl

abbrev held : Serving
held = record {
  pending_request = some no_host;
  queue = request one ∷ [];
  flowing = [];
  lost = [];
  runs = true;
}

no_host_refused : encode_tunnel_target (some (domain [] 80)) false ≡ err (invalid_domain_length 0)
unfolding encode_tunnel_target
no_host_refused = refl

reconnect-Held_example : Held no_host held (reconnect connections held)
reconnect-Held_example =
    reconnect-Held connections no_host (invalid_domain_length 0) held no_host_refused refl refl

abbrev answering : Network
answering = record { connect = λ t. connected }

abbrev name : TunnelTarget
name = domain (97 ∷ []) 80

abbrev named : Request
named = record { target = some name; payload = 1 ∷ 2 ∷ []; after = eof }

abbrev named_too : Request
named_too = record { target = some name; payload = []; after = stall }

name-IsTarget : IsTarget name
unfolding is_utf8
name-IsTarget = (omega arith, omega arith, refl, omega arith)

start_accepting_with_connector-header_example :
    start_accepting_with_connector answering none none 30000 true
      (map (λ q. stream (on_the_wire q)) (named ∷ named_too ∷ []) ++ (timed_out ∷ []))
    ≡ map
        (λ q. join_upstream answering none none 30000 q.target (payload_only q) true)
        (named ∷ named_too ∷ [])
start_accepting_with_connector-header_example =
    start_accepting_with_connector-header answering none none 30000 true (named ∷ named_too ∷ [])
      timed_out []
      (
        record { valid = name-IsTarget; awaited = refl },
        (record { valid = name-IsTarget; awaited = refl }, tt),
      )
      tt
