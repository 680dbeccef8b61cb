-- ===== src/Udp/Reached.antt =====
-- What `process` of src/udp/udp_tunnel.rs comes to for a flow: the address it reaches, by the fixed
-- upstream or the target, and the datagrams it sends there.
use rstun.Base.{
  ℕ, ◌≡◌, refl, sym, ap, ◌∙◌, subst, Bool, true, false, Option, none, some, List, [], ◌∷◌,
  if◌then◌else◌, Result, ok, err,
}
use rstun.Net.{Text, SocketAddr, TunnelTarget, addr, domain}
use rstun.Udp.Resolve.{
  Lookup, answered, lookup_failed, lookup_timed_out, ResolveError, resolve_timeout, resolve_failed,
  resolve_empty, no_upstream, resolve_udp_target, resolve_upstream, Chosen,
  resolve_udp_target-Chosen, resolve_udp_target-failed, resolve_udp_target-timed_out,
}
use rstun.Udp.Accept.{
  Sockets, ProcessError, not_resolved, bind_failed, connect_failed, send_failed, Processed,
  create_peer_socket, send_all, over_socket, exchange,
}

-- The datagrams that a socket is given are sent one by one, up to the first it refuses.
pub data SendsTo (takes : List ℕ → Bool)
    : List (List ℕ) → List (List ℕ) → Result ProcessError (Unit {0}) → Type 0 where
  all_sent : SendsTo takes [] [] (ok tt)
  refused :
      {p : List ℕ} {ps : List (List ℕ)}
      → takes p ≡ false
      → SendsTo takes (p ∷ ps) [] (err send_failed)
  sends :
      {p : List ℕ} {ps sent : List (List ℕ)} {r : Result ProcessError (Unit {0})}
      → takes p ≡ true
      → SendsTo takes ps sent r
      → SendsTo takes (p ∷ ps) (p ∷ sent) r

abbrev nothing_sent : ProcessError → Processed
nothing_sent e = record { connected_to = none; sent = []; result = err e }

-- A flow to the address `a`.
pub data Reaches (s : Sockets) (a : SocketAddr) (payloads : List (List ℕ))
    : Processed → Type 0 where
  not_bound : s.binds ≡ false → Reaches s a payloads (nothing_sent bind_failed)
  not_connected :
      s.binds ≡ true → s.connects a ≡ false → Reaches s a payloads (nothing_sent connect_failed)
  reaches :
      {sent : List (List ℕ)} {r : Result ProcessError (Unit {0})}
      → s.binds ≡ true
      → s.connects a ≡ true
      → SendsTo s.takes payloads sent r
      → Reaches s a payloads (record { connected_to = some a; sent = sent; result = r })

-- A flow by its fixed upstream and its target.
pub data Serves (lookup_host : Text → ℕ → Lookup) (s : Sockets) (payloads : List (List ℕ))
    : Option SocketAddr → Option TunnelTarget → Processed → Type 0 where
  to_upstream :
      {a : SocketAddr} {target : Option TunnelTarget} {r : Processed}
      → Reaches s a payloads r
      → Serves lookup_host s payloads (some a) target r
  to_address :
      {a : SocketAddr} {r : Processed}
      → Reaches s a payloads r
      → Serves lookup_host s payloads none (some (addr a)) r
  to_host :
      {host : Text} {port : ℕ} {addrs : List SocketAddr} {a : SocketAddr} {r : Processed}
      → lookup_host host port ≡ answered addrs
      → Chosen addrs (ok a)
      → Reaches s a payloads r
      → Serves lookup_host s payloads none (some (domain host port)) r
  no_address :
      {host : Text} {port : ℕ}
      → lookup_host host port ≡ answered []
      → Serves lookup_host s payloads none
          (some (domain host port))
          (nothing_sent (not_resolved resolve_empty))
  no_answer :
      {host : Text} {port : ℕ}
      → lookup_host host port ≡ lookup_failed
      → Serves lookup_host s payloads none
          (some (domain host port))
          (nothing_sent (not_resolved resolve_failed))
  no_answer_in_time :
      {host : Text} {port : ℕ}
      → lookup_host host port ≡ lookup_timed_out
      → Serves lookup_host s payloads none
          (some (domain host port))
          (nothing_sent (not_resolved resolve_timeout))
  nowhere : Serves lookup_host s payloads none none (nothing_sent (not_resolved no_upstream))

send_all-Reaches :
    (s : Sockets) (a : SocketAddr) (ps : List (List ℕ))
    → SendsTo s.takes ps (send_all s a ps).sent (send_all s a ps).result
      × ((send_all s a ps).connected_to ≡ some a)
unfolding send_all
send_all-Reaches s a [] = (all_sent, refl)
send_all-Reaches s a (p ∷ ps) = by_test (s.takes p) refl (send_all-Reaches s a ps)
  where
    taken : Bool → Processed
    taken b =
        if b
        then record (send_all s a ps) { sent = p ∷ (send_all s a ps).sent }
        else record { connected_to = some a; sent = []; result = err send_failed }

    by_test :
        (b : Bool)
        → s.takes p ≡ b
        → SendsTo s.takes ps (send_all s a ps).sent (send_all s a ps).result
          × ((send_all s a ps).connected_to ≡ some a)
        → SendsTo s.takes (p ∷ ps) (taken b).sent (taken b).result
          × ((taken b).connected_to ≡ some a)
    by_test true e (h, c) = (sends e h, c)
    by_test false e h = (refused e, refl)

exchange-Reaches :
    (s : Sockets) (a : SocketAddr) (ps : List (List ℕ)) → Reaches s a ps (exchange s (ok a) ps)
unfolding exchange create_peer_socket over_socket
exchange-Reaches s a ps = by_bind s.binds refl (s.connects a) refl
  where
    connected : s.binds ≡ true → s.connects a ≡ true → Reaches s a ps (send_all s a ps)
    connected b c =
        let (h, e) = send_all-Reaches s a ps in
        subst
          (λ o. Reaches s a ps (record {
            connected_to = o;
            sent = (send_all s a ps).sent;
            result = (send_all s a ps).result;
          }))
          (sym e) (reaches b c h)

    by_bind :
        (b : Bool)
        → s.binds ≡ b
        → (c : Bool) → s.connects a ≡ c
        → Reaches s a ps (
            over_socket s
              (if b then if c then ok a else err connect_failed else err bind_failed)
              ps)
    by_bind false e c f = not_bound e
    by_bind true e false f = not_connected e f
    by_bind true e true f = connected e f

to_host-Serves :
    (lookup_host : Text → ℕ → Lookup) (s : Sockets) (ps : List (List ℕ)) (host : Text) (port : ℕ)
    (addrs : List SocketAddr) (r : Result ResolveError SocketAddr)
    → lookup_host host port ≡ answered addrs
    → Chosen addrs r
    → Serves lookup_host s ps none (some (domain host port)) (exchange s r ps)
unfolding exchange
to_host-Serves lookup_host s ps host port addrs (ok a) l c = to_host l c (exchange-Reaches s a ps)
to_host-Serves lookup_host s ps host port addrs (err e) l (empty, f) =
    subst
      (λ e. Serves lookup_host s ps none (some (domain host port)) (nothing_sent (not_resolved e)))
      (sym f) (no_address (l ∙ ap answered empty))

by_lookup :
    (lookup_host : Text → ℕ → Lookup) (s : Sockets) (ps : List (List ℕ)) (host : Text) (port : ℕ)
    (l : Lookup)
    → lookup_host host port ≡ l
    → Serves lookup_host s ps none
        (some (domain host port))
        (exchange s (resolve_udp_target lookup_host (domain host port)) ps)
unfolding exchange
by_lookup lookup_host s ps host port (answered addrs) e =
    to_host-Serves lookup_host s ps host port addrs
      (resolve_udp_target lookup_host (domain host port)) e
      (resolve_udp_target-Chosen lookup_host host port addrs e)
by_lookup lookup_host s ps host port lookup_failed e =
    subst (λ r. Serves lookup_host s ps none (some (domain host port)) (exchange s r ps))
      (sym (resolve_udp_target-failed lookup_host host port e)) (no_answer e)
by_lookup lookup_host s ps host port lookup_timed_out e =
    subst (λ r. Serves lookup_host s ps none (some (domain host port)) (exchange s r ps))
      (sym (resolve_udp_target-timed_out lookup_host host port e)) (no_answer_in_time e)

pub exchange-Serves :
    (lookup_host : Text → ℕ → Lookup) (s : Sockets) (ps : List (List ℕ))
    (upstream_addr : Option SocketAddr) (target : Option TunnelTarget)
    → Serves lookup_host s ps upstream_addr target
        (exchange s (resolve_upstream lookup_host upstream_addr target) ps)
unfolding exchange resolve_upstream resolve_udp_target
exchange-Serves lookup_host s ps (some a) target = to_upstream (exchange-Reaches s a ps)
exchange-Serves lookup_host s ps none (some (addr a)) = to_address (exchange-Reaches s a ps)
exchange-Serves lookup_host s ps none (some (domain host port)) =
    by_lookup lookup_host s ps host port (lookup_host host port) refl
exchange-Serves lookup_host s ps none none = nowhere
