-- ===== src/TcpTunnel/Join.antt =====
-- Both sides of the TCP tunnel's streams: what the sender of src/tcp/tcp_tunnel.rs writes first, and
-- what the accepting side makes of it.
use rstun.Base.{
  ℕ, ◌≡◌, refl, ap, ◌∙◌, Bool, false, not, ◌||◌, Option, none, some, List, [], ◌∷◌, ◌++◌, map, All,
  Result, ok, err, is_some,
}
use rstun.Net.{SocketAddr, TunnelTarget}
use rstun.Io.{Reader, End}
use rstun.Target.{EncodeError, encode_tunnel_target, read_tunnel_target}
use rstun.Target.Bounds.{IsTarget}
use rstun.Target.RoundTrip.{read_tunnel_target-encode_tunnel_target}
use rstun.TcpTunnel.Accept.{
  Network, Connector, requested_dst, requested, join_upstream, with_requested, accept_stream,
  Incoming, stream, timed_out, application_closed, accept_failed, start_accepting_with_connector,
}

written : Result EncodeError (Option (List ℕ)) → List ℕ
written (err e) = []
written (ok none) = []
written (ok (some buf)) = buf

-- What `write_tunnel_target` puts on a stream.
unfoldable pub header : Option TunnelTarget → List ℕ
unfolding written
header target = written (encode_tunnel_target target false)

-- A request as the sender has it: its target, and the data that follows.
pub record Request : Type 0 where
  pub target : Option TunnelTarget
  pub payload : List ℕ
  pub after : End

abbrev pub on_the_wire : Request → Reader
on_the_wire q = record { bytes = header q.target ++ q.payload; after = q.after }

abbrev pub payload_only : Request → Reader
payload_only q = record { bytes = q.payload; after = q.after }

abbrev pub IsOptionalTarget : Option TunnelTarget → Type 0
IsOptionalTarget none = Unit
IsOptionalTarget (some t) = IsTarget t

-- The sender writes a target just when the acceptor waits for one.
pub record Fits (c : Option Connector) (u : Option SocketAddr) (q : Request) : Type 0 where
  pub valid : IsOptionalTarget q.target
  pub awaited : is_some q.target ≡ (is_some c || not (is_some u))

-- An `accept_bi` that ends the loop.
abbrev pub IsOver : Incoming → Type 0
IsOver (stream r) = ⊥
IsOver timed_out = Unit
IsOver application_closed = Unit
IsOver accept_failed = Unit

module _ (net : Network) (c : Option Connector) (u : Option SocketAddr) (timeout_ms : ℕ)
    (zstd : Bool) where
  header-requested :
      (t : TunnelTarget) (payload : List ℕ) (e : End)
      → IsTarget t
      → requested (read_tunnel_target (record { bytes = header (some t) ++ payload; after = e }))
        ≡ ok (some t, record { bytes = payload; after = e })
  unfolding header requested
  header-requested t payload e v =
      let (bs, encoded, reads, _) = read_tunnel_target-encode_tunnel_target t false payload e v in
      ap (λ b. requested (read_tunnel_target (record { bytes = written b ++ payload; after = e })))
        encoded
      ∙ ap requested reads

  requested_dst-header :
      (t : Option TunnelTarget) (payload : List ℕ) (e : End)
      → IsOptionalTarget t
      → is_some t ≡ (is_some c || not (is_some u))
      → requested_dst c u (record { bytes = header t ++ payload; after = e })
        ≡ ok (t, record { bytes = payload; after = e })
  unfolding requested_dst header encode_tunnel_target
  requested_dst-header none payload e v a = rw (← a) refl
  requested_dst-header (some t) payload e v a = rw (← a) (header-requested t payload e v)

  accept_stream-header :
      (q : Request)
      → Fits c u q
      → accept_stream net c u timeout_ms zstd (on_the_wire q)
        ≡ join_upstream net c u timeout_ms q.target (payload_only q) zstd
  unfolding accept_stream with_requested
  accept_stream-header q f =
      ap (with_requested net c u timeout_ms zstd)
        (requested_dst-header q.target q.payload q.after f.valid f.awaited)

  -- Streams whose senders write a target just when the acceptor waits for one, with targets
  -- within the bounds of the wire format, followed by an end of the connection: every one is
  -- joined, in order and on its own, to the upstream that the acceptor chooses for the target
  -- that its sender had, and what is copied to it is exactly the data behind the target.
  pub start_accepting_with_connector-header :
      (requests : List Request) (over : Incoming) (later : List Incoming)
      → All (Fits c u) requests
      → IsOver over
      → start_accepting_with_connector net c u timeout_ms zstd
          (map (λ q. stream (on_the_wire q)) requests ++ (over ∷ later))
        ≡ map (λ q. join_upstream net c u timeout_ms q.target (payload_only q) zstd) requests
  unfolding start_accepting_with_connector
  start_accepting_with_connector-header [] (stream r) later h o = absurd o
  start_accepting_with_connector-header [] timed_out later h o = refl
  start_accepting_with_connector-header [] application_closed later h o = refl
  start_accepting_with_connector-header [] accept_failed later h o = refl
  start_accepting_with_connector-header (q ∷ requests) over later (f, h) o =
      rw (accept_stream-header q f, start_accepting_with_connector-header requests over later h o)
        refl
