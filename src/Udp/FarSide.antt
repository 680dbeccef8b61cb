-- ===== src/Udp/FarSide.antt =====
-- Both sides of a UDP flow, src/udp/udp_tunnel.rs: what `open_stream` writes, `process` sends on; and
-- what `udp_to_quic` writes, the reader of `open_stream` reads.
use rstun.Base.{
  ℕ, ◌≡◌, refl, sym, ap, subst, ◌∙◌, append-nil, append_assoc, ◌≤◌, true, false, Option, none, some,
  List, [], ◌∷◌, ◌++◌, map, All, length, Result, ok, err, arith,
}
use rstun.Net.{Text, SocketAddr, TunnelTarget}
use rstun.Io.{End}
use rstun.Target.{EncodeError, encode_tunnel_target, read_optional_tunnel_target}
use rstun.Target.RoundTrip.{
  read_tunnel_target-encode_tunnel_target, read_optional_tunnel_target-none,
}
use rstun.TcpTunnel.Join.{IsOptionalTarget}
use rstun.Message.{Writer}
use rstun.Message.Raw.{
  recv_datagrams, write_datagrams, raw_frame, raw_frames, send_raw_to-raw_frame,
  write_datagrams-raw_frames, recv_datagrams-raw_frames,
}
use rstun.Udp.Resolve.{Lookup, resolve_upstream}
use rstun.Udp.Reached.{Serves, exchange-Serves}
use rstun.Udp.Accept.{
  Sockets, exchange, with_target, process, udp_packet_size, Reply, received, shutdown, udp_to_quic,
  keep_writing,
}

written : Result EncodeError (Option (List ℕ)) → List ℕ
written (err e) = []
written (ok none) = []
written (ok (some buf)) = buf

-- A stream as its writer leaves it: the marked target, then the packets of the queue.
unfoldable pub stream_of : Option TunnelTarget → List (List ℕ) → Writer
unfolding written
stream_of target payloads =
    write_datagrams
      (record { written = written (encode_tunnel_target target true); broken = false }) payloads

stream_of-bytes :
    (target : Option TunnelTarget) (ps : List (List ℕ))
    → (stream_of target ps).written ≡ written (encode_tunnel_target target true) ++ raw_frames ps
unfolding stream_of
stream_of-bytes target ps =
    ap (λ w. w.written) (write_datagrams-raw_frames (written (encode_tunnel_target target true)) ps)

read_marked :
    (target : Option TunnelTarget) (rest : List ℕ) (e : End)
    → IsOptionalTarget target
    → read_optional_tunnel_target
        (record { bytes = written (encode_tunnel_target target true) ++ rest; after = e })
      ≡ ok (target, record { bytes = rest; after = e })
unfolding written encode_tunnel_target
read_marked none rest e v = read_optional_tunnel_target-none rest e
read_marked (some t) rest e v =
    let (bs, encoded, _, reads) = read_tunnel_target-encode_tunnel_target t true rest e v in
    ap (λ b. read_optional_tunnel_target (record { bytes = written b ++ rest; after = e })) encoded
    ∙ reads

process-exchange :
    (lookup_host : Text → ℕ → Lookup) (s : Sockets) (upstream_addr : Option SocketAddr)
    (target : Option TunnelTarget) (payloads : List (List ℕ)) (fuel : ℕ) (e : End)
    → IsOptionalTarget target
    → All (λ p. length p ≤ udp_packet_size) payloads
    → length payloads ≤ fuel
    → process lookup_host s upstream_addr fuel
        (record { bytes = (stream_of target payloads).written; after = e })
      ≡ exchange s (resolve_upstream lookup_host upstream_addr target) payloads
unfolding process with_target
process-exchange lookup_host s upstream_addr target payloads fuel e v small enough =
    ap
      (λ bs.
        with_target lookup_host s upstream_addr fuel
          (read_optional_tunnel_target (record { bytes = bs; after = e })))
      (stream_of-bytes target payloads)
    ∙ ap (with_target lookup_host s upstream_addr fuel)
        (read_marked target (raw_frames payloads) e v)
    ∙ ap (exchange s (resolve_upstream lookup_host upstream_addr target))
        (recv_datagrams-raw_frames udp_packet_size fuel payloads e (omega arith) enough small)

-- A flow with a target within the bounds of the wire format and with datagrams that fit a packet,
-- the fuel counting them: however its stream ends, the far side goes to the fixed upstream if there
-- is one, else to the target's address, or to the first IPv4 address that a lookup of its host
-- answers with, or the first address when none is IPv4. Where its socket binds and connects, it
-- sends there those datagrams, in order, up to the first that the socket refuses, which is
-- the error it returns; else, and without an address, it sends nothing and returns the error.
pub process-stream_of :
    (lookup_host : Text → ℕ → Lookup) (s : Sockets) (upstream_addr : Option SocketAddr)
    (target : Option TunnelTarget) (payloads : List (List ℕ)) (fuel : ℕ) (e : End)
    → IsOptionalTarget target
    → All (λ p. length p ≤ udp_packet_size) payloads
    → length payloads ≤ fuel
    → Serves lookup_host s payloads upstream_addr target (
        process lookup_host s upstream_addr fuel
          (record { bytes = (stream_of target payloads).written; after = e }))
process-stream_of lookup_host s upstream_addr target payloads fuel e v small enough =
    subst (Serves lookup_host s payloads upstream_addr target)
      (sym (process-exchange lookup_host s upstream_addr target payloads fuel e v small enough))
      (exchange-Serves lookup_host s payloads upstream_addr target)

replies_written :
    (ws : List ℕ) (ps : List (List ℕ)) (later : List Reply)
    → udp_to_quic (map received ps ++ (shutdown ∷ later)) (record { written = ws; broken = false })
      ≡ record { written = ws ++ raw_frames ps; broken = false }
unfolding udp_to_quic
replies_written ws [] later = ap (λ l. record { written = l; broken = false }) (sym (append-nil ws))
replies_written ws (p ∷ ps) later =
    ap
      (λ r.
        udp_to_quic (map received ps ++ (shutdown ∷ later))
          (keep_writing (record { written = ws; broken = false }) r))
      (send_raw_to-raw_frame (record { written = ws; broken = false }) p refl)
    ∙ replies_written (ws ++ raw_frame p) ps later
    ∙ ap (λ l. record { written = l; broken = false })
        (append_assoc ws (raw_frame p) (raw_frames ps))

-- For a writer that does not fail and datagrams of the upstream of at most a packet: those that come
-- before the flow ends are read back on
-- the near side, in order and one by one, and none that came after the end.
pub recv_datagrams-udp_to_quic :
    (replies : List (List ℕ)) (later : List Reply) (fuel : ℕ) (e : End)
    → All (λ p. length p ≤ udp_packet_size) replies
    → length replies ≤ fuel
    → recv_datagrams fuel udp_packet_size (record {
      bytes =
          (udp_to_quic
            (map received replies ++ (shutdown ∷ later))
            (record { written = []; broken = false })).written;
      after = e;
    })
      ≡ replies
recv_datagrams-udp_to_quic replies later fuel e small enough =
    ap (λ w. recv_datagrams fuel udp_packet_size (record { bytes = w.written; after = e }))
      (replies_written [] replies later)
    ∙ recv_datagrams-raw_frames udp_packet_size fuel replies e (omega arith) enough small
