-- ===== src/Udp/Channel.antt =====
-- A stream of a chained UDP channel: `process_channel_io` of src/udp/udp_tunnel.rs.
use rstun.Base.{
  ℕ, ◌≡◌, refl, Bool, false, Option, none, some, List, [], ◌∷◌, Result, ok, err, map, ◌⊎◌, inl, inr,
  arith, sym, ap, to_option, ◌∙◌,
}
use rstun.Net.{SocketAddr, TunnelTarget}
use rstun.Net.Equality.{addr_eq_iff}
use rstun.UdpServer.{UdpPacket}
use rstun.Udp.Ports.{
  get, remove, get-remove, Ports, ReserveError, channel_local_addr_for_port, channel_local_addr,
}
use rstun.Udp.Resolve.{target_family_is_ipv6}

-- What the loop meets: a datagram of the stream, what the other streams made of the shared
-- ports meanwhile, or the end of the stream.
pub data Frame : Type 0 where
  datagram : List ℕ → Frame
  elsewhere : Ports → Frame
  read_failed timed_out : Frame

pub data Bridged : Type 0 where
  running ended no_address : Bridged

-- `forwarded` is what `udp_sender` was given.
pub record Bridge : Type 0 where
  pub forwarded : List UdpPacket
  pub local_addr : Option SocketAddr
  pub ports : Ports
  pub outcome : Bridged

abbrev stop : Option SocketAddr → Ports → Bridged → Bridge
stop local_addr s outcome = record {
  forwarded = [];
  local_addr = local_addr;
  ports = s;
  outcome = outcome;
}

abbrev pub stamp : Option TunnelTarget → SocketAddr → List ℕ → UdpPacket
stamp target a payload = record { payload = payload; local_addr = a; peer_addr = target }

forward : Option TunnelTarget → List ℕ → Result ReserveError SocketAddr × Ports → Bridge → Bridge
forward target payload (ok a, s) rest = record rest {
  forwarded = stamp target a payload ∷ rest.forwarded;
}
forward target payload (err e, s) rest = stop none s no_address

unfoldable pub bridge_loop :
    Option TunnelTarget → Bool → ℕ → Option SocketAddr → Ports → List Frame → Bridge
unfolding forward
bridge_loop target ipv6 reply_tx local_addr s [] = stop local_addr s running
bridge_loop target ipv6 reply_tx local_addr s (datagram payload ∷ frames) =
    let r = channel_local_addr local_addr ipv6 reply_tx s in
    let rest = bridge_loop target ipv6 reply_tx (to_option r.0) r.1 frames in
    forward target payload r rest
bridge_loop target ipv6 reply_tx local_addr s (elsewhere s' ∷ frames) =
    bridge_loop target ipv6 reply_tx local_addr s' frames
bridge_loop target ipv6 reply_tx local_addr s (read_failed ∷ frames) = stop local_addr s ended
bridge_loop target ipv6 reply_tx local_addr s (timed_out ∷ frames) = stop local_addr s ended

remove_entry : Option SocketAddr → Ports → Ports
remove_entry (some a) s = record s { reply_map = remove a s.reply_map }
remove_entry none s = s

-- After the loop; an error of the loop returns before.
finish : Bridged → Bridge → Bridge
unfolding remove_entry
finish ended b = record b { ports = remove_entry b.local_addr b.ports }
finish running b = b
finish no_address b = b

unfoldable pub process_channel_io :
    Option TunnelTarget → Option SocketAddr → ℕ → Ports → List Frame → Bridge
unfolding finish
process_channel_io target default_upstream reply_tx s frames =
    let b =
      bridge_loop target (target_family_is_ipv6 target default_upstream) reply_tx none s frames in
    finish b.outcome b

-- The datagrams before the end of the stream.
abbrev pub datagrams : List Frame → List (List ℕ)
datagrams [] = []
datagrams (datagram payload ∷ frames) = payload ∷ datagrams frames
datagrams (elsewhere s ∷ frames) = datagrams frames
datagrams (read_failed ∷ frames) = []
datagrams (timed_out ∷ frames) = []

-- One address for all that is forwarded.
pub record Stamped (target : Option TunnelTarget) (frames : List Frame) (b : Bridge) : Type 0 where
  pub address : SocketAddr
  pub in_order : b.forwarded ≡ map (stamp target address) (datagrams frames)
  pub kept : (b.forwarded ≡ []) ⊎ (b.local_addr ≡ some address)

loop-forwarded :
    (target : Option TunnelTarget) (ipv6 : Bool) (reply_tx : ℕ) (a : SocketAddr) (s : Ports)
    (frames : List Frame)
    → (bridge_loop target ipv6 reply_tx (some a) s frames).forwarded
      ≡ map (stamp target a) (datagrams frames)
unfolding bridge_loop channel_local_addr forward
loop-forwarded target ipv6 reply_tx a s [] = refl
loop-forwarded target ipv6 reply_tx a s (datagram payload ∷ frames) =
    ap (λ l. stamp target a payload ∷ l) (loop-forwarded target ipv6 reply_tx a s frames)
loop-forwarded target ipv6 reply_tx a s (elsewhere s' ∷ frames) =
    loop-forwarded target ipv6 reply_tx a s' frames
loop-forwarded target ipv6 reply_tx a s (read_failed ∷ frames) = refl
loop-forwarded target ipv6 reply_tx a s (timed_out ∷ frames) = refl

loop-local_addr :
    (target : Option TunnelTarget) (ipv6 : Bool) (reply_tx : ℕ) (a : SocketAddr) (s : Ports)
    (frames : List Frame)
    → (bridge_loop target ipv6 reply_tx (some a) s frames).local_addr ≡ some a
unfolding bridge_loop channel_local_addr forward
loop-local_addr target ipv6 reply_tx a s [] = refl
loop-local_addr target ipv6 reply_tx a s (datagram payload ∷ frames) =
    loop-local_addr target ipv6 reply_tx a s frames
loop-local_addr target ipv6 reply_tx a s (elsewhere s' ∷ frames) =
    loop-local_addr target ipv6 reply_tx a s' frames
loop-local_addr target ipv6 reply_tx a s (read_failed ∷ frames) = refl
loop-local_addr target ipv6 reply_tx a s (timed_out ∷ frames) = refl

nothing_forwarded :
    (target : Option TunnelTarget) (frames : List Frame) (b : Bridge)
    → datagrams frames ≡ []
    → b.forwarded ≡ []
    → Stamped target frames b
nothing_forwarded target frames b e h = record {
  address = channel_local_addr_for_port 0 false;
  in_order = h ∙ ap (map (stamp target (channel_local_addr_for_port 0 false))) (sym e);
  kept = inl h;
}

first_datagram :
    (target : Option TunnelTarget) (ipv6 : Bool) (reply_tx : ℕ) (payload : List ℕ)
    (frames : List Frame) (r : Result ReserveError SocketAddr × Ports)
    → (forward target payload r
        (bridge_loop target ipv6 reply_tx (to_option r.0) r.1 frames)).outcome
      ≡ ended
    → Stamped target
        (datagram payload ∷ frames)
        (forward target payload r (bridge_loop target ipv6 reply_tx (to_option r.0) r.1 frames))
unfolding forward
first_datagram target ipv6 reply_tx payload frames (ok a, s) h = record {
  address = a;
  in_order = ap (λ l. stamp target a payload ∷ l) (loop-forwarded target ipv6 reply_tx a s frames);
  kept = inr (loop-local_addr target ipv6 reply_tx a s frames);
}
first_datagram target ipv6 reply_tx payload frames (err e, s) h = cc

loop-Stamped :
    (target : Option TunnelTarget) (ipv6 : Bool) (reply_tx : ℕ) (s : Ports) (frames : List Frame)
    → (bridge_loop target ipv6 reply_tx none s frames).outcome ≡ ended
    → Stamped target frames (bridge_loop target ipv6 reply_tx none s frames)
unfolding bridge_loop
loop-Stamped target ipv6 reply_tx s [] h = cc
loop-Stamped target ipv6 reply_tx s (datagram payload ∷ frames) h =
    first_datagram target ipv6 reply_tx payload frames (channel_local_addr none ipv6 reply_tx s) h
loop-Stamped target ipv6 reply_tx s (elsewhere s' ∷ frames) h =
    let rest = loop-Stamped target ipv6 reply_tx s' frames h in
    record { address = rest.address; in_order = rest.in_order; kept = rest.kept }
loop-Stamped target ipv6 reply_tx s (read_failed ∷ frames) h =
    nothing_forwarded target (read_failed ∷ frames) (stop none s ended) refl refl
loop-Stamped target ipv6 reply_tx s (timed_out ∷ frames) h =
    nothing_forwarded target (timed_out ∷ frames) (stop none s ended) refl refl

-- What a stream that ended leaves: one address on all it forwarded, in the order of the datagrams,
-- and no entry of that address.
pub record Ended (target : Option TunnelTarget) (frames : List Frame) (b : Bridge) : Type 0 where
  pub address : SocketAddr
  pub in_order : b.forwarded ≡ map (stamp target address) (datagrams frames)
  pub released : (b.forwarded ≡ []) ⊎ (get address b.ports.reply_map ≡ none)

released_by :
    (l : Option SocketAddr) (a : SocketAddr) (s : Ports) (forwarded : List UdpPacket)
    → (forwarded ≡ []) ⊎ (l ≡ some a)
    → (forwarded ≡ []) ⊎ (get a (remove_entry l s).reply_map ≡ none)
unfolding remove_entry
released_by l a s forwarded (inl h) = inl h
released_by none a s forwarded (inr h) = cc
released_by (some b) a s forwarded (inr h) =
    inr (ground (arith, get-remove b a s.reply_map, addr_eq_iff b a, h))

finish-ended :
    (target : Option TunnelTarget) (frames : List Frame) (b : Bridge) (o : Bridged)
    → o ≡ ended
    → Stamped target frames b
    → Ended target frames (finish o b)
unfolding finish remove_entry
finish-ended target frames b running e h = cc
finish-ended target frames b no_address e h = cc
finish-ended target frames b ended e h = record {
  address = h.address;
  in_order = h.in_order;
  released = released_by b.local_addr h.address b.ports b.forwarded h.kept;
}

finish-outcome : (b : Bridge) (o : Bridged) → (finish o b).outcome ≡ b.outcome
unfolding finish
finish-outcome b running = refl
finish-outcome b ended = refl
finish-outcome b no_address = refl

-- A stream that ends by a failed or timed out read has forwarded every datagram before that end,
-- in order, all with the target of the stream and with one local address, whatever the other
-- streams did to the shared ports; and, when it forwarded anything, the reply map has no entry of
-- that address any more.
pub process_channel_io-Ended :
    (target : Option TunnelTarget) (default_upstream : Option SocketAddr) (reply_tx : ℕ) (s : Ports)
    (frames : List Frame)
    → (process_channel_io target default_upstream reply_tx s frames).outcome ≡ ended
    → Ended target frames (process_channel_io target default_upstream reply_tx s frames)
unfolding process_channel_io
process_channel_io-Ended target default_upstream reply_tx s frames h =
    let b =
      bridge_loop target (target_family_is_ipv6 target default_upstream) reply_tx none s frames in
    let e = sym (finish-outcome b b.outcome) ∙ h in
    finish-ended target frames b b.outcome e
      (loop-Stamped target (target_family_is_ipv6 target default_upstream) reply_tx s frames e)
