-- ===== src/UdpServer/Packets.antt =====
-- What the socket loop carries in both directions: src/udp/udp_server.rs.
use rstun.Base.{
  ℕ, ◌≡◌, refl, subst, sym, Bool, true, false, none, some, List, [], ◌∷◌, ◌++◌, arith, append_assoc,
  append-nil, Bool-cases, inl, inr, ◌&&◌,
}
use rstun.Net.{SocketAddr}
use rstun.UdpServer.{
  State, UdpMessage, packet, quit, Event, from_socket, socket_failed, from_channel, sent, timed_out,
  closed, Loop, handle,
}

abbrev pub run : State → List Event → Loop → Loop
run s [] l = l
run s (e ∷ es) l = elim l.runs [ true ↦ run s es (handle s e l) | false ↦ l ]

-- Whether the loop goes on behind an event.
abbrev pub goes_on : Event → Bool
goes_on (from_socket bytes from sent) = true
goes_on (from_socket bytes from timed_out) = true
goes_on (from_socket bytes from closed) = false
goes_on socket_failed = true
goes_on (from_channel (some (packet p)) works) = true
goes_on (from_channel (some quit) works) = false
goes_on (from_channel none works) = false

-- The packets of one event, in each direction.
abbrev pub taken : Event → List UdpMessage
taken (from_socket bytes from sent) =
    packet (record { payload = bytes; local_addr = from; peer_addr = none }) ∷ []
taken _ = []

abbrev pub given : Event → List (SocketAddr × List ℕ)
given (from_channel (some (packet p)) true) = (p.local_addr, p.payload) ∷ []
given _ = []

-- The events that the loop lives to see.
abbrev pub seen : List Event → List Event
seen [] = []
seen (e ∷ es) = elim (goes_on e) [ true ↦ e ∷ seen es | false ↦ e ∷ [] ]

abbrev pub collect {ℓ} : {A : Type ℓ} → (Event → List A) → List Event → List A
collect f [] = []
collect f (e ∷ es) = f e ++ collect f es

handle-active :
    (s : State) (e : Event) (l : Loop)
    → s.active ≡ true
    → l.runs ≡ true
    → handle s e l
      ≡ record { runs = goes_on e; queue = l.queue ++ taken e; wire = l.wire ++ given e }
unfolding handle
handle-active s (from_socket bytes from sent) l a r = ground (arith, append-nil l.wire)
handle-active s (from_socket bytes from timed_out) l a r =
    ground (arith, append-nil l.wire, append-nil l.queue)
handle-active s (from_socket bytes from closed) l a r =
    ground (arith, append-nil l.wire, append-nil l.queue)
handle-active s socket_failed l a r = ground (arith, append-nil l.wire, append-nil l.queue)
handle-active s (from_channel (some (packet p)) true) l a r = ground (arith, append-nil l.queue)
handle-active s (from_channel (some (packet p)) false) l a r =
    ground (arith, append-nil l.wire, append-nil l.queue)
handle-active s (from_channel (some quit) works) l a r =
    ground (arith, append-nil l.wire, append-nil l.queue)
handle-active s (from_channel none works) l a r =
    ground (arith, append-nil l.wire, append-nil l.queue)

-- Whether the loop goes on behind all of the events.
abbrev pub all_go_on : List Event → Bool
all_go_on [] = true
all_go_on (e ∷ es) = goes_on e && all_go_on es

run-ended : (s : State) (es : List Event) (l : Loop) → l.runs ≡ false → run s es l ≡ l
run-ended s [] l h = refl
run-ended s (e ∷ es) l h = ground arith

abbrev Carries : List Event → List UdpMessage → List (SocketAddr × List ℕ) → Loop → Type 0
Carries es q w l =
    (l.queue ≡ q ++ collect taken (seen es))
    × (l.wire ≡ w ++ collect given (seen es))
    × (l.runs ≡ all_go_on es)

run-Carries :
    (s : State) (es : List Event) (q : List UdpMessage) (w : List (SocketAddr × List ℕ))
    → s.active ≡ true
    → Carries es q w (run s es (record { runs = true; queue = q; wire = w }))
run-Carries s [] q w a = (rw append-nil, rw append-nil, refl)
run-Carries s (e ∷ es) q w a =
    subst (λ l. Carries (e ∷ es) q w (run s es l))
      (sym (handle-active s e (record { runs = true; queue = q; wire = w }) a refl))
      (elim (Bool-cases (goes_on e)) [
        | inl on ↦
            subst
              (λ b.
                Carries (e ∷ es) q w
                  (run s es (record { runs = b; queue = q ++ taken e; wire = w ++ given e })))
              (sym on)
              (ground (
                arith,
                run-Carries s es (q ++ taken e) (w ++ given e) a,
                append_assoc q (taken e) (collect taken (seen es)),
                append_assoc w (given e) (collect given (seen es)),
              ))
        | inr off ↦
            subst
              (λ b.
                Carries (e ∷ es) q w
                  (run s es (record { runs = b; queue = q ++ taken e; wire = w ++ given e })))
              (sym off)
              (subst (Carries (e ∷ es) q w)
                (sym (
                  run-ended s es
                    (record { runs = false; queue = q ++ taken e; wire = w ++ given e }) refl))
                (ground (arith, append-nil (taken e), append-nil (given e))))
      ])

-- While the socket is active, the loop puts every packet that it can send on into its channel, with
-- the sender's address and no peer, and sends every packet of its own channel to that packet's local
-- address, both in order. It ends at `Quit`, or when one of the channels is closed, and at nothing
-- else.
pub run-active :
    (s : State) (es : List Event) (q : List UdpMessage) (w : List (SocketAddr × List ℕ))
    → s.active ≡ true
    → let l = run s es (record { runs = true; queue = q; wire = w }) in
      (l.queue ≡ q ++ collect taken (seen es))
      × (l.wire ≡ w ++ collect given (seen es))
      × (l.runs ≡ all_go_on es)
run-active s es q w a = run-Carries s es q w a
