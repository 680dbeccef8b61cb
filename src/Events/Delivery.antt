-- ===== src/Events/Delivery.antt =====
-- What a posted event does to each channel, src/tunnel_event_bus.rs.
use rstun.Base.{
  ℕ, suc, ◌≡◌, ◌<◌, refl, ap, ◌∙◌, Bool, true, false, ◌&&◌, ◌||◌, List, [], ◌∷◌, ◌++◌, ◌==◌,
  if◌then◌else◌, retain, All, arith, append_assoc, append-nil, map,
}
use mathlib.Core.Path.{fun_ext}
use rstun.Events.{
  TunnelEvent, Channel, Hub, new_bus, register, send, retain_listeners, post, drop_receiver,
}

abbrev pub listed : ℕ → List ℕ → Bool
listed i [] = false
listed i (l ∷ ls) = (i == l) || listed i ls

-- No channel is listed twice.
abbrev pub IsDistinct : List ℕ → Type 0
IsDistinct [] = Unit
IsDistinct (l ∷ ls) = (listed l ls ≡ false) × IsDistinct ls

abbrev pub is_open : Hub → ℕ → Bool
is_open hub i = (hub.channels i).open_end

open_end-send :
    (l : ℕ) (e : TunnelEvent) (cs : ℕ → Channel) (j : ℕ)
    → (send l e cs j).open_end ≡ (cs j).open_end
open_end-send l e cs j = ground arith

retain_listeners-kept :
    (ls : List ℕ) (e : TunnelEvent) (cs : ℕ → Channel)
    → (retain_listeners ls e cs).0 ≡ retain (λ i. (cs i).open_end) ls
unfolding retain_listeners
retain_listeners-kept [] e cs = refl
retain_listeners-kept (l ∷ ls) e cs = ground (
  arith,
  retain_listeners-kept ls e (send l e cs),
  ap (λ (p : ℕ → Bool). retain p ls) (fun_ext (open_end-send l e cs)),
)

retain_listeners-queue :
    (ls : List ℕ) (e : TunnelEvent) (cs : ℕ → Channel) (j : ℕ)
    → IsDistinct ls
    → (retain_listeners ls e cs).1 j ≡ (
        if listed j ls && (cs j).open_end
        then record { queue = (cs j).queue ++ (e ∷ []); open_end = true }
        else cs j)
unfolding retain_listeners
retain_listeners-queue [] e cs j d = refl
retain_listeners-queue (l ∷ ls) e cs j (fresh, d) =
    ground (arith, retain_listeners-queue ls e (send l e cs) j d)

listed-retain : (p : ℕ → Bool) (j : ℕ) (ls : List ℕ) → listed j (retain p ls) ≡ (listed j ls && p j)
listed-retain p j [] = refl
listed-retain p j (l ∷ ls) = ground (arith, listed-retain p j ls)

IsDistinct-retain : (p : ℕ → Bool) (ls : List ℕ) → IsDistinct ls → IsDistinct (retain p ls)
IsDistinct-retain p [] d = tt
IsDistinct-retain p (l ∷ ls) (fresh, d) =
    ground (arith, listed-retain p l ls, IsDistinct-retain p ls d)

-- Every listener's channel has a number below the next one, and none is listed twice.
pub record IsWired (hub : Hub) : Type 0 where
  pub distinct : IsDistinct hub.listeners
  pub below : All (λ l. l < hub.next_channel) hub.listeners

listed_below : (n j : ℕ) (ls : List ℕ) → All (λ l. l < n) ls → listed j ls ≡ true → j < n
listed_below n j [] b h = cc
listed_below n j (l ∷ ls) (now, b) h = ground (arith, listed_below n j ls b)

below-retain :
    (n : ℕ) (p : ℕ → Bool) (ls : List ℕ) → All (λ l. l < n) ls → All (λ l. l < n) (retain p ls)
below-retain n p [] b = tt
below-retain n p (l ∷ ls) (now, b) = ground (arith, below-retain n p ls b)

listed-snoc : (j n : ℕ) (ls : List ℕ) → listed j (ls ++ n ∷ []) ≡ (listed j ls || (j == n))
listed-snoc j n [] = ground arith
listed-snoc j n (l ∷ ls) = ground (arith, listed-snoc j n ls)

IsDistinct-snoc :
    (n : ℕ) (ls : List ℕ) → All (λ l. l < n) ls → IsDistinct ls → IsDistinct (ls ++ n ∷ [])
IsDistinct-snoc n [] b d = (refl, tt)
IsDistinct-snoc n (l ∷ ls) (now, b) (fresh, d) =
    (ground (arith, listed-snoc l n ls), IsDistinct-snoc n ls b d)

below-snoc : (n : ℕ) (ls : List ℕ) → All (λ l. l < n) ls → All (λ l. l < suc n) (ls ++ n ∷ [])
below-snoc n [] b = (omega arith, tt)
below-snoc n (l ∷ ls) (now, b) = (omega arith, below-snoc n ls b)

register-IsWired : (hub : Hub) → IsWired hub → IsWired (register hub).1
unfolding register
register-IsWired hub w = record {
  distinct = IsDistinct-snoc hub.next_channel hub.listeners w.below w.distinct;
  below = below-snoc hub.next_channel hub.listeners w.below;
}

post-IsWired : (e : TunnelEvent) (hub : Hub) → IsWired hub → IsWired (post e hub)
unfolding post
post-IsWired e hub w =
    let kept = retain_listeners-kept hub.listeners e hub.channels in
    let p : ℕ → Bool = λ i. (hub.channels i).open_end in
    record {
      distinct = rw kept (IsDistinct-retain p hub.listeners w.distinct);
      below = rw kept (below-retain hub.next_channel p hub.listeners w.below);
    }

-- What the program and its listeners do to a bus.
pub data Op : Type 0 where
  registers : Op
  posts : TunnelEvent → Op
  drops : ℕ → Op

abbrev pub step : Op → Hub → Hub
step registers hub = (register hub).1
step (posts e) hub = post e hub
step (drops i) hub = drop_receiver i hub

abbrev pub run : List Op → Hub → Hub
run [] hub = hub
run (op ∷ ops) hub = run ops (step op hub)

step-IsWired : (op : Op) (hub : Hub) → IsWired hub → IsWired (step op hub)
unfolding drop_receiver
step-IsWired registers hub w = register-IsWired hub w
step-IsWired (posts e) hub w = post-IsWired e hub w
step-IsWired (drops i) hub w = record { distinct = w.distinct; below = w.below }

run-IsWired : (ops : List Op) (hub : Hub) → IsWired hub → IsWired (run ops hub)
run-IsWired [] hub w = w
run-IsWired (op ∷ ops) hub w = run-IsWired ops (step op hub) (step-IsWired op hub w)

run-new_bus-IsWired : (ops : List Op) → IsWired (run ops new_bus)
run-new_bus-IsWired ops = run-IsWired ops new_bus (record { distinct = tt; below = tt })

post-Delivers :
    (e : TunnelEvent) (hub : Hub) (j : ℕ)
    → IsWired hub
    → ((post e hub).channels j ≡ (
        if listed j hub.listeners && is_open hub j
        then record { queue = (hub.channels j).queue ++ (e ∷ []); open_end = true }
        else hub.channels j))
      × (listed j (post e hub).listeners ≡ (listed j hub.listeners && is_open hub j))
unfolding post
post-Delivers e hub j w = (
  retain_listeners-queue hub.listeners e hub.channels j w.distinct,
  rw (retain_listeners-kept hub.listeners e hub.channels)
      (listed-retain (λ i. (hub.channels i).open_end) j hub.listeners),
)

-- After any registrations, posts and dropped receivers, one more event reaches the channel of every
-- listener whose receiver is there, once and behind what its queue holds, and changes no other
-- channel. Exactly those listeners stay registered.
pub post_delivers :
    (ops : List Op) (e : TunnelEvent) (j : ℕ)
    → let hub = run ops new_bus in
      ((post e hub).channels j ≡ (
        if listed j hub.listeners && is_open hub j
        then record { queue = (hub.channels j).queue ++ (e ∷ []); open_end = true }
        else hub.channels j))
      × (listed j (post e hub).listeners ≡ (listed j hub.listeners && is_open hub j))
post_delivers ops e j = post-Delivers e (run ops new_bus) j (run-new_bus-IsWired ops)

post_all-queue :
    (es : List TunnelEvent) (hub : Hub) (j : ℕ)
    → IsWired hub
    → listed j hub.listeners ≡ true
    → is_open hub j ≡ true
    → ((run (map posts es) hub).channels j).queue ≡ (hub.channels j).queue ++ es
post_all-queue [] hub j w there open_j = rw append-nil
post_all-queue (e ∷ es) hub j w there open_j =
    let d = post-Delivers e hub j w in
    post_all-queue es (post e hub) j (post-IsWired e hub w) (ground (arith, d.1))
      (ground (arith, d.0))
    ∙ ground (arith, d.0, append_assoc (hub.channels j).queue (e ∷ []) es)
