-- ===== src/Events/Examples.antt =====
-- A bus with two listeners, and the delivery theorems at it.
use rstun.Base.{◌≡◌, refl, true, ◌&&◌, none, List, [], ◌∷◌, ◌++◌, if◌then◌else◌}
use rstun.Events.{TunnelEvent, log, new_bus, register, post, retain_listeners, drop_receiver}
use rstun.Events.Delivery.{listed, is_open, run, registers, drops, Op, post_delivers}

abbrev hello : TunnelEvent
hello = record { event_type = log (b'h' ∷ b'i' ∷ []); timestamp = []; tunnel = none }

-- Two listeners, of which the second has gone.
abbrev history : List Op
history = registers ∷ registers ∷ drops 1 ∷ []

one_left : (post hello (run history new_bus)).listeners ≡ 0 ∷ []
unfolding register post retain_listeners drop_receiver
one_left = refl

post_delivers_example :
    let hub = run history new_bus in
    ((post hello hub).channels 0 ≡ (
      if listed 0 hub.listeners && is_open hub 0
      then record { queue = (hub.channels 0).queue ++ (hello ∷ []); open_end = true }
      else hub.channels 0))
    × (listed 0 (post hello hub).listeners ≡ (listed 0 hub.listeners && is_open hub 0))
post_delivers_example = post_delivers history hello 0
