-- ===== src/Udp/Reserve.antt =====
-- What a reservation gives: `reserve_channel_local_addr` of src/udp/udp_tunnel.rs.
use rstun.Base.{
  ℕ, zero, suc, ◌+◌, ◌%◌, ◌<◌, ◌≡◌, ◌≢◌, refl, ◌⊎◌, inl, inr, Bool, true, false, Option, none, some,
  ◌==◌, if◌then◌else◌, Result, ok, err, is_some, arith, Bool-cases, sym, subst,
}
use rstun.Net.{SocketAddr}
use rstun.Net.Equality.{addr_eq, addr_eq_iff}
use rstun.Udp.Ports.{
  get, insert, get-insert, channel_local_addr_for_port, Ports, bump, ReserveError, reserve_loop,
  reserve_channel_local_addr,
}

-- A port is occupied when its address has an entry.
abbrev pub Occupied : Bool → Ports → ℕ → Type 0
Occupied ipv6 s port = is_some (get (channel_local_addr_for_port port ipv6) s.reply_map) ≡ true

-- The port of the `i`-th round.
abbrev pub nth_port : Ports → ℕ → ℕ
nth_port s i = (s.next_local_port + i) % 65536

pub record Reserved (ipv6 : Bool) (reply_tx : ℕ) (s : Ports) (a : SocketAddr) (s' : Ports)
    : Type 0 where
  pub port : ℕ
  pub address : a ≡ channel_local_addr_for_port port ipv6
  pub in_range : (0 < port) × (port < 65536)
  pub was_free : get a s.reply_map ≡ none
  pub mapped : get a s'.reply_map ≡ some reply_tx
  pub others : (j : SocketAddr) → j ≢ a → get j s'.reply_map ≡ get j s.reply_map
  pub next_in_range : s'.next_local_port < 65536

-- Every round met port 0 or an occupied port, and the map is as it was.
pub record Exhausted (rounds : ℕ) (ipv6 : Bool) (s s' : Ports) : Type 0 where
  pub tried : (i : ℕ) → i < rounds → (nth_port s i ≡ 0) ⊎ Occupied ipv6 s (nth_port s i)
  pub unchanged : s'.reply_map ≡ s.reply_map

abbrev pub Outcome : ℕ → Bool → ℕ → Ports → Result ReserveError SocketAddr × Ports → Type 0
Outcome rounds ipv6 reply_tx s (ok a, s') = Reserved ipv6 reply_tx s a s'
Outcome rounds ipv6 reply_tx s (err e, s') = Exhausted rounds ipv6 s s'

addr_eq_refl : (a : SocketAddr) → addr_eq a a ≡ true
addr_eq_refl a = (addr_eq_iff a a).1 refl

addr_eq_ne : (a b : SocketAddr) → a ≢ b → addr_eq a b ≡ false
addr_eq_ne a b ne = elim (Bool-cases (addr_eq a b)) [
  | inl e ↦ absurd (ne ((addr_eq_iff a b).0 e))
  | inr e ↦ e
]

by_tests :
    {A : Type 0} (P : A → Type 0) (z o : Bool) {more t : A}
    → (z ≡ true → P more)
    → (o ≡ true → P more)
    → (z ≡ false → o ≡ false → P t)
    → P (if z then more else (if o then more else t))
by_tests P true o f g h = f refl
by_tests P false true f g h = g refl
by_tests P false false f g h = h refl refl

is_some-none : {A : Type 0} (o : Option A) → is_some o ≡ false → o ≡ none
is_some-none none h = refl
is_some-none (some a) h = cc

-- A reservation at a free port.
take_port :
    (ipv6 : Bool) (reply_tx port : ℕ) (s s' : Ports)
    → s'.reply_map ≡ insert (channel_local_addr_for_port port ipv6) reply_tx s.reply_map
    → s'.next_local_port < 65536
    → port ≢ 0
    → port < 65536
    → get (channel_local_addr_for_port port ipv6) s.reply_map ≡ none
    → Reserved ipv6 reply_tx s (channel_local_addr_for_port port ipv6) s'
take_port ipv6 reply_tx port s s' e next ne lt free = record {
  port = port;
  address = refl;
  in_range = (omega arith, lt);
  was_free = free;
  mapped = rw (e, get-insert, addr_eq_refl);
  others = λ j ne.
      rw (e, get-insert, addr_eq_ne (channel_local_addr_for_port port ipv6) j (λ q. ne (sym q)));
  next_in_range = next;
}

all_tried :
    (ipv6 : Bool) (s : Ports) (rounds : ℕ)
    → s.next_local_port < 65536
    → (s.next_local_port ≡ 0) ⊎ Occupied ipv6 s s.next_local_port
    → ((i : ℕ) → i < rounds → (nth_port (bump s) i ≡ 0) ⊎ Occupied ipv6 s (nth_port (bump s) i))
    → (i : ℕ) → i < suc rounds
    → (nth_port s i ≡ 0) ⊎ Occupied ipv6 s (nth_port s i)
all_tried ipv6 s rounds lt first rest zero h =
    subst (λ p. (p ≡ 0) ⊎ Occupied ipv6 s p) (omega arith) first
all_tried ipv6 s rounds lt first rest (suc i) h =
    subst (λ p. (p ≡ 0) ⊎ Occupied ipv6 s p) (omega arith) (rest i (omega arith))

first_round :
    (ipv6 : Bool) (s : Ports) (rounds : ℕ) (s' : Ports)
    → s.next_local_port < 65536
    → (s.next_local_port ≡ 0) ⊎ Occupied ipv6 s s.next_local_port
    → Exhausted rounds ipv6 (bump s) s'
    → Exhausted (suc rounds) ipv6 s s'
first_round ipv6 s rounds s' lt first rest = record {
  tried = all_tried ipv6 s rounds lt first rest.tried;
  unchanged = rest.unchanged;
}

later :
    (ipv6 : Bool) (reply_tx : ℕ) (s : Ports) (rounds : ℕ)
    (r : Result ReserveError SocketAddr × Ports)
    → s.next_local_port < 65536
    → (s.next_local_port ≡ 0) ⊎ Occupied ipv6 s s.next_local_port
    → Outcome rounds ipv6 reply_tx (bump s) r
    → Outcome (suc rounds) ipv6 reply_tx s r
later ipv6 reply_tx s rounds (ok a, s') lt first h = record {
  port = h.port;
  address = h.address;
  in_range = h.in_range;
  was_free = h.was_free;
  mapped = h.mapped;
  others = h.others;
  next_in_range = h.next_in_range;
}
later ipv6 reply_tx s rounds (err e, s') lt first h = first_round ipv6 s rounds s' lt first h

reserve_loop-Outcome :
    (rounds : ℕ) (ipv6 : Bool) (reply_tx : ℕ) (s : Ports)
    → s.next_local_port < 65536
    → Outcome rounds ipv6 reply_tx s (reserve_loop rounds ipv6 reply_tx s)
unfolding reserve_loop
reserve_loop-Outcome zero ipv6 reply_tx s lt = record {
  tried = λ i h. absurd (omega arith);
  unchanged = refl;
}
reserve_loop-Outcome (suc rounds) ipv6 reply_tx s lt =
    let more = reserve_loop-Outcome rounds ipv6 reply_tx (bump s) (omega arith) in
    by_tests (Outcome (suc rounds) ipv6 reply_tx s) (s.next_local_port == 0)
      (is_some (get (channel_local_addr_for_port s.next_local_port ipv6) s.reply_map))
      (λ e. later ipv6 reply_tx s rounds _ lt (inl (ground (arith, e))) more)
      (λ o. later ipv6 reply_tx s rounds _ lt (inr o) more)
      (λ e o.
        take_port ipv6 reply_tx s.next_local_port s _ refl (omega arith) (ground (arith, e)) lt
          (is_some-none _ o))

-- A reservation, in a state whose counter is a 16-bit number, either gives the local address of a
-- port other than 0 that no stream holds, then maps it to the sender of the stream and changes no
-- other entry, or fails, then every one of the 65535 ports from the counter on is 0 or held by a
-- stream, and the map is as it was.
pub reserve_channel_local_addr-Outcome :
    (ipv6 : Bool) (reply_tx : ℕ) (s : Ports)
    → s.next_local_port < 65536
    → Outcome 65535 ipv6 reply_tx s (reserve_channel_local_addr ipv6 reply_tx s)
unfolding reserve_channel_local_addr
reserve_channel_local_addr-Outcome ipv6 reply_tx s lt =
    reserve_loop-Outcome 65535 ipv6 reply_tx s lt
