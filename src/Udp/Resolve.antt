-- ===== src/Udp/Resolve.antt =====
-- The address of a UDP flow: `target_family_is_ipv6` and `resolve_udp_target` of
-- src/udp/udp_tunnel.rs. `lookup_host` is a parameter: what it answers for a name and a port.
use rstun.Base.{
  ℕ, ◌++◌, sym, subst, ap, ◌≡◌, refl, Bool, true, false, Option, none, some, List, [], ◌∷◌, Result,
  ok, err, find, All, ◌⊎◌, inl, inr,
}
use rstun.Net.{SocketAddr, is_ipv4, is_ipv6, TunnelTarget, addr, domain, Text}

-- `is_some_and`.
family_of : Option SocketAddr → Bool
family_of (some a) = is_ipv6 a
family_of none = false

unfoldable pub target_family_is_ipv6 : Option TunnelTarget → Option SocketAddr → Bool
unfolding family_of
target_family_is_ipv6 (some (addr a)) default_upstream = is_ipv6 a
target_family_is_ipv6 (some (domain host port)) default_upstream = family_of default_upstream
target_family_is_ipv6 none default_upstream = family_of default_upstream

-- What `lookup_host` does within the timeout.
pub data Lookup : Type 0 where
  answered : List SocketAddr → Lookup
  lookup_failed lookup_timed_out : Lookup

pub data ResolveError : Type 0 where
  resolve_timeout resolve_failed resolve_empty no_upstream : ResolveError

first : List SocketAddr → Option SocketAddr
first [] = none
first (a ∷ rest) = some a

or_else : Option SocketAddr → Option SocketAddr → Option SocketAddr
or_else (some a) o = some a
or_else none o = o

with_context : Option SocketAddr → Result ResolveError SocketAddr
with_context (some a) = ok a
with_context none = err resolve_empty

choose : Lookup → Result ResolveError SocketAddr
unfolding first or_else with_context
choose (answered addrs) = with_context (or_else (find is_ipv4 addrs) (first addrs))
choose lookup_failed = err resolve_failed
choose lookup_timed_out = err resolve_timeout

unfoldable pub resolve_udp_target :
    (lookup_host : Text → ℕ → Lookup) → TunnelTarget → Result ResolveError SocketAddr
unfolding choose
resolve_udp_target lookup_host (addr a) = ok a
resolve_udp_target lookup_host (domain host port) = choose (lookup_host host port)

-- The head of `process`: a fixed `upstream_addr` wins over the target of the flow.
unfoldable pub resolve_upstream :
    (lookup_host : Text → ℕ → Lookup)
    → Option SocketAddr
    → Option TunnelTarget
    → Result ResolveError SocketAddr
resolve_upstream lookup_host (some upstream) target = ok upstream
resolve_upstream lookup_host none (some target) = resolve_udp_target lookup_host target
resolve_upstream lookup_host none none = err no_upstream

abbrev NoneIsIpv4 : List SocketAddr → Type 0
NoneIsIpv4 addrs = All (λ b. is_ipv4 b ≡ false) addrs

-- The first IPv4 address, or, when there is none, the first address.
pub record FirstIpv4 (addrs : List SocketAddr) (a : SocketAddr) : Type 0 where
  pub before : List SocketAddr
  pub after : List SocketAddr
  pub split : addrs ≡ before ++ a ∷ after
  pub ipv4 : is_ipv4 a ≡ true
  pub none_before : NoneIsIpv4 before

pub record FirstOfAll (addrs : List SocketAddr) (a : SocketAddr) : Type 0 where
  pub after : List SocketAddr
  pub split : addrs ≡ a ∷ after
  pub no_ipv4 : NoneIsIpv4 addrs

abbrev pub Chosen : List SocketAddr → Result ResolveError SocketAddr → Type 0
Chosen addrs (ok a) = FirstIpv4 addrs a ⊎ FirstOfAll addrs a
Chosen addrs (err e) = (addrs ≡ []) × (e ≡ resolve_empty)

abbrev Found : List SocketAddr → Option SocketAddr → Type 0
Found addrs (some a) = FirstIpv4 addrs a
Found addrs none = NoneIsIpv4 addrs

Found-later :
    (b : SocketAddr) (addrs : List SocketAddr) (o : Option SocketAddr)
    → is_ipv4 b ≡ false
    → Found addrs o
    → Found (b ∷ addrs) o
Found-later b addrs (some a) e h = record {
  before = b ∷ h.before;
  after = h.after;
  split = ap (λ l. b ∷ l) h.split;
  ipv4 = h.ipv4;
  none_before = (e, h.none_before);
}
Found-later b addrs none e h = (e, h)

find-Found : (addrs : List SocketAddr) → Found addrs (find is_ipv4 addrs)
find-Found [] = tt
find-Found (b ∷ addrs) = by_test (is_ipv4 b) refl (find-Found addrs)
  where
    by_test :
        (t : Bool)
        → is_ipv4 b ≡ t
        → Found addrs (find is_ipv4 addrs)
        → Found (b ∷ addrs) (elim t [ true ↦ some b | false ↦ find is_ipv4 addrs ])
    by_test true e h = record {
      before = [];
      after = addrs;
      split = refl;
      ipv4 = e;
      none_before = tt;
    }
    by_test false e h = Found-later b addrs (find is_ipv4 addrs) e h

Found-Chosen :
    (addrs : List SocketAddr) (o : Option SocketAddr)
    → Found addrs o
    → Chosen addrs (with_context (or_else o (first addrs)))
unfolding with_context or_else first
Found-Chosen addrs (some a) h = inl h
Found-Chosen [] none h = (refl, refl)
Found-Chosen (b ∷ addrs) none h = inr (record { after = addrs; split = refl; no_ipv4 = h })

choose-Chosen : (addrs : List SocketAddr) → Chosen addrs (choose (answered addrs))
unfolding choose
choose-Chosen addrs = Found-Chosen addrs (find is_ipv4 addrs) (find-Found addrs)

-- When the resolver answers with a list of addresses, a domain target resolves to the first IPv4
-- address of the list, or to its first address when none is IPv4, and fails only for an empty list,
-- as an empty resolution.
pub resolve_udp_target-Chosen :
    (lookup_host : Text → ℕ → Lookup) (host : Text) (port : ℕ) (addrs : List SocketAddr)
    → lookup_host host port ≡ answered addrs
    → Chosen addrs (resolve_udp_target lookup_host (domain host port))
unfolding resolve_udp_target
resolve_udp_target-Chosen lookup_host host port addrs e =
    subst (λ l. Chosen addrs (choose l)) (sym e) (choose-Chosen addrs)

pub resolve_udp_target-failed :
    (lookup_host : Text → ℕ → Lookup) (host : Text) (port : ℕ)
    → lookup_host host port ≡ lookup_failed
    → resolve_udp_target lookup_host (domain host port) ≡ err resolve_failed
unfolding resolve_udp_target choose
resolve_udp_target-failed lookup_host host port e = ap choose e

pub resolve_udp_target-timed_out :
    (lookup_host : Text → ℕ → Lookup) (host : Text) (port : ℕ)
    → lookup_host host port ≡ lookup_timed_out
    → resolve_udp_target lookup_host (domain host port) ≡ err resolve_timeout
unfolding resolve_udp_target choose
resolve_udp_target-timed_out lookup_host host port e = ap choose e
