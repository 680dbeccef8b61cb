-- ===== src/Net/Equality.antt =====
-- Equality of octet lists, addresses and targets (`derive(PartialEq)`), with what the tests decide.
use rstun.Base.{
  ℕ, ◌≡◌, refl, ap, ◌↔◌, Bool, true, false, ◌&&◌, List, [], ◌∷◌, arith, ◌==◌ as nat_eq,
}
use rstun.Net.{IpAddr, v4, v6, SocketAddr, TunnelTarget, addr, domain}

unfoldable pub bytes_eq : List ℕ → List ℕ → Bool
bytes_eq [] [] = true
bytes_eq (x ∷ xs) (y ∷ ys) = nat_eq x y && bytes_eq xs ys
bytes_eq _ _ = false

bytes_eq_refl : (xs : List ℕ) → bytes_eq xs xs ≡ true
unfolding bytes_eq
bytes_eq_refl [] = refl
bytes_eq_refl (x ∷ xs) = ground (arith, bytes_eq_refl xs)

bytes_eq→eq : (xs ys : List ℕ) → bytes_eq xs ys ≡ true → xs ≡ ys
unfolding bytes_eq
bytes_eq→eq [] [] h = refl
bytes_eq→eq [] (y ∷ ys) h = cc
bytes_eq→eq (x ∷ xs) [] h = cc
bytes_eq→eq (x ∷ xs) (y ∷ ys) h = ground (arith, bytes_eq→eq xs ys)

pub bytes_eq_iff : (xs ys : List ℕ) → (bytes_eq xs ys ≡ true) ↔ (xs ≡ ys)
bytes_eq_iff xs ys = (bytes_eq→eq xs ys, λ e. cc (e, bytes_eq_refl ys))

unfoldable pub ip_eq : IpAddr → IpAddr → Bool
ip_eq (v4 a) (v4 b) = bytes_eq a b
ip_eq (v6 a) (v6 b) = bytes_eq a b
ip_eq _ _ = false

pub ip_eq_iff : (a b : IpAddr) → (ip_eq a b ≡ true) ↔ (a ≡ b)
unfolding ip_eq
ip_eq_iff (v4 a) (v4 b) = (λ h. ap v4 ((bytes_eq_iff a b).0 h), λ e. (bytes_eq_iff a b).1 (cc))
ip_eq_iff (v6 a) (v6 b) = (λ h. ap v6 ((bytes_eq_iff a b).0 h), λ e. (bytes_eq_iff a b).1 (cc))
ip_eq_iff (v4 a) (v6 b) = (λ h. cc, λ e. cc)
ip_eq_iff (v6 a) (v4 b) = (λ h. cc, λ e. cc)

unfoldable pub addr_eq : SocketAddr → SocketAddr → Bool
addr_eq a b = ip_eq a.ip b.ip && nat_eq a.port b.port

pub addr_eq_iff : (a b : SocketAddr) → (addr_eq a b ≡ true) ↔ (a ≡ b)
unfolding addr_eq
addr_eq_iff a b =
    (λ h. ground (arith, (ip_eq_iff a.ip b.ip).0), λ e. ground (arith, (ip_eq_iff a.ip b.ip).1, e))

unfoldable pub target_eq : TunnelTarget → TunnelTarget → Bool
target_eq (addr a) (addr b) = addr_eq a b
target_eq (domain h p) (domain g q) = bytes_eq h g && nat_eq p q
target_eq _ _ = false

pub target_eq_iff : (a b : TunnelTarget) → (target_eq a b ≡ true) ↔ (a ≡ b)
unfolding target_eq
target_eq_iff (addr a) (addr b) =
    (λ h. ap addr ((addr_eq_iff a b).0 h), λ e. (addr_eq_iff a b).1 (cc))
target_eq_iff (domain h p) (domain g q) =
    (λ e. ground (arith, (bytes_eq_iff h g).0), λ e. ground (arith, (bytes_eq_iff h g).1))
target_eq_iff (addr a) (domain h p) = (λ e. cc, λ e. cc)
target_eq_iff (domain h p) (addr a) = (λ e. cc, λ e. cc)
