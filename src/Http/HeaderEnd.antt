-- ===== src/Http/HeaderEnd.antt =====
-- `find_header_end` of src/codec/http.rs on more bytes.
use rstun.Base.{
  ℕ, ◌≤◌, ◌≡◌, refl, ap, Bool, true, false, Option, none, some, List, [], ◌∷◌, ◌++◌, length,
  if◌then◌else◌, arith,
}
use rstun.Http.{after_one, starts_with_end, find_header_end}

pub some_injective : (a b : ℕ) → ◌≡◌ {A = Option ℕ} (some a) (some b) → a ≡ b
some_injective a b h = ap (λ o. elim o [ none ↦ a | some c ↦ c ]) h

starts-append : (xs ys : List ℕ) → 4 ≤ length xs → starts_with_end (xs ++ ys) ≡ starts_with_end xs
starts-append (a ∷ b ∷ c ∷ d ∷ xs) ys h = refl
starts-append [] ys h = absurd (omega arith)
starts-append (a ∷ []) ys h = absurd (omega arith)
starts-append (a ∷ b ∷ []) ys h = absurd (omega arith)
starts-append (a ∷ b ∷ c ∷ []) ys h = absurd (omega arith)

starts-long : (xs : List ℕ) → starts_with_end xs ≡ true → 4 ≤ length xs
starts-long (a ∷ b ∷ c ∷ d ∷ xs) h = omega arith
starts-long [] h = cc
starts-long (a ∷ []) h = cc
starts-long (a ∷ b ∷ []) h = cc
starts-long (a ∷ b ∷ c ∷ []) h = cc

pub find_header_end-long :
    (xs : List ℕ) (n : ℕ) → find_header_end xs ≡ some n → (4 ≤ length xs) × (n ≤ length xs)
unfolding find_header_end
find_header_end-long [] n h = cc
find_header_end-long (x ∷ xs) n h =
    by_tests (starts_with_end (x ∷ xs)) (find_header_end xs) refl
      (λ m e. find_header_end-long xs m e) h
  where
    by_tests :
        (t : Bool) (o : Option ℕ)
        → starts_with_end (x ∷ xs) ≡ t
        → ((m : ℕ) → o ≡ some m → (4 ≤ length xs) × (m ≤ length xs))
        → (if t then some 4 else after_one o) ≡ some n
        → (4 ≤ length (x ∷ xs)) × (n ≤ length (x ∷ xs))
    by_tests true o e q h = (starts-long (x ∷ xs) e, ground (arith, starts-long (x ∷ xs) e, h))
    by_tests false none e q h = cc
    by_tests false (some m) e q h = ground (arith, q m refl, h)

-- A header end in the front part stays where it is.
pub find_header_end-append :
    (xs ys : List ℕ) (n : ℕ) → find_header_end xs ≡ some n → find_header_end (xs ++ ys) ≡ some n
unfolding find_header_end
find_header_end-append [] ys n h = cc
find_header_end-append (x ∷ xs) ys n h =
    by_tests (starts_with_end (x ∷ xs)) (find_header_end xs) refl
      (λ m e. (find_header_end-long xs m e).0) (λ m e. find_header_end-append xs ys m e) h
  where
    by_tests :
        (t : Bool) (o : Option ℕ)
        → starts_with_end (x ∷ xs) ≡ t
        → ((m : ℕ) → o ≡ some m → 4 ≤ length xs)
        → ((m : ℕ) → o ≡ some m → find_header_end (xs ++ ys) ≡ some m)
        → (if t then some 4 else after_one o) ≡ some n
        → (if starts_with_end (x ∷ (xs ++ ys))
            then some 4
            else after_one (find_header_end (xs ++ ys)))
          ≡ some n
    by_tests true o e l q h =
        ground (arith, starts-append (x ∷ xs) ys (starts-long (x ∷ xs) e), e, h)
    by_tests false none e l q h = cc
    by_tests false (some m) e l q h =
        ground (arith, starts-append (x ∷ xs) ys (omega (arith, l m refl)), e, q m refl, h)
