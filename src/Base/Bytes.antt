-- ===== src/Base/Bytes.antt =====
-- Bytes as numbers below 256, and Rust's `to_be_bytes` and `from_be_bytes` at any width.
use Prim.Native.Nat.{ℕ, zero, suc, ◌+◌, ◌*◌, ◌/◌, ◌%◌, ◌^◌, ◌<◌}
use mathlib.Core.Path.{◌≡◌, refl}
use mathlib.Core.List.{List, [], ◌∷◌, ◌++◌}
use native.Mathlib.Nat.{pow-suc}
use native.Mathlib.Omega.{arith}
use rstun.Base.Lists.{length, length-append, All, All-append}

abbrev pub IsByte : ℕ → Type 0
IsByte b = b < 256

abbrev pub AreBytes : List ℕ → Type 0
AreBytes bs = All IsByte bs

-- The `w` low bytes of a number, the most significant first.
unfoldable pub to_be_bytes : ℕ → ℕ → List ℕ
to_be_bytes zero v = []
to_be_bytes (suc w) v = to_be_bytes w (v / 256) ++ (v % 256 ∷ [])

be_loop : ℕ → List ℕ → ℕ
be_loop acc [] = acc
be_loop acc (b ∷ bs) = be_loop (acc * 256 + b) bs

unfoldable pub from_be_bytes : List ℕ → ℕ
unfolding be_loop
from_be_bytes bs = be_loop 0 bs

be_loop-snoc :
    (acc : ℕ) (bs : List ℕ) (b : ℕ) → be_loop acc (bs ++ b ∷ []) ≡ be_loop acc bs * 256 + b
unfolding be_loop
be_loop-snoc acc [] b = refl
be_loop-snoc acc (x ∷ bs) b = be_loop-snoc (acc * 256 + x) bs b

pub length-to_be_bytes : (w v : ℕ) → length (to_be_bytes w v) ≡ w
unfolding to_be_bytes
length-to_be_bytes zero v = refl
length-to_be_bytes (suc w) v =
    omega (
      arith,
      length-append (to_be_bytes w (v / 256)) (v % 256 ∷ []),
      length-to_be_bytes w (v / 256),
    )

pub to_be_bytes-AreBytes : (w v : ℕ) → AreBytes (to_be_bytes w v)
unfolding to_be_bytes
to_be_bytes-AreBytes zero v = tt
to_be_bytes-AreBytes (suc w) v =
    All-append IsByte (to_be_bytes w (v / 256)) (v % 256 ∷ []) (to_be_bytes-AreBytes w (v / 256))
      (omega arith, tt)

-- A number that fits the width is read back.
pub from_be_bytes-to_be_bytes : (w v : ℕ) → v < 256 ^ w → from_be_bytes (to_be_bytes w v) ≡ v
unfolding from_be_bytes to_be_bytes
from_be_bytes-to_be_bytes zero v h = omega arith
from_be_bytes-to_be_bytes (suc w) v h = omega (
  arith,
  be_loop-snoc 0 (to_be_bytes w (v / 256)) (v % 256),
  from_be_bytes-to_be_bytes w (v / 256) (omega (arith, pow-suc 256 w)),
)

-- Two bytes are a number below 65536, and are its bytes.
pub from_be_bytes_two :
    (bs : List ℕ)
    → length bs ≡ 2
    → AreBytes bs
    → (from_be_bytes bs < 65536) × (to_be_bytes 2 (from_be_bytes bs) ≡ bs)
unfolding from_be_bytes be_loop to_be_bytes
from_be_bytes_two [] w h = absurd (omega arith)
from_be_bytes_two (a ∷ []) w h = absurd (omega arith)
from_be_bytes_two (a ∷ b ∷ []) w h = (omega arith, ground arith)
from_be_bytes_two (a ∷ b ∷ c ∷ bs) w h = absurd (omega arith)
