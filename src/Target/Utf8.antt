-- ===== src/Target/Utf8.antt =====
-- `std::str::from_utf8`: the well-formed byte sequences of the Unicode standard, table 3-7.
use rstun.Base.{
  ℕ, Bool, true, false, ◌&&◌, Option, none, some, List, [], ◌∷◌, leb, ltb, if◌then◌else◌,
}

in_range : ℕ → ℕ → ℕ → Bool
in_range lo hi b = leb lo b && leb b hi

-- The ranges of the bytes that must follow a leading byte.
continuations : ℕ → Option (List (ℕ × ℕ))
unfolding in_range
continuations b =
    if ltb b 0x80
    then some []
    else if in_range 0xc2 0xdf b
    then some ((0x80, 0xbf) ∷ [])
    else if in_range 0xe0 0xe0 b
    then some ((0xa0, 0xbf) ∷ (0x80, 0xbf) ∷ [])
    else if in_range 0xed 0xed b
    then some ((0x80, 0x9f) ∷ (0x80, 0xbf) ∷ [])
    else if in_range 0xe1 0xef b
    then some ((0x80, 0xbf) ∷ (0x80, 0xbf) ∷ [])
    else if in_range 0xf0 0xf0 b
    then some ((0x90, 0xbf) ∷ (0x80, 0xbf) ∷ (0x80, 0xbf) ∷ [])
    else if in_range 0xf1 0xf3 b
    then some ((0x80, 0xbf) ∷ (0x80, 0xbf) ∷ (0x80, 0xbf) ∷ [])
    else if in_range 0xf4 0xf4 b
    then some ((0x80, 0x8f) ∷ (0x80, 0xbf) ∷ (0x80, 0xbf) ∷ [])
    else none

scan : List (ℕ × ℕ) → List ℕ → Bool
unfolding in_range continuations
scan [] [] = true
scan ((lo, hi) ∷ wants) [] = false
scan ((lo, hi) ∷ wants) (b ∷ bs) = elim (in_range lo hi b) [ true ↦ scan wants bs | false ↦ false ]
scan [] (b ∷ bs) = elim (continuations b) [ none ↦ false | some wants ↦ scan wants bs ]

unfoldable pub is_utf8 : List ℕ → Bool
unfolding scan
is_utf8 bs = scan [] bs
