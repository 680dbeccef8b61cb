-- ===== src/Config/Words.antt =====
-- What the configuration of src/lib.rs uses of `str`: `split`, `trim`, `contains`, `parse::<u16>`.
-- A text is its UTF-8 bytes, and `trim` takes off the characters of Unicode's White_Space.
use rstun.Base.{
  ℕ, ◌+◌, ◌*◌, ◌-◌, ◌≡◌, refl, Bool, true, false, ◌&&◌, ◌||◌, Option, none, some, List, [], ◌∷◌,
  ◌++◌, ◌==◌, leb, ltb, if◌then◌else◌, All, ap, arith, ==_refl, ◌∙◌,
}
use mathlib.Core.List.{reverse}
use rstun.Net.{Text}

-- `first` goes before the first piece.
unfoldable pub extend : ℕ → List Text → List Text
extend c [] = (c ∷ []) ∷ []
extend c (piece ∷ pieces) = (c ∷ piece) ∷ pieces

-- `str::split(char)`: a text without the character is one piece.
unfoldable pub split : ℕ → Text → List Text
unfolding extend
split sep [] = [] ∷ []
split sep (c ∷ cs) = let rest = split sep cs in if c == sep then [] ∷ rest else extend c rest

-- `str::contains(char)`.
unfoldable pub contains : ℕ → Text → Bool
contains c [] = false
contains c (d ∷ ds) = d == c || contains c ds

abbrev is_space : ℕ → Bool
is_space c = c == 32 || (leb 9 c && leb c 13)

-- White space of two bytes: U+0085, U+00A0.
abbrev is_space_2 : ℕ → ℕ → Bool
is_space_2 c d = c == 194 && (d == 133 || d == 160)

-- Of three: U+1680, U+2000 to U+200A, U+2028, U+2029, U+202F, U+205F, U+3000.
abbrev is_space_3 : ℕ → ℕ → ℕ → Bool
is_space_3 c d e =
    (c == 225 && d == 154 && e == 128)
    || (c == 226
        && ((d == 128 && (leb 128 e && leb e 138 || leb 168 e && leb e 169 || e == 175))
            || (d == 129 && e == 159)))
    || (c == 227 && d == 128 && e == 128)

unfoldable pub trim_start : Text → Text
trim_start [] = []
trim_start (c ∷ []) = if is_space c then [] else c ∷ []
trim_start (c ∷ d ∷ []) =
    let rest = trim_start (d ∷ []) in
    if is_space c then rest else if is_space_2 c d then [] else c ∷ d ∷ []
trim_start (c ∷ d ∷ e ∷ cs) =
    let by_one = trim_start (d ∷ e ∷ cs) in
    let by_two = trim_start (e ∷ cs) in
    let by_three = trim_start cs in
    if is_space c
    then by_one
    else if is_space_2 c d
    then by_two
    else if is_space_3 c d e
    then by_three
    else c ∷ d ∷ e ∷ cs

-- The same over the bytes from the last to the first.
trim_reversed : Text → Text
trim_reversed [] = []
trim_reversed (c ∷ []) = if is_space c then [] else c ∷ []
trim_reversed (d ∷ c ∷ []) =
    let rest = trim_reversed (c ∷ []) in
    if is_space d then rest else if is_space_2 c d then [] else d ∷ c ∷ []
trim_reversed (e ∷ d ∷ c ∷ cs) =
    let by_one = trim_reversed (d ∷ c ∷ cs) in
    let by_two = trim_reversed (c ∷ cs) in
    let by_three = trim_reversed cs in
    if is_space e
    then by_one
    else if is_space_2 d e
    then by_two
    else if is_space_3 c d e
    then by_three
    else e ∷ d ∷ c ∷ cs

unfoldable pub trim_end : Text → Text
unfolding trim_reversed
trim_end cs = reverse (trim_reversed (reverse cs))

unfoldable pub trim : Text → Text
trim cs = trim_end (trim_start cs)

-- The digits of a number below `limit`; `none` at another character or an overflow.
unfoldable pub parse_digits : ℕ → ℕ → Text → Option ℕ
parse_digits limit n [] = some n
parse_digits limit n (c ∷ cs) =
    let more = parse_digits limit (10 * n + (c - 48)) cs in
    if leb 48 c && leb c 57 && ltb (10 * n + (c - 48)) limit then more else none

-- `str::parse` for an unsigned number: a sign `+` may stand before the digits.
unfoldable pub parse_number : ℕ → Text → Option ℕ
parse_number limit [] = none
parse_number limit (c ∷ []) = parse_digits limit 0 (c ∷ [])
parse_number limit (c ∷ d ∷ ds) =
    if c == 43 then parse_digits limit 0 (d ∷ ds) else parse_digits limit 0 (c ∷ d ∷ ds)

abbrev pub parse_u16 : Text → Option ℕ
parse_u16 word = parse_number 65536 word

unfoldable pub text_eq : Text → Text → Bool
text_eq [] [] = true
text_eq [] (d ∷ ds) = false
text_eq (c ∷ cs) [] = false
text_eq (c ∷ cs) (d ∷ ds) = c == d && text_eq cs ds

-- The pieces with the separator between them.
unfoldable pub join : ℕ → Text → List Text → Text
join sep piece [] = piece
join sep piece (next ∷ pieces) = piece ++ sep ∷ join sep next pieces

split-piece :
    (sep : ℕ) (piece rest : Text)
    → contains sep piece ≡ false
    → split sep (piece ++ sep ∷ rest) ≡ piece ∷ split sep rest
unfolding split extend contains
split-piece sep [] rest h = ground (arith, ==_refl sep)
split-piece sep (c ∷ cs) rest h = ground (arith, split-piece sep cs rest, h)

split-last : (sep : ℕ) (piece : Text) → contains sep piece ≡ false → split sep piece ≡ piece ∷ []
unfolding split extend contains
split-last sep [] h = refl
split-last sep (c ∷ cs) h = ground (arith, split-last sep cs, h)

pub split-join :
    (sep : ℕ) (piece : Text) (pieces : List Text)
    → contains sep piece ≡ false
    → All (λ p. contains sep p ≡ false) pieces
    → split sep (join sep piece pieces) ≡ piece ∷ pieces
unfolding join
split-join sep piece [] h hs = split-last sep piece h
split-join sep piece (next ∷ pieces) h hs =
    split-piece sep piece (join sep next pieces) h
    ∙ ap (λ l. piece ∷ l) (split-join sep next pieces hs.0 hs.1)
