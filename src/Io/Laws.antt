-- ===== src/Io/Laws.antt =====
-- What `read_exact` does with enough bytes, and what a success and a failure tell.
use rstun.Base.{
  ℕ, ◌≡◌, List, ◌++◌, length, take-append_length, drop-append_length, take-append-drop, length-take,
  length-append, leb, ok, arith, Bool-cases, inl, inr, le→leb,
}
use rstun.Io.{Reader, End, read_exact}

pub read_exact-append :
    (xs ys : List ℕ) (e : End)
    → read_exact (length xs) (record { bytes = xs ++ ys; after = e })
      ≡ ok (xs, record { bytes = ys; after = e })
unfolding read_exact
read_exact-append xs ys e =
    rw (le→leb (length xs) (length (xs ++ ys)) (omega (arith, length-append xs ys)))
      (rw (take-append_length xs ys, drop-append_length xs ys))

-- A success splits the bytes in two, and leaves the end of the stream.
pub record ReadExact (n : ℕ) (r : Reader) (xs : List ℕ) (r' : Reader) : Type 0 where
  pub split : r.bytes ≡ xs ++ r'.bytes
  pub width : length xs ≡ n
  pub same_end : r'.after ≡ r.after

pub read_exact-ReadExact :
    (n : ℕ) (r : Reader) {xs : List ℕ} {r' : Reader}
    → read_exact n r ≡ ok (xs, r')
    → ReadExact n r xs r'
unfolding read_exact
read_exact-ReadExact n r h = elim (Bool-cases (leb n (length r.bytes))) [
  | inl enough ↦ record {
    split = ground (arith, take-append-drop n r.bytes);
    width = ground (arith, length-take n r.bytes);
    same_end = ground arith;
  }
  | inr short ↦ ground arith
]
