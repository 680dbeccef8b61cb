-- ===== src/Compress/Agree.antt =====
-- What src/codec/mod.rs relies on of the zstd crate, and how an encoder and the decoder of the
-- other side go along step by step.
use rstun.Base.{
  ℕ, ◌≡◌, refl, sym, ap, subst, ◌∙◌, true, Option, none, some, List, [], ◌∷◌, ◌++◌, append-nil,
  append_assoc, length,
}
use rstun.Compress.{Zstd, Direction, Io, CodecStats, write_all, emit, put, drain}

-- Which decoders are in step with an encoder: those that were made as its counterpart and have been
-- fed its whole output and nothing else. Then the data written to an encoder since it was made, the
-- part of it that is not in its output yet, and the data that a decoder has given since it was made.
pub record History (z : Zstd) : Type 1 where
  pub in_step : z.Encoder → z.Decoder → Type 0
  pub encoded : z.Encoder → List ℕ
  pub pending : z.Encoder → List ℕ
  pub decoded : z.Decoder → List ℕ

abbrev pub Agree : {z : Zstd} → History z → z.Encoder → z.Decoder → Type 0
Agree h e d = h.in_step e d

-- A step `r` of an encoder `e` takes the data `x`, and `d` can read its output.
pub record Codes {z : Zstd} (h : History z) (e : z.Encoder) (d : z.Decoder) (x : List ℕ)
    (r : Option (List ℕ × z.Encoder)) : Type 0 where
  pub out : List ℕ
  pub after : z.Encoder
  pub got : List ℕ
  pub decoder : z.Decoder
  pub produced : r ≡ some (out, after)
  pub reads : z.decode out d ≡ some (got, decoder)
  pub keeps : h.encoded after ≡ h.encoded e ++ x
  pub grows : h.decoded decoder ≡ h.decoded d ++ got
  pub agrees : Agree h after decoder

abbrev pub prepend : {D : Type 0} → List ℕ → Option (List ℕ × D) → Option (List ℕ × D)
prepend x none = none
prepend x (some (y, d)) = some (x ++ y, d)

-- One input after another.
abbrev pub two_inputs :
    {D : Type 0} → Option (List ℕ × D) → (D → Option (List ℕ × D)) → Option (List ℕ × D)
two_inputs none next = none
two_inputs (some (x, d)) next = prepend x (next d)

-- A decoder in step with an encoder has given what the encoder has put out, reads the encoder's next
-- output and is in step again; a flush leaves nothing pending; a decoder gives the same for any
-- division of its input.
pub record Lawful {z : Zstd} (h : History z) : Type 0 where
  pub agree_lem :
      (e : z.Encoder) (d : z.Decoder) → Agree h e d → h.encoded e ≡ h.decoded d ++ h.pending e
  pub write_lem :
      (x : List ℕ) (e : z.Encoder) (d : z.Decoder) → Agree h e d → Codes h e d x (z.write x e)
  pub flush_lem : (e : z.Encoder) (d : z.Decoder) → Agree h e d → Codes h e d [] (z.flush e)
  pub flush_pending :
      (e : z.Encoder) (out : List ℕ) (e' : z.Encoder)
      → z.flush e ≡ some (out, e')
      → h.pending e' ≡ []
  pub decode_nil : (d : z.Decoder) → z.decode [] d ≡ some ([], d)
  pub decode_append :
      (a b : List ℕ) (d : z.Decoder) → z.decode (a ++ b) d ≡ two_inputs (z.decode a d) (z.decode b)

module _ {z : Zstd} (h : History z) (law : Lawful h) where
  -- From `s` to `s'` the encoder takes `x`, and `d` can read what is written meanwhile to a writer
  -- that does not fail.
  pub record Carries (d : z.Decoder) (x : List ℕ) (s s' : Direction z.Encoder) : Type 0 where
    pub out : List ℕ
    pub got : List ℕ
    pub decoder : z.Decoder
    pub wrote : s'.writer.bytes ≡ s.writer.bytes ++ out
    pub unlimited : s'.writer.limit ≡ none
    pub reads : z.decode out d ≡ some (got, decoder)
    pub keeps : h.encoded s'.codec ≡ h.encoded s.codec ++ x
    pub grows : h.decoded decoder ≡ h.decoded d ++ got
    pub agrees : Agree h s'.codec decoder

  pub Carries-refl :
      (d : z.Decoder) (s : Direction z.Encoder)
      → s.writer.limit ≡ none
      → Agree h s.codec d
      → Carries d [] s s
  Carries-refl d s unlimited agrees = record {
    out = [];
    got = [];
    decoder = d;
    wrote = sym (append-nil s.writer.bytes);
    unlimited = unlimited;
    reads = law.decode_nil d;
    keeps = sym (append-nil (h.encoded s.codec));
    grows = sym (append-nil (h.decoded d));
    agrees = agrees;
  }

  pub decode-two :
      (a b x y : List ℕ) (d d1 d2 : z.Decoder)
      → z.decode a d ≡ some (x, d1)
      → z.decode b d1 ≡ some (y, d2)
      → z.decode (a ++ b) d ≡ some (x ++ y, d2)
  decode-two a b x y d d1 d2 p q = rw (law.decode_append a b d, p, q) refl

  pub Carries-trans :
      {d : z.Decoder} {x y : List ℕ} {s t u : Direction z.Encoder} (c : Carries d x s t)
      → Carries c.decoder y t u
      → Carries d (x ++ y) s u
  Carries-trans {d} {x} {y} {s} {t} {u} c c' = record {
    out = c.out ++ c'.out;
    got = c.got ++ c'.got;
    decoder = c'.decoder;
    wrote = c'.wrote ∙ ap (λ l. l ++ c'.out) c.wrote ∙ append_assoc s.writer.bytes c.out c'.out;
    unlimited = c'.unlimited;
    reads = decode-two c.out c'.out c.got c'.got d c.decoder c'.decoder c.reads c'.reads;
    keeps = c'.keeps ∙ ap (λ l. l ++ y) c.keeps ∙ append_assoc (h.encoded s.codec) x y;
    grows = c'.grows ∙ ap (λ l. l ++ c'.got) c.grows ∙ append_assoc (h.decoded d) c.got c'.got;
    agrees = c'.agrees;
  }

  -- A step whose output is written to a writer that does not fail.
  pub record Steps (d : z.Decoder) (x : List ℕ) (s : Direction z.Encoder) (r : Io z.Encoder)
      : Type 0 where
    pub done : r.0 ≡ true
    pub carries : Carries d x s r.1

  -- The output reaches the writer, none of it included.
  emit-Steps :
      (count : ℕ → CodecStats → CodecStats) (d : z.Decoder) (x : List ℕ) (s : Direction z.Encoder)
      (out : List ℕ) (after : z.Encoder) (got : List ℕ) (decoder : z.Decoder)
      → s.writer.limit ≡ none
      → z.decode out d ≡ some (got, decoder)
      → h.encoded after ≡ h.encoded s.codec ++ x
      → h.decoded decoder ≡ h.decoded d ++ got
      → Agree h after decoder
      → Steps d x s (emit count out (record s { codec = after }))
  unfolding emit
  emit-Steps count d x s [] after got decoder unlimited reads keeps grows agrees = record {
    done = refl;
    carries = record {
      out = [];
      got = got;
      decoder = decoder;
      wrote = sym (append-nil s.writer.bytes);
      unlimited = unlimited;
      reads = reads;
      keeps = keeps;
      grows = grows;
      agrees = agrees;
    };
  }
  emit-Steps count d x s (b ∷ bs) after got decoder unlimited reads keeps grows agrees =
      subst
        (λ l. Steps d x s (
          put (record s { codec = after; stats = count (length (b ∷ bs)) s.stats })
            (write_all (b ∷ bs) s.writer l)))
        (sym unlimited)
        (record {
          done = refl;
          carries = record {
            out = b ∷ bs;
            got = got;
            decoder = decoder;
            wrote = refl;
            unlimited = unlimited;
            reads = reads;
            keeps = keeps;
            grows = grows;
            agrees = agrees;
          };
        })

  pub drain-Steps :
      (count : ℕ → CodecStats → CodecStats) (d : z.Decoder) (x : List ℕ) (s : Direction z.Encoder)
      (r : Option (List ℕ × z.Encoder))
      → s.writer.limit ≡ none
      → Codes h s.codec d x r
      → Steps d x s (drain count r s)
  unfolding drain
  drain-Steps count d x s r unlimited c =
      subst (λ r. Steps d x s (drain count r s)) (sym c.produced)
        (emit-Steps count d x s c.out c.after c.got c.decoder unlimited c.reads c.keeps c.grows
          c.agrees)
