-- ===== src/Compress/Receiver.antt =====
-- What `run_decoder` of src/codec/mod.rs writes, for any division of the compressed bytes, and
-- both sides of a stream together.
use rstun.Base.{
  ℕ, ◌≡◌, refl, sym, ap, subst, ◌∙◌, true, Option, none, some, List, [], ◌∷◌, ◌++◌, append-nil,
  append_assoc, length, arith,
}
use rstun.Http
use rstun.Codec.{clean_eof}
use rstun.Compress.{
  Zstd, Direction, CodecStats, returned, Ran, Io, put, write_all, emit, drain, count_decompressed,
  fetch_add, shut_down, decode_chunk, flush_decoder, run_decoder,
}
use rstun.Compress.Agree.{History, Lawful, prepend, two_inputs}
use rstun.Compress.Sender.{and_then-true}

-- A division of bytes into reads that are not empty.
abbrev pub Chunks : Type 0
Chunks = List (ℕ × List ℕ)

abbrev pub joined : Chunks → List ℕ
joined [] = []
joined ((b, bs) ∷ cs) = (b ∷ bs) ++ joined cs

-- The reads of a stream that brings the chunks and ends.
abbrev pub arriving : Chunks → List Http.Read
arriving [] = Http.bytes [] ∷ []
arriving ((b, bs) ∷ cs) = Http.bytes (b ∷ bs) ∷ arriving cs

-- A writer that does not fail takes the output.
pub record Wrote {C : Type 0} (got : List ℕ) (codec : C) (s : Direction C) (r : Io C) : Type 0 where
  pub done : r.0 ≡ true
  pub codec_after : r.1.codec ≡ codec
  pub bytes_after : r.1.writer.bytes ≡ s.writer.bytes ++ got
  pub unlimited : r.1.writer.limit ≡ none
  pub end_kept : r.1.writer.accepts_end ≡ s.writer.accepts_end

emit-Wrote :
    {C : Type 0} (count : ℕ → CodecStats → CodecStats) (got : List ℕ) (codec : C) (s : Direction C)
    → s.writer.limit ≡ none
    → Wrote got codec s (emit count got (record s { codec = codec }))
unfolding emit put write_all
emit-Wrote count [] codec s unlimited = record {
  done = refl;
  codec_after = refl;
  bytes_after = sym (append-nil s.writer.bytes);
  unlimited = unlimited;
  end_kept = refl;
}
emit-Wrote count (b ∷ bs) codec s unlimited =
    subst
      (λ l. Wrote (b ∷ bs) codec s (
        put (record s { codec = codec; stats = count (length (b ∷ bs)) s.stats })
          (write_all (b ∷ bs) s.writer l)))
      (sym unlimited)
      (record {
        done = refl;
        codec_after = refl;
        bytes_after = refl;
        unlimited = unlimited;
        end_kept = refl;
      })

drain-Wrote :
    {C : Type 0} (count : ℕ → CodecStats → CodecStats) (r : Option (List ℕ × C)) (got : List ℕ)
    (codec : C) (s : Direction C)
    → s.writer.limit ≡ none
    → r ≡ some (got, codec)
    → Wrote got codec s (drain count r s)
unfolding drain
drain-Wrote count r got codec s unlimited e =
    subst (λ r. Wrote got codec s (drain count r s)) (sym e)
      (emit-Wrote count got codec s unlimited)

-- An input read in two parts.
record Parts {D : Type 0} (ra : Option (List ℕ × D)) (rb : D → Option (List ℕ × D)) (got : List ℕ)
    (d' : D) : Type 0 where
  first : List ℕ
  second : List ℕ
  between : D
  reads_first : ra ≡ some (first, between)
  reads_second : rb between ≡ some (second, d')
  whole : got ≡ first ++ second

second_part :
    {D : Type 0} (x : List ℕ) (d1 : D) (rb : D → Option (List ℕ × D)) (r : Option (List ℕ × D))
    (got : List ℕ) (d' : D)
    → rb d1 ≡ r
    → prepend x r ≡ some (got, d')
    → Parts (some (x, d1)) rb got d'
second_part x d1 rb none got d' h e = cc
second_part x d1 rb (some (y, d2)) got d' h e = record {
  first = x;
  second = y;
  between = d1;
  reads_first = refl;
  reads_second = cc;
  whole = cc;
}

parts :
    {D : Type 0} (ra : Option (List ℕ × D)) (rb : D → Option (List ℕ × D)) (got : List ℕ) (d' : D)
    → two_inputs ra rb ≡ some (got, d')
    → Parts ra rb got d'
parts none rb got d' e = cc
parts (some (x, d1)) rb got d' e = second_part x d1 rb (rb d1) got d' refl e

module _ {z : Zstd} (h : History z) (law : Lawful h) where
  -- The decoder's loop read everything, and shut the writer down.
  pub record Received (got : List ℕ) (codec : z.Decoder) (s : Direction z.Decoder)
      (r : Ran z.Decoder) : Type 0 where
    pub progress : r.progress ≡ returned clean_eof
    pub codec_after : r.state.codec ≡ codec
    pub bytes_after : r.state.writer.bytes ≡ s.writer.bytes ++ got
    pub ended : r.state.writer.ended ≡ true

  shut_down-Received :
      (got : List ℕ) (codec : z.Decoder) (s : Direction z.Decoder) (r : Io z.Decoder)
      → s.writer.accepts_end ≡ true
      → Wrote got codec s r
      → Received got codec s (shut_down z r.1)
  unfolding shut_down
  shut_down-Received got codec s r accepts w =
      let e = w.end_kept ∙ accepts in
      record {
        progress = ground (arith, e);
        codec_after = ground (arith, e, w.codec_after);
        bytes_after = ground (arith, e, w.bytes_after);
        ended = ground (arith, e);
      }

  -- The first part of an input that can be read can be read.
  first_part :
      (a b got : List ℕ) (d d' : z.Decoder)
      → z.decode (a ++ b) d ≡ some (got, d')
      → Parts (z.decode a d) (z.decode b) got d'
  first_part a b got d d' e =
      parts (z.decode a d) (z.decode b) got d' (sym (law.decode_append a b d) ∙ e)

  decode_chunk-Wrote :
      (buf got : List ℕ) (codec : z.Decoder) (s : Direction z.Decoder)
      → s.writer.limit ≡ none
      → z.decode buf s.codec ≡ some (got, codec)
      → Wrote got codec s (decode_chunk z buf s)
  unfolding decode_chunk
  decode_chunk-Wrote buf got codec s unlimited e =
      let w =
        drain-Wrote count_decompressed (z.decode buf s.codec) got codec (counted s) unlimited e in
      record {
        done = w.done;
        codec_after = w.codec_after;
        bytes_after = w.bytes_after;
        unlimited = w.unlimited;
        end_kept = w.end_kept;
      }
    where
      counted : Direction z.Decoder → Direction z.Decoder
      counted s = record s {
        stats = record s.stats { down_compressed = fetch_add s.stats.down_compressed (length buf) };
      }

  pub run_decoder-Received :
      (cs : Chunks) (got : List ℕ) (codec : z.Decoder) (s : Direction z.Decoder)
      → s.writer.limit ≡ none
      → s.writer.accepts_end ≡ true
      → z.decode (joined cs) s.codec ≡ some (got, codec)
      → Received got codec s (run_decoder z (arriving cs) s)
  unfolding run_decoder flush_decoder
  run_decoder-Received [] got codec s unlimited accepts e =
      let w = drain-Wrote count_decompressed (z.decode [] s.codec) got codec s unlimited e in
      subst (Received got codec s) (sym (and_then-true (flush_decoder z s) (shut_down z) w.done))
        (shut_down-Received got codec s (flush_decoder z s) accepts w)
  run_decoder-Received ((b, bs) ∷ cs) got codec s unlimited accepts e =
      let p = first_part (b ∷ bs) (joined cs) got s.codec codec e in
      let w = decode_chunk-Wrote (b ∷ bs) p.first p.between s unlimited p.reads_first in
      let r = decode_chunk z (b ∷ bs) s in
      let f = run_decoder-Received cs p.second codec r.1 w.unlimited (w.end_kept ∙ accepts) (
        subst (λ c. z.decode (joined cs) c ≡ some (p.second, codec)) (sym w.codec_after)
          p.reads_second) in
      subst (Received got codec s) (sym (and_then-true r (run_decoder z (arriving cs)) w.done))
        (record {
          progress = f.progress;
          codec_after = f.codec_after;
          bytes_after =
              f.bytes_after
              ∙ ap (λ l. l ++ p.second) w.bytes_after
              ∙ append_assoc s.writer.bytes p.first p.second
              ∙ ap (◌++◌ s.writer.bytes) (sym p.whole);
          ended = f.ended;
        })
