-- ===== src/Compress/HttpMode.antt =====
-- `run_encoder` for HTTP, src/codec/mod.rs: its rounds end, and every message is sent at once.
use rstun.Base.{
  ℕ, zero, suc, ◌<◌, ◌≡◌, ◌≢◌, refl, sym, ap, subst, true, false, ◌∙◌, none, List, [], ◌∷◌, ◌++◌,
  append-nil, append_assoc, length, length-append, arith,
}
use rstun.Http.{
  Read, Httparse, HttpMessageReader, Reading, HttpError, message, bailed, waits, read_message,
}
use rstun.Http.Conserve.{all_bytes, Accounts, read_message-Accounts}
use rstun.Codec.{clean_eof, io_error}
use rstun.Compress.{
  Zstd, Direction, Progress, waiting, returned, out_of_fuel, Ran, ran, Io, send_message, then_flush,
  write_compressed, flush_encoder, count_raw, finish, after_message, run_http, run_decoder,
}
use rstun.Compress.Agree.{History, Agree, Lawful, Carries, Carries-refl, Carries-trans, Steps}
use rstun.Compress.Receiver.{joined, arriving, Chunks}
use rstun.Compress.Transparent.{Carries-Passes}
use rstun.Compress.Sender.{
  and_then-true, recount, write_compressed-Steps, flush_encoder-Steps, flush_encoder-pending,
}

-- The messages of one reading after another, until an empty one, an error or a wait, one after the
-- other, and how the loop ends.
pub data Messages (p : Httparse) : Reading → List ℕ → Progress → Type 0 where
  ends :
      {r : HttpMessageReader} {reads : List Read}
      → Messages p (message [] r reads) [] (returned clean_eof)
  fails :
      {e : HttpError} {r : HttpMessageReader} {reads : List Read}
      → Messages p (bailed e r reads) [] (returned io_error)
  pauses : {r : HttpMessageReader} → Messages p (waits r) [] waiting
  goes_on :
      {b : ℕ} {bs sent : List ℕ} {r : HttpMessageReader} {reads : List Read} {progress : Progress}
      → Messages p (read_message p r reads) sent progress
      → Messages p (message (b ∷ bs) r reads) (b ∷ bs ++ sent) progress

module _ {z : Zstd} (h : History z) (law : Lawful h) (p : Httparse) where
  -- The loop sent `sent`, the messages from the reading `m` on; nothing of it is pending, and `input`
  -- goes on after it; it did not run out of fuel.
  pub record Sends (m : Reading) (d : z.Decoder) (s : Direction z.Encoder) (input : List ℕ)
      (r : Ran z.Encoder) : Type 0 where
    pub sent : List ℕ
    pub messages : Messages p m sent r.progress
    pub rest : List ℕ
    pub carries : Carries h law d sent s r.state
    pub prefix : input ≡ sent ++ rest
    pub nothing_pending : h.pending r.state.codec ≡ []
    pub stops : r.progress ≢ out_of_fuel

  stays :
      (m : Reading) (d : z.Decoder) (s : Direction z.Encoder) (input : List ℕ) (progress : Progress)
      → Messages p m [] progress
      → s.writer.limit ≡ none
      → Agree h s.codec d
      → h.pending s.codec ≡ []
      → progress ≢ out_of_fuel
      → Sends m d s input (ran progress s)
  stays m d s input progress messages free agrees idle stops = record {
    sent = [];
    messages = messages;
    rest = input;
    carries = Carries-refl h law d s free agrees;
    prefix = refl;
    nothing_pending = idle;
    stops = stops;
  }

  finish-Sends :
      (r : HttpMessageReader) (reads : List Read) (d : z.Decoder) (s : Direction z.Encoder)
      (input : List ℕ)
      → s.writer.limit ≡ none
      → Agree h s.codec d
      → Sends (message [] r reads) d s input (finish z s)
  unfolding finish
  finish-Sends r reads d s input free agrees =
      let st = flush_encoder-Steps h law d s free agrees in
      subst (Sends (message [] r reads) d s input)
        (sym (and_then-true (flush_encoder z s) (ran (returned clean_eof)) st.done))
        (record {
          sent = [];
          messages = ends;
          rest = input;
          carries = st.carries;
          prefix = refl;
          nothing_pending = flush_encoder-pending h law d s agrees;
          stops = λ e. cc;
        })

  flushed-Steps :
      (msg : List ℕ) (d : z.Decoder) (s : Direction z.Encoder) (r : Io z.Encoder)
      → Steps h law d msg (count_raw z msg s) r
      → Steps h law d msg s (then_flush z r) × (h.pending (then_flush z r).1.codec ≡ [])
  unfolding then_flush
  flushed-Steps msg d s (false, t) st = absurd (cc (st.done))
  flushed-Steps msg d s (true, t) st =
      let c = st.carries in
      let fl = flush_encoder-Steps h law c.decoder t c.unlimited c.agrees in
      (
        record {
          done = fl.done;
          carries = recount h law msg s (
              subst (λ l. Carries h law d l (count_raw z msg s) (flush_encoder z t).1)
                (append-nil msg) (Carries-trans h law c fl.carries));
        },
        flush_encoder-pending h law c.decoder t c.agrees,
      )

  send_message-Steps :
      (msg : List ℕ) (d : z.Decoder) (s : Direction z.Encoder)
      → s.writer.limit ≡ none
      → Agree h s.codec d
      → Steps h law d msg s (send_message z msg s) × (h.pending (send_message z msg s).1.codec ≡ [])
  unfolding send_message
  send_message-Steps msg d s free agrees =
      flushed-Steps msg d s (write_compressed z msg (count_raw z msg s))
        (write_compressed-Steps h law msg d (count_raw z msg s) free agrees)

  after_message-Sends :
      (m : Reading) (d : z.Decoder) (s : Direction z.Encoder) (input : List ℕ)
      (rest : HttpMessageReader → List Read → Direction z.Encoder → Ran z.Encoder)
      → s.writer.limit ≡ none
      → Agree h s.codec d
      → h.pending s.codec ≡ []
      → Accounts input m
      → ((r : HttpMessageReader) (reads : List Read) (d' : z.Decoder) (t : Direction z.Encoder)
          → length (r.buf ++ all_bytes reads) < length input
          → t.writer.limit ≡ none
          → Agree h t.codec d'
          → h.pending t.codec ≡ []
          → Sends (read_message p r reads) d' t (r.buf ++ all_bytes reads) (rest r reads t))
      → Sends m d s input (after_message z m s rest)
  unfolding after_message
  after_message-Sends (message [] r reads) d s input rest free agrees idle acc ih =
      finish-Sends r reads d s input free agrees
  after_message-Sends (message (b ∷ bs) r reads) d s input rest free agrees idle acc ih =
      let (st, flushed) = send_message-Steps (b ∷ bs) d s free agrees in
      let t = (send_message z (b ∷ bs) s).1 in
      let f =
        ih r reads st.carries.decoder t
          (rw acc (omega (arith, length-append (b ∷ bs) (r.buf ++ all_bytes reads))))
          st.carries.unlimited st.carries.agrees flushed in
      subst (Sends (message (b ∷ bs) r reads) d s input)
        (sym (and_then-true (send_message z (b ∷ bs) s) (rest r reads) st.done))
        (record {
          sent = (b ∷ bs) ++ f.sent;
          messages = goes_on f.messages;
          rest = f.rest;
          carries = Carries-trans h law st.carries f.carries;
          prefix = acc ∙ ap (◌++◌ (b ∷ bs)) f.prefix ∙ sym (append_assoc (b ∷ bs) f.sent f.rest);
          nothing_pending = f.nothing_pending;
          stops = f.stops;
        })
  after_message-Sends (bailed e r reads) d s input rest free agrees idle acc ih =
      stays (bailed e r reads) d s input (returned io_error) fails free agrees idle (λ e. cc)
  after_message-Sends (waits r) d s input rest free agrees idle acc ih =
      stays (waits r) d s input waiting pauses free agrees idle (λ e. cc)

  run_http-Sends :
      (fuel : ℕ) (r : HttpMessageReader) (reads : List Read) (d : z.Decoder)
      (s : Direction z.Encoder)
      → length (r.buf ++ all_bytes reads) < fuel
      → s.writer.limit ≡ none
      → Agree h s.codec d
      → h.pending s.codec ≡ []
      → Sends (read_message p r reads) d s (r.buf ++ all_bytes reads) (run_http z p fuel r reads s)
  unfolding run_http
  run_http-Sends zero r reads d s enough free agrees idle = absurd (omega arith)
  run_http-Sends (suc fuel) r reads d s enough free agrees idle =
      after_message-Sends (read_message p r reads) d s (r.buf ++ all_bytes reads)
        (run_http z p fuel) free agrees idle (read_message-Accounts p r reads)
        (λ r' reads' d' t shorter free' agrees' idle'.
          run_http-Sends fuel r' reads' d' t (omega (arith, enough, shorter)) free' agrees' idle')

  -- What the other side has written when the loop waits or has ended.
  pub record Delivers (m : Reading) (input : List ℕ) (q : Direction z.Decoder) (a : Ran z.Encoder)
      (b : Ran z.Decoder) : Type 0 where
    pub sent : List ℕ
    pub messages : Messages p m sent a.progress
    pub rest : List ℕ
    pub stops : a.progress ≢ out_of_fuel
    pub written : b.state.writer.bytes ≡ q.writer.bytes ++ sent
    pub prefix : input ≡ sent ++ rest
    pub in_step : Agree h a.state.codec b.state.codec
    pub nothing_pending : h.pending a.state.codec ≡ []

  -- In HTTP mode, whatever httparse says and however the input comes, with fuel for more rounds than
  -- there are bytes, both sides of the pair in step with nothing pending and writers that do not
  -- fail: the loop reads messages until an empty one, which ends it clean, an error, which ends
  -- it by an I/O error, or a wait for input. The other side has then written those messages, whole
  -- and in order, a prefix of the input, with nothing of them held back in the encoder, and the pair
  -- is in step again.
  pub run_http-Delivers :
      (fuel : ℕ) (r : HttpMessageReader) (reads : List Read) (s : Direction z.Encoder)
      (q : Direction z.Decoder) (cs : Chunks)
      → length (r.buf ++ all_bytes reads) < fuel
      → s.writer.limit ≡ none
      → Agree h s.codec q.codec
      → h.pending s.codec ≡ []
      → q.writer.limit ≡ none
      → q.writer.accepts_end ≡ true
      → (run_http z p fuel r reads s).state.writer.bytes ≡ s.writer.bytes ++ joined cs
      → Delivers
          (read_message p r reads)
          (r.buf ++ all_bytes reads)
          q
          (run_http z p fuel r reads s)
          (run_decoder z (arriving cs) q)
  run_http-Delivers fuel r reads s q cs enough free agrees idle qfree accepts out =
      let a = run_http z p fuel r reads s in
      let f = run_http-Sends fuel r reads q.codec s enough free agrees idle in
      let g = Carries-Passes h law f.sent s a.state q cs agrees qfree accepts f.carries out in
      record {
        sent = f.sent;
        messages = f.messages;
        rest = f.rest;
        stops = f.stops;
        written =
            g.delivered
            ∙ ap (◌++◌ q.writer.bytes) (
                sym (append-nil g.got)
                ∙ ap (◌++◌ g.got) (sym f.nothing_pending)
                ∙ g.whole
                ∙ ap (λ l. l ++ f.sent) idle);
        prefix = f.prefix;
        in_step = g.in_step;
        nothing_pending = f.nothing_pending;
      }
