-- ===== src/Compress/Transparent.antt =====
-- Both sides of a compressed stream together, src/codec/mod.rs: what the encoder of one side sends,
-- the decoder of the other side passes on.
use rstun.Base.{
  ℕ, ◌≤◌, ◌≡◌, refl, sym, ap, subst, ◌∙◌, ◌⊎◌, inl, inr, Bool, true, false, none, some, List, [],
  ◌∷◌, ◌++◌, append-nil, append_assoc, Result, ok, err, length, take_all,
}
use mathlib.Core.List.{append_cancel_left}
use rstun.Io.{ReadError, timed_out}
use rstun.Io
use rstun.Flow
use rstun.Flow.Copy.{arrived, ends, copy_loop-Forwards}
use rstun.Codec.{clean_eof}
use rstun.Compress.{Zstd, Direction, returned, Ran, Round, run_basic, run_decoder}
use rstun.Compress.Agree.{History, Agree, Lawful, Carries}
use rstun.Compress.Sender.{reads_of, progress_of, run_basic-Sends}
use rstun.Compress.Receiver.{Chunks, joined, arriving, run_decoder-Received}

pub ends-progress_of :
    (reads : List (Result ReadError (List ℕ)))
    → ends reads ≡ true
    → progress_of reads ≡ returned clean_eof
unfolding ends progress_of
ends-progress_of [] e = cc
ends-progress_of (err timed_out ∷ reads) e = cc
ends-progress_of (err Io.failed ∷ reads) e = cc
ends-progress_of (ok [] ∷ reads) e = refl
ends-progress_of (ok (b ∷ bs) ∷ reads) e = ends-progress_of reads e

pub nothing_left : (t : Bool) (l : List ℕ) → t ≡ true → (t ≡ false) ⊎ (l ≡ []) → l ≡ []
nothing_left t l e (inl f) = cc
nothing_left t l e (inr f) = f

module _ {z : Zstd} (h : History z) (law : Lawful h) where
  -- What passes through both codecs: the bytes `got`, of what was pending and the data `x`.
  pub record Passes (x : List ℕ) (s s' : Direction z.Encoder) (q : Direction z.Decoder)
      (r : Ran z.Decoder) : Type 0 where
    pub got : List ℕ
    pub delivered : r.state.writer.bytes ≡ q.writer.bytes ++ got
    pub whole : got ++ h.pending s'.codec ≡ h.pending s.codec ++ x
    pub progress : r.progress ≡ returned clean_eof
    pub ended : r.state.writer.ended ≡ true
    pub in_step : Agree h s'.codec r.state.codec

  pub Carries-Passes :
      (x : List ℕ) (s s' : Direction z.Encoder) (q : Direction z.Decoder) (cs : Chunks)
      → Agree h s.codec q.codec
      → q.writer.limit ≡ none
      → q.writer.accepts_end ≡ true
      → Carries h law q.codec x s s'
      → s'.writer.bytes ≡ s.writer.bytes ++ joined cs
      → Passes x s s' q (run_decoder z (arriving cs) q)
  Carries-Passes x s s' q cs agrees unlimited accepts c e =
      let same = append_cancel_left s.writer.bytes c.out (joined cs) (sym c.wrote ∙ e) in
      let r =
        run_decoder-Received h law cs c.got c.decoder q unlimited accepts
          (subst (λ l. z.decode l q.codec ≡ some (c.got, c.decoder)) same c.reads) in
      record {
        got = c.got;
        delivered = r.bytes_after;
        whole =
            append_cancel_left (h.decoded q.codec) (c.got ++ h.pending s'.codec)
              (h.pending s.codec ++ x)
              (sym (append_assoc (h.decoded q.codec) c.got (h.pending s'.codec))
                ∙ ap (λ l. l ++ h.pending s'.codec) (sym c.grows)
                ∙ sym (law.agree_lem s'.codec c.decoder c.agrees)
                ∙ c.keeps
                ∙ ap (λ l. l ++ x) (law.agree_lem s.codec q.codec agrees)
                ∙ append_assoc (h.decoded q.codec) (h.pending s.codec) x);
        progress = r.progress;
        ended = r.ended;
        in_step = subst (λ d. Agree h s'.codec d) (sym r.codec_after) c.agrees;
      }

  -- Both tasks end clean, the bytes are those of the loop without a codec, and the pair can serve
  -- the next stream.
  pub record Transparent (a : Ran z.Encoder) (b : Ran z.Decoder) (u : Flow.Flow) : Type 0 where
    pub sender_ends : a.progress ≡ returned clean_eof
    pub receiver_ends : b.progress ≡ returned clean_eof
    pub same_bytes : b.state.writer.bytes ≡ u.direction.writer.bytes
    pub end_passed_on : b.state.writer.ended ≡ true
    pub nothing_pending : h.pending a.state.codec ≡ []
    pub in_step : Agree h a.state.codec b.state.codec

  -- A compressed stream against one without a codec: when both sides of the pair are in step with
  -- nothing pending, as after a handshake, the sender's stream ends by end of file, neither writer fails
  -- and the compressed bytes arrive in any division, both tasks end clean; the receiver has
  -- written exactly what `copy_loop` writes for the same reads to a writer with the room, and has
  -- shut its writer down; and the pair is in step again with nothing pending.
  pub run_decoder-run_encoder :
      (stream_timeout flush_interval : ℕ) (rounds : List Round) (s : Direction z.Encoder)
      (q : Direction z.Decoder) (cs : Chunks) (u : Flow.Direction)
      → s.writer.limit ≡ none
      → Agree h s.codec q.codec
      → h.pending s.codec ≡ []
      → q.writer.limit ≡ none
      → q.writer.accepts_end ≡ true
      → ends (reads_of stream_timeout flush_interval rounds) ≡ true
      → (run_basic z stream_timeout flush_interval rounds s).state.writer.bytes
        ≡ s.writer.bytes ++ joined cs
      → u.writer.bytes ≡ q.writer.bytes
      → length (arrived (reads_of stream_timeout flush_interval rounds)) ≤ u.writer.room
      → Transparent
          (run_basic z stream_timeout flush_interval rounds s)
          (run_decoder z (arriving cs) q)
          (Flow.copy_loop Flow.stream_to_quic (reads_of stream_timeout flush_interval rounds) u)
  run_decoder-run_encoder stream_timeout flush_interval rounds s q cs u free agrees idle qfree
        accepts ended sent start room =
      let reads = reads_of stream_timeout flush_interval rounds in
      let a = run_basic z stream_timeout flush_interval rounds s in
      let f = run_basic-Sends h law stream_timeout flush_interval rounds q.codec s free agrees in
      let p = Carries-Passes (arrived reads) s a.state q cs agrees qfree accepts f.carries sent in
      let flushed = nothing_left (ends reads) (h.pending a.state.codec) ended f.flushed in
      let all =
        sym (append-nil p.got)
        ∙ ap (◌++◌ p.got) (sym flushed)
        ∙ p.whole
        ∙ ap (λ l. l ++ arrived reads) idle in
      record {
        sender_ends = f.progress ∙ ends-progress_of reads ended;
        receiver_ends = p.progress;
        same_bytes =
            p.delivered
            ∙ ap (◌++◌ q.writer.bytes) all
            ∙ ap (λ l. l ++ arrived reads) (sym start)
            ∙ ap (◌++◌ u.writer.bytes) (sym (take_all u.writer.room (arrived reads) room))
            ∙ sym ((copy_loop-Forwards reads u).0.in_order);
        end_passed_on = p.ended;
        nothing_pending = flushed;
        in_step = p.in_step;
      }
