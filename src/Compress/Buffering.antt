-- ===== src/Compress/Buffering.antt =====
-- A codec that only buffers, for src/codec/mod.rs: its states satisfy what is asked of zstd.
use rstun.Base.{
  ℕ, ◌≡◌, refl, sym, ap, ◌∙◌, true, false, Option, some, List, [], ◌∷◌, ◌++◌, append-nil,
  append_assoc,
}
use rstun.Flow
use rstun.Compress.{Zstd, Round}
use rstun.Compress.Agree.{History, Lawful}
use rstun.Compress.Receiver.{Chunks}

-- Everything stays in the encoder until a flush: the data so far, and the part not put out.
abbrev pub buffering : Zstd
buffering = record {
  Encoder = List ℕ × List ℕ;
  Decoder = List ℕ;
  write = λ x e. some ([], (e.0 ++ x, e.1 ++ x));
  flush = λ e. some (e.1, (e.0, []));
  decode = λ b d. some (b, d ++ b);
}

abbrev pub history : History buffering
history = record {
  in_step = λ e d. e.0 ≡ d ++ e.1;
  encoded = λ e. e.0;
  pending = λ e. e.1;
  decoded = λ d. d;
}

flushed_empty :
    (e : List ℕ × List ℕ) (out : List ℕ) (e' : List ℕ × List ℕ)
    → ◌≡◌ {A = Option (List ℕ × (List ℕ × List ℕ))} (some (e.1, (e.0, []))) (some (out, e'))
    → e'.1 ≡ []
flushed_empty e out (a, p) h = cc

pub history-Lawful : Lawful history
history-Lawful = record {
  agree_lem = λ e d agrees. agrees;
  write_lem = λ x e d agrees. record {
    out = [];
    after = (e.0 ++ x, e.1 ++ x);
    got = [];
    decoder = d ++ [];
    produced = refl;
    reads = refl;
    keeps = refl;
    grows = refl;
    agrees =
        ap (λ l. l ++ x) agrees
        ∙ append_assoc d (e.1) x
        ∙ ap (λ l. l ++ (e.1 ++ x)) (sym (append-nil d));
  };
  flush_lem = λ e d agrees. record {
    out = e.1;
    after = (e.0, []);
    got = e.1;
    decoder = d ++ e.1;
    produced = refl;
    reads = refl;
    keeps = sym (append-nil (e.0));
    grows = refl;
    agrees = agrees ∙ sym (append-nil (d ++ e.1));
  };
  flush_pending = flushed_empty;
  decode_nil = λ d. ap (λ l. some ([], l)) (append-nil d);
  decode_append = λ a b d. ap (λ l. some (a ++ b, l)) (sym (append_assoc d a b));
}

-- Two bytes, a pause longer than the flush interval, a byte, and the end.
abbrev pub clean : List Round
clean =
    record { delay = 5; sleep_first = false; read = some (1 ∷ 2 ∷ []) }
    ∷ record { delay = 400; sleep_first = true; read = some (3 ∷ []) }
    ∷ record { delay = 250; sleep_first = true; read = some (3 ∷ []) }
    ∷ record { delay = 100; sleep_first = true; read = some (3 ∷ []) }
    ∷ record { delay = 0; sleep_first = true; read = some [] }
    ∷ []

abbrev pub three_bytes : Chunks
three_bytes = (1, 2 ∷ []) ∷ (3, []) ∷ []

abbrev pub room_for_three : Flow.Direction
room_for_three = record {
  writer = record { bytes = []; room = 3; accepts_end = true; ended = false };
  transfer_bytes = 0;
}
