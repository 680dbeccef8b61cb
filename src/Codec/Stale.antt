-- ===== src/Codec/Stale.antt =====
-- After a miss, src/codec/handshake.rs resets the encoder of the sender's pair and leaves its
-- decoder, which a later stream meets again.
use rstun.Base.{ℕ, ◌≡◌, false, List, [], ◌∷◌, ◌++◌, ok}
use rstun.Codec.{histories, CodecPair, new_pair, Cache, HandshakeResult, clean_eof, end_task, side}

abbrev pair : List ℕ → List ℕ → CodecPair histories
pair encoded decoded = record { encoder = encoded; decoder = decoded; errored = false }

-- Side A holds a pair that side B has lost; neither has another.
abbrev pub holds : ℕ → List ℕ → List ℕ → Cache histories
holds id encoded decoded = (id, pair encoded decoded) ∷ []

abbrev lost : Cache histories
lost = []

-- The table of a side after a stream that sent `out` and received `got`, both tasks ending clean and
-- the receiving one last.
abbrev ended : HandshakeResult histories → List ℕ → List ℕ → Cache histories → Cache histories
ended r out got c =
    end_task clean_eof r.q2s_id (record r.q2s_pair { decoder = r.q2s_pair.decoder ++ got })
      (end_task clean_eof r.s2q_id (record r.s2q_pair { encoder = r.s2q_pair.encoder ++ out }) c)

-- Two streams one after the other: A sends `sent` over the first, B sends `back`. `fresh` is B's new
-- id at the first, the others are not used.
pub record Stale (id fresh fresh_a fresh_a2 fresh_b2 : ℕ) (encoded decoded sent back : List ℕ)
    : Type 0 where
  pub ra : HandshakeResult histories
  pub rb : HandshakeResult histories
  pub ra2 : HandshakeResult histories
  pub rb2 : HandshakeResult histories
  pub first_a : side fresh_a (holds id encoded decoded) fresh lost ≡ (ok ra, [])
  pub first_b : side fresh lost fresh_a (holds id encoded decoded) ≡ (ok rb, [])
  pub in_step : ra.s2q_pair.encoder ≡ rb.q2s_pair.decoder
  pub in_step_back : rb.s2q_pair.encoder ≡ ra.q2s_pair.decoder
  pub second_a :
      side fresh_a2 (ended ra sent back []) fresh_b2 (ended rb back sent []) ≡ (ok ra2, [])
  pub second_b :
      side fresh_b2 (ended rb back sent []) fresh_a2 (ended ra sent back []) ≡ (ok rb2, [])
  pub reused : rb2.s2q_id ≡ id
  pub accepted : ra2.q2s_ack ≡ id
  pub new_encoder : rb2.s2q_pair.encoder ≡ []
  pub stale_decoder : ra2.q2s_pair.decoder ≡ decoded

abbrev missed_a : ℕ → ℕ → List ℕ → HandshakeResult histories
missed_a id fresh decoded = record {
  s2q_pair = pair [] decoded;
  q2s_pair = new_pair;
  s2q_id = id;
  s2q_ack = 0;
  q2s_id = fresh;
  q2s_ack = 0;
}

abbrev missed_b : ℕ → ℕ → HandshakeResult histories
missed_b id fresh = record {
  s2q_pair = new_pair;
  q2s_pair = new_pair;
  s2q_id = fresh;
  s2q_ack = 0;
  q2s_id = id;
  q2s_ack = 0;
}

abbrev found_a : ℕ → ℕ → List ℕ → List ℕ → List ℕ → HandshakeResult histories
found_a id fresh decoded sent back = record {
  s2q_pair = pair [] back;
  q2s_pair = pair sent decoded;
  s2q_id = fresh;
  s2q_ack = fresh;
  q2s_id = id;
  q2s_ack = id;
}

abbrev found_b : ℕ → ℕ → List ℕ → List ℕ → HandshakeResult histories
found_b id fresh sent back = record {
  s2q_pair = pair [] sent;
  q2s_pair = pair back [];
  s2q_id = id;
  s2q_ack = id;
  q2s_id = fresh;
  q2s_ack = fresh;
}
