-- ===== src/Codec.antt =====
-- The codec pairs of src/codec/lru.rs and the handshake of src/codec/handshake.rs. zstd is a
-- parameter: the states of encoders and decoders, and the new ones.
pub mod Sync
pub mod Stale
mod Examples
use rstun.Base.{
  ℕ, ◌+◌, ◌≡◌, refl, Bool, true, false, not, ◌&&◌, ◌||◌, Option, none, some, List, [], ◌∷◌, ◌++◌,
  if◌then◌else◌, Result, ok, err, ◌==◌,
}

-- The states of zstd, opaque.
pub record Codecs : Type 1 where
  pub Encoder : Type 0
  pub Decoder : Type 0
  pub new_encoder : Encoder
  pub new_decoder : Decoder

-- Codecs as the data that they have encoded or decoded since they were made.
abbrev pub histories : Codecs
histories = record { Encoder = List ℕ; Decoder = List ℕ; new_encoder = []; new_decoder = [] }

pub record CodecPair (k : Codecs) : Type 0 where
  pub encoder : k.Encoder
  pub decoder : k.Decoder
  pub errored : Bool

pub data LookupResult (k : Codecs) : Type 0 where
  hit miss : ℕ → CodecPair k → LookupResult k

-- What a side has after the handshake.
pub record HandshakeResult (k : Codecs) : Type 0 where
  pub s2q_pair : CodecPair k
  pub q2s_pair : CodecPair k
  pub s2q_id : ℕ
  pub s2q_ack : ℕ
  pub q2s_id : ℕ
  pub q2s_ack : ℕ

pub data HandshakeError : Type 0 where
  id_not_exchanged ack_not_exchanged : HandshakeError

-- How a direction of a stream ends, `StreamOutcome` or an error.
pub data StreamOutcome : Type 0 where
  clean_eof io_error timeout failed : StreamOutcome

-- `Cache<u128, Arc<CodecPair>>`, in the order of its iteration.
abbrev pub Cache : Codecs → Type 0
Cache k = List (ℕ × CodecPair k)

module _ {k : Codecs} where
  -- `CodecPair::new`.
  abbrev pub new_pair : CodecPair k
  new_pair = record { encoder = k.new_encoder; decoder = k.new_decoder; errored = false }

  abbrev pub mark_errored : CodecPair k → CodecPair k
  mark_errored p = record p { errored = true }

  abbrev pub reset_encoder : CodecPair k → CodecPair k
  reset_encoder p = record p { encoder = k.new_encoder }

  abbrev pub reset_decoder : CodecPair k → CodecPair k
  reset_decoder p = record p { decoder = k.new_decoder }

  unfoldable pub get : ℕ → Cache k → Option (CodecPair k)
  get id [] = none
  get id ((i, p) ∷ c) = if i == id then some p else get id c

  unfoldable pub remove : ℕ → Cache k → Cache k
  remove id [] = []
  remove id ((i, p) ∷ c) = let rest = remove id c in if i == id then rest else (i, p) ∷ rest

  unfoldable pub insert : ℕ → CodecPair k → Cache k → Cache k
  insert id p c = (id, p) ∷ remove id c

  -- The first healthy pair of the iteration.
  unfoldable pub first_healthy : Cache k → Option (ℕ × CodecPair k)
  first_healthy [] = none
  first_healthy ((i, p) ∷ c) = if p.errored then first_healthy c else some (i, p)

  checked_out : Option (ℕ × CodecPair k) → ℕ → Cache k → (ℕ × CodecPair k) × Cache k
  checked_out (some (i, p)) fresh_id c = ((i, p), remove i c)
  checked_out none fresh_id c = ((fresh_id, new_pair), c)

  -- `CodecLru::checkout`, with the id that `rand_id` gives.
  unfoldable pub checkout : ℕ → Cache k → (ℕ × CodecPair k) × Cache k
  unfolding checked_out
  checkout fresh_id c = checked_out (first_healthy c) fresh_id c

  looked_up : Option (CodecPair k) → ℕ → LookupResult k
  looked_up none id = miss id new_pair
  looked_up (some p) id = if p.errored then miss id new_pair else hit id p

  unfoldable pub lookup : ℕ → Cache k → LookupResult k × Cache k
  unfolding looked_up
  lookup id c = if id == 0 then (miss id new_pair, c) else (looked_up (get id c) id, remove id c)

  unfoldable pub checkin : ℕ → CodecPair k → Cache k → Cache k
  checkin id p c = if id == 0 || p.errored then c else insert id p c

  -- The third phase: the pair for the peer's direction, and the ack.
  answer_of : LookupResult k → CodecPair k × ℕ
  answer_of (hit id p) = (p, id)
  answer_of (miss id p) = (p, 0)

  unfoldable pub answer : LookupResult k → CodecPair k × ℕ
  unfolding answer_of
  answer r = let a = answer_of r in if a.1 == 0 then (reset_decoder a.0, a.1) else a

  -- The fourth phase, when the peer's ack is there.
  unfoldable pub settle : ℕ → CodecPair k → ℕ → CodecPair k
  settle s2q_id s2q_pair s2q_ack =
      if s2q_ack == 0 && not (s2q_id == 0) then reset_encoder s2q_pair else s2q_pair

  resolved : ℕ → CodecPair k → ℕ → CodecPair k × ℕ → ℕ → HandshakeResult k
  resolved s2q_id s2q_pair q2s_id a s2q_ack = record {
    s2q_pair = settle s2q_id s2q_pair s2q_ack;
    q2s_pair = a.0;
    s2q_id = s2q_id;
    s2q_ack = s2q_ack;
    q2s_id = q2s_id;
    q2s_ack = a.1;
  }

  after_lookup :
      ℕ
      → CodecPair k
      → ℕ
      → LookupResult k × Cache k
      → Option ℕ
      → Result HandshakeError (HandshakeResult k) × Cache k
  unfolding resolved
  after_lookup s2q_id s2q_pair q2s_id (r, c) none = (err ack_not_exchanged, c)
  after_lookup s2q_id s2q_pair q2s_id (r, c) (some s2q_ack) =
      (ok (resolved s2q_id s2q_pair q2s_id (answer r) s2q_ack), c)

  after_checkout :
      (ℕ × CodecPair k) × Cache k
      → Option ℕ
      → Option ℕ
      → Result HandshakeError (HandshakeResult k) × Cache k
  unfolding after_lookup
  after_checkout (own, c) none ack = (err id_not_exchanged, c)
  after_checkout (own, c) (some q2s_id) ack =
      after_lookup (own.0) (own.1) q2s_id (lookup q2s_id c) ack

  -- One side: the id and the ack that come from the peer are `none` when a write or a read of that
  -- phase fails or takes too long.
  unfoldable pub exchange_pair_id :
      ℕ → Option ℕ → Option ℕ → Cache k → Result HandshakeError (HandshakeResult k) × Cache k
  unfolding after_checkout
  exchange_pair_id fresh_id remote_id remote_ack c =
      after_checkout (checkout fresh_id c) remote_id remote_ack

  -- The id and the ack that a side sends.
  abbrev pub id_sent : ℕ → Cache k → ℕ
  id_sent fresh_id c = (checkout fresh_id c).0.0

  abbrev pub ack_sent : ℕ → ℕ → Cache k → ℕ
  ack_sent fresh_id remote_id c = (answer (lookup remote_id (checkout fresh_id c).1).0).1

  -- Both sides on one stream, each with its own table.
  abbrev pub side : ℕ → Cache k → ℕ → Cache k → Result HandshakeError (HandshakeResult k) × Cache k
  side fresh c peer_fresh peer =
      exchange_pair_id fresh (some (id_sent peer_fresh peer))
        (some (ack_sent peer_fresh (id_sent fresh c) peer)) c

  -- The end of a task: the pair goes back to the table, or is given up.
  unfoldable pub end_task : StreamOutcome → ℕ → CodecPair k → Cache k → Cache k
  end_task clean_eof id p c = checkin id p c
  end_task io_error id p c = checkin id p c
  end_task timeout id p c = c
  end_task failed id p c = c
