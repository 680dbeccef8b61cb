-- ===== src/Codec/Sync.antt =====
-- The handshake of src/codec/handshake.rs leaves an encoder and a decoder that belong together.
use rstun.Base.{
  ℕ, ◌≡◌, ◌≢◌, refl, sym, ap, subst, ◌∙◌, Bool, true, false, Option, none, some, [], ◌∷◌,
  if◌then◌else◌, ok, ok-injective, ◌==◌, ==_iff, arith, ◌⊎◌, inl, inr,
}
use rstun.Codec.{
  Codecs, CodecPair, new_pair, Cache, get, remove, first_healthy, checked_out, checkout,
  LookupResult, looked_up, lookup, answer_of, answer, settle, HandshakeResult, exchange_pair_id,
  id_sent, ack_sent, side,
}

apart : {A : Type 0} {o : Option A} {x : A} → o ≡ some x → o ≡ none → ⊥
apart h e = some-ne-none (sym h ∙ e)
  where
    some-ne-none : {A : Type 0} {x : A} → some x ≡ none → ⊥
    some-ne-none e = cc

module _ {k : Codecs} where
  get-remove : (i j : ℕ) (c : Cache k) → get j (remove i c) ≡ (if i == j then none else get j c)
  unfolding get remove
  get-remove i j [] = ground arith
  get-remove i j ((k, p) ∷ c) = ground (arith, get-remove i j c, ==_iff k i, ==_iff k j, ==_iff i j)

  -- Where the pair that is checked out comes from.
  Picked : ℕ → Cache k → ℕ × CodecPair k → Type 0
  Picked fresh_id c (i, p) =
      ((get i c ≡ some p) × (p.errored ≡ false)) ⊎ ((i ≡ fresh_id) × (p ≡ new_pair))

  -- A cache in which no id stands twice.
  abbrev pub DistinctIds : Cache k → Type 0
  DistinctIds [] = Unit
  DistinctIds ((i, p) ∷ c) = (get i c ≡ none) × DistinctIds c

  first_healthy-get :
      (c : Cache k) (i : ℕ) (p : CodecPair k)
      → DistinctIds c
      → first_healthy c ≡ some (i, p)
      → (get i c ≡ some p) × (p.errored ≡ false)
  unfolding first_healthy get
  first_healthy-get [] i p d h = cc
  first_healthy-get ((j, q) ∷ c) i p d h =
      by_errored q.errored refl (λ e. first_healthy-get c i p d.1 e) h
    where
      by_errored :
          (b : Bool)
          → q.errored ≡ b
          → (first_healthy c ≡ some (i, p) → (get i c ≡ some p) × (p.errored ≡ false))
          → (if b then first_healthy c else some (j, q)) ≡ some (i, p)
          → ((if j == i then some q else get i c) ≡ some p) × (p.errored ≡ false)
      by_errored true e later h = ground (arith, later h, d.0, ==_iff j i)
      by_errored false e later h =
          let same : ◌≡◌ {A = ℕ × CodecPair k} (j, q) (i, p) =
            ap (λ o. elim o [ none ↦ (j, q) | some x ↦ x ]) h in
          (
            ground (arith, ap (λ x. x.0) same, ap (λ x. x.1) same, ==_iff j i),
            cc (ap (λ x. x.1) same, e),
          )

  checkout-Picked :
      (fresh_id : ℕ) (c : Cache k) → DistinctIds c → Picked fresh_id c (checkout fresh_id c).0
  unfolding checkout checked_out Picked
  checkout-Picked fresh_id c d = by_first (first_healthy c) refl
    where
      by_first :
          (o : Option (ℕ × CodecPair k))
          → first_healthy c ≡ o
          → Picked fresh_id c (checked_out o fresh_id c).0
      by_first none e = inr (refl, refl)
      by_first (some (i, p)) e = inl (first_healthy-get c i p d e)

  -- Checking a pair out adds nothing.
  checkout-get :
      (fresh_id : ℕ) (c : Cache k) (i : ℕ) (p : CodecPair k)
      → get i (checkout fresh_id c).1 ≡ some p
      → get i c ≡ some p
  unfolding checkout checked_out
  checkout-get fresh_id c i p h = by_first (first_healthy c) h
    where
      by_first :
          (o : Option (ℕ × CodecPair k))
          → get i (checked_out o fresh_id c).1 ≡ some p
          → get i c ≡ some p
      by_first none h = h
      by_first (some (j, q)) h = ground (arith, get-remove j i c, h)

  lookup-nonzero : (i : ℕ) (c : Cache k) → i ≢ 0 → lookup i c ≡ (looked_up (get i c) i, remove i c)
  unfolding lookup
  lookup-nonzero i c ne = ground (arith, ne)

  s2q_pair_of :
      (fresh : ℕ) (c : Cache k) (peer_fresh : ℕ) (peer c' : Cache k) (r : HandshakeResult k)
      → side fresh c peer_fresh peer ≡ (ok r, c')
      → (r.s2q_pair
          ≡ settle
              (id_sent fresh c)
              (checkout fresh c).0.1
              (ack_sent peer_fresh (id_sent fresh c) peer))
        × (r.q2s_pair ≡ (answer (lookup (id_sent peer_fresh peer) (checkout fresh c).1).0).0)
  unfolding exchange_pair_id
  s2q_pair_of fresh c peer_fresh peer c' r e =
      let same = ok-injective (ap (λ x. x.0) e) in
      (ap (λ x. x.s2q_pair) (sym same), ap (λ x. x.q2s_pair) (sym same))

  -- A pair that is checked out or found by a lookup has left the table, so that no second stream can
  -- take it, when a new id is new to the table.
  pub checkout-lookup_exclusive :
      (fresh_id id : ℕ) (c : Cache k)
      → get fresh_id c ≡ none
      → id ≢ 0
      → (get (checkout fresh_id c).0.0 (checkout fresh_id c).1 ≡ none)
        × (get id (lookup id c).1 ≡ none)
  unfolding checkout checked_out
  checkout-lookup_exclusive fresh_id id c e ne =
      (by_first (first_healthy c), ap (get id) (ap (λ x. x.1) (lookup-nonzero id c ne)) ∙ gone id)
    where
      gone : (i : ℕ) → get i (remove i c) ≡ none
      gone i = ground (arith, get-remove i i c)

      by_first :
          (o : Option (ℕ × CodecPair k))
          → get (checked_out o fresh_id c).0.0 (checked_out o fresh_id c).1 ≡ none
      by_first none = e
      by_first (some (i, p)) = ground (arith, get-remove i i c)

module _ {k : Codecs} (Agrees : k.Encoder → k.Decoder → Type 0) where
  -- The encoders of one side agree with the decoders of the other, pair by pair.
  abbrev pub Agree : Cache k → Cache k → Type 0
  Agree a b =
      (i : ℕ) (p q : CodecPair k)
      → get i a ≡ some p
      → get i b ≡ some q
      → p.errored ≡ false
      → q.errored ≡ false
      → Agrees p.encoder q.decoder

  -- What a direction needs: tables that are maps and agree, no pair under 0, and an id of the sender
  -- that is new to the receiver.
  pub record Ready (fresh_id : ℕ) (a b : Cache k) : Type 0 where
    pub distinct : DistinctIds a
    pub agree : Agree a b
    pub no_zero : get 0 a ≡ none
    pub not_zero : fresh_id ≢ 0
    pub new_id : get fresh_id b ≡ none

module _ {k : Codecs} (Agrees : k.Encoder → k.Decoder → Type 0)
    (new_agree : Agrees k.new_encoder k.new_decoder) where
  Matches : ℕ → CodecPair k → LookupResult k → Type 0
  unfolding answer answer_of settle
  Matches i p r = Agrees (settle i p (answer r).1).encoder (answer r).0.decoder

  looked_up-Matches :
      (i : ℕ) (p : CodecPair k) (o : Option (CodecPair k))
      → i ≢ 0
      → ((q : CodecPair k) → o ≡ some q → q.errored ≡ false → Agrees p.encoder q.decoder)
      → Matches i p (looked_up o i)
  unfolding Matches looked_up answer answer_of settle
  looked_up-Matches i p none ne agree = ground (arith, ne)
  looked_up-Matches i p (some q) ne agree = ground (arith, ne, agree q refl)

  direction :
      (fresh_a fresh_b : ℕ) (a b : Cache k) (i : ℕ) (p : CodecPair k)
      → Ready Agrees fresh_a a b
      → Picked fresh_a a (i, p)
      → Matches i p (lookup i (checkout fresh_b b).1).0
  unfolding Picked
  direction fresh_a fresh_b a b i p ready (inl (there, healthy)) =
      let c = (checkout fresh_b b).1 in
      let ne : i ≢ 0 = λ e. apart there (ap (λ j. get j a) e ∙ ready.no_zero) in
      subst (λ l. Matches i p l.0) (sym (lookup-nonzero i c ne))
        (looked_up-Matches i p (get i c) ne
          (λ q e h. ready.agree i p q there (checkout-get fresh_b b i q e) healthy h))
  direction fresh_a fresh_b a b i p ready (inr (own, made)) =
      let c = (checkout fresh_b b).1 in
      let ne : i ≢ 0 = λ e. ready.not_zero (sym own ∙ e) in
      subst (λ l. Matches i p l.0) (sym (lookup-nonzero i c ne))
        (looked_up-Matches i p (get i c) ne (λ q e h. absurd (none_there q e)))
    where
      none_there : (q : CodecPair k) → get i (checkout fresh_b b).1 ≡ some q → ⊥
      none_there q e = apart (checkout-get fresh_b b i q e) (ap (λ j. get j b) own ∙ ready.new_id)

  one_way :
      (fresh_a fresh_b : ℕ) (a b a' b' : Cache k) (ra rb : HandshakeResult k)
      → Ready Agrees fresh_a a b
      → side fresh_a a fresh_b b ≡ (ok ra, a')
      → side fresh_b b fresh_a a ≡ (ok rb, b')
      → Agrees ra.s2q_pair.encoder rb.q2s_pair.decoder
  unfolding Matches
  one_way fresh_a fresh_b a b a' b' ra rb ready ea eb =
      subst (λ p. Agrees p.encoder rb.q2s_pair.decoder)
        (sym ((s2q_pair_of fresh_a a fresh_b b a' ra ea).0))
        (subst
          (λ p.
            Agrees
              (settle (id_sent fresh_a a) (checkout fresh_a a).0.1
                (ack_sent fresh_b (id_sent fresh_a a) b)).encoder
              p.decoder)
          (sym ((s2q_pair_of fresh_b b fresh_a a b' rb eb).1))
          (direction fresh_a fresh_b a b (id_sent fresh_a a) (checkout fresh_a a).0.1 ready
            (checkout-Picked fresh_a a ready.distinct)))

  -- For any relation between encoders and decoders that holds of new ones: when the tables of both
  -- sides are maps without a pair under 0 that agree in both directions and the ids that each side
  -- makes are new to the other, then after a handshake that both sides complete, in each direction
  -- the sender's encoder and the receiver's decoder are related, whether the pairs were reused,
  -- missed, errored or new.
  pub exchange_pair_id-sync :
      (fresh_a fresh_b : ℕ) (a b a' b' : Cache k) (ra rb : HandshakeResult k)
      → Ready Agrees fresh_a a b
      → Ready Agrees fresh_b b a
      → side fresh_a a fresh_b b ≡ (ok ra, a')
      → side fresh_b b fresh_a a ≡ (ok rb, b')
      → Agrees ra.s2q_pair.encoder rb.q2s_pair.decoder
        × (Agrees rb.s2q_pair.encoder ra.q2s_pair.decoder)
  exchange_pair_id-sync fresh_a fresh_b a b a' b' ra rb ready_a ready_b ea eb = (
    one_way fresh_a fresh_b a b a' b' ra rb ready_a ea eb,
    one_way fresh_b fresh_a b a b' a' rb ra ready_b eb ea,
  )
