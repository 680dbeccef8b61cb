-- ===== src/Codec/Examples.antt =====
-- The codec tables at concrete pairs.
use rstun.Base.{◌≡◌, refl, false, none, [], ◌∷◌, ok, arith}
use rstun.Codec.{
  histories, new_pair, Cache, get, remove, first_healthy, checkout, lookup, answer, settle,
  HandshakeResult, side, exchange_pair_id,
}
use rstun.Codec.Stale.{Stale}
use rstun.Codec.Sync.{Ready, exchange_pair_id-sync, checkout-lookup_exclusive}

-- Side A has a pair under 5 whose encoder side B follows; B's table has no pair of its own to send.
abbrev table_a : Cache histories
table_a = (5, record { encoder = 1 ∷ []; decoder = []; errored = false }) ∷ []

abbrev table_b : Cache histories
table_b = []

a-Ready : Ready ◌≡◌ 8 table_a table_b
unfolding get
a-Ready = record {
  distinct = (refl, tt);
  agree = λ i p q h h' e e'. cc;
  no_zero = refl;
  not_zero = λ h. omega (arith, h);
  new_id = refl;
}

b-Ready : Ready ◌≡◌ 9 table_b table_a
unfolding get
b-Ready = record {
  distinct = tt;
  agree = λ i p q h h' e e'. cc;
  no_zero = refl;
  not_zero = λ h. omega (arith, h);
  new_id = refl;
}

-- B has nothing under 5, so A's encoder is reset.
abbrev result_a : HandshakeResult histories
result_a = record {
  s2q_pair = new_pair;
  q2s_pair = new_pair;
  s2q_id = 5;
  s2q_ack = 0;
  q2s_id = 9;
  q2s_ack = 0;
}

abbrev result_b : HandshakeResult histories
result_b = record {
  s2q_pair = new_pair;
  q2s_pair = new_pair;
  s2q_id = 9;
  s2q_ack = 0;
  q2s_id = 5;
  q2s_ack = 0;
}

side_a : side 8 table_a 9 table_b ≡ (ok result_a, [])
unfolding exchange_pair_id checkout first_healthy lookup answer settle get remove
side_a = refl

side_b : side 9 table_b 8 table_a ≡ (ok result_b, [])
unfolding exchange_pair_id checkout first_healthy lookup answer settle get remove
side_b = refl

exchange_pair_id-sync_example :
    (result_a.s2q_pair.encoder ≡ result_b.q2s_pair.decoder)
    × (result_b.s2q_pair.encoder ≡ result_a.q2s_pair.decoder)
exchange_pair_id-sync_example =
    exchange_pair_id-sync ◌≡◌ refl 8 9 table_a table_b [] [] result_a result_b a-Ready b-Ready
      side_a side_b

absent : get 8 table_a ≡ none
unfolding get
absent = refl

checkout-lookup_exclusive_example :
    (get (checkout 8 table_a).0.0 (checkout 8 table_a).1 ≡ none)
    × (get 5 (lookup 5 table_a).1 ≡ none)
checkout-lookup_exclusive_example =
    checkout-lookup_exclusive 8 5 table_a absent (λ h. omega (arith, h))
