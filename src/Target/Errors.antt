-- ===== src/Target/Errors.antt =====
-- The error paths of the target codec, src/util/stream_util.rs.
use rstun.Base.{
  ℕ, ◌+◌, ◌≡◌, ◌≢◌, refl, ◌⊎◌, inl, inr, List, length, arith, leb, take, drop, ok, err, Bool-cases,
}
use rstun.Io.{Reader, End, eof, reset, stall, read_exact, end_error}
use rstun.Target.{
  TransferError, internal_error, invalid_ip_family, invalid_domain, timeout_error, transfer_error,
  read_bytes, read_tunnel_target_body, read_tunnel_target, first_byte, read_v4_body, read_v6_body,
  read_domain_body, read_host_and_port, read_target_family,
}

-- What a failed read says of the stream.
abbrev pub EndsWith : TransferError → Reader → Type 0
EndsWith e r =
    ((r.after ≡ stall) × (e ≡ timeout_error)) ⊎ ((r.after ≢ stall) × (e ≡ internal_error))

read_bytes-EndsWith :
    (n : ℕ) (r : Reader)
    → ((buf : List ℕ) × (r1 : Reader) × (read_bytes n r ≡ ok (buf, r1)) × (r1.after ≡ r.after))
      ⊎ ((e : TransferError) × (read_bytes n r ≡ err e) × EndsWith e r)
unfolding read_bytes read_exact
read_bytes-EndsWith n r = elim (Bool-cases (leb n (length r.bytes))) [
  | inl enough ↦ inl (take n r.bytes, record r { bytes = drop n r.bytes }, rw enough, refl)
  | inr short ↦ inr (transfer_error (end_error r.after), rw short, ends r.after)
]
  where
    ends :
        (a : End)
        → ((a ≡ stall) × (transfer_error (end_error a) ≡ timeout_error))
          ⊎ ((a ≢ stall) × (transfer_error (end_error a) ≡ internal_error))
    ends eof = inr (λ p. cc, refl)
    ends reset = inr (λ p. cc, refl)
    ends stall = inl (refl, refl)

abbrev FailsAs : TransferError → Reader → Type 0
FailsAs e r = EndsWith e r ⊎ (e ≡ invalid_domain) ⊎ (e ≡ invalid_ip_family)

module _ (r : Reader) {e : TransferError} where
  read_v4_body-FailsAs : read_v4_body r ≡ err e → FailsAs e r
  unfolding read_v4_body
  read_v4_body-FailsAs h = ground (arith, read_bytes-EndsWith 6 r)

  read_v6_body-FailsAs : read_v6_body r ≡ err e → FailsAs e r
  unfolding read_v6_body
  read_v6_body-FailsAs h = ground (arith, read_bytes-EndsWith 18 r)

  read_host_and_port-FailsAs : (n : ℕ) → read_host_and_port n r ≡ err e → FailsAs e r
  unfolding read_host_and_port
  read_host_and_port-FailsAs n h = elim (read_bytes-EndsWith (n + 2) r) [
    | inl (buf, r1, p, same) ↦ ground arith
    | inr (f, p, why) ↦ ground arith
  ]

read_domain_body-FailsAs :
    (r : Reader) {e : TransferError} → read_domain_body r ≡ err e → FailsAs e r
unfolding read_domain_body
read_domain_body-FailsAs r {e} h = elim (read_bytes-EndsWith 1 r) [
  | inl (buf, r1, p, same) ↦
      ground (arith, same, read_host_and_port-FailsAs r1 {e = e} (first_byte buf))
  | inr (f, p, why) ↦ ground arith
]

read_tunnel_target_body-FailsAs :
    (family : ℕ) (r : Reader) {e : TransferError}
    → read_tunnel_target_body family r ≡ err e
    → FailsAs e r
unfolding read_tunnel_target_body
read_tunnel_target_body-FailsAs family r {e} h = ground (
  arith,
  read_v4_body-FailsAs r {e = e},
  read_v6_body-FailsAs r {e = e},
  read_domain_body-FailsAs r {e = e},
)

-- A failed read reports a timeout only if the stream stalled, an internal error only if it ended or
-- failed, and otherwise a bad domain or a bad family: `InvalidIPAddress` is never returned.
pub read_tunnel_target-FailsAs :
    (r : Reader) {e : TransferError}
    → read_tunnel_target r ≡ err e
    → (((r.after ≡ stall) × (e ≡ timeout_error)) ⊎ ((r.after ≢ stall) × (e ≡ internal_error)))
      ⊎ (e ≡ invalid_domain)
      ⊎ (e ≡ invalid_ip_family)
unfolding read_tunnel_target read_target_family
read_tunnel_target-FailsAs r {e} h = elim (read_bytes-EndsWith 1 r) [
  | inl (buf, r1, p, same) ↦
      ground (arith, same, read_tunnel_target_body-FailsAs (first_byte buf) r1 {e = e})
  | inr (f, p, why) ↦ ground arith
]
