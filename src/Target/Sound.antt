-- ===== src/Target/Sound.antt =====
-- What the readers accept is what `encode_tunnel_target` writes: src/util/stream_util.rs.
use rstun.Base.{
  ℕ, ◌+◌, ◌<◌, ◌≡◌, refl, sym, ◌∙◌, subst, ◌⊎◌, inl, inr, Bool, some, List, [], ◌∷◌, ◌++◌, arith,
  take, drop, length, length-take, length-drop, take-append-drop, ok, err, to_be_bytes,
  from_be_bytes, from_be_bytes_two, AreBytes, IsByte, All-append_left, All-append_right, All-take,
  All-drop, ok-injective, Bool-cases, Result-cases, ◌==◌, ==_iff,
}
use mathlib.Core.Path.{ap₂}
use rstun.Net.{TunnelTarget, domain}
use rstun.Io.{Reader, read_exact}
use rstun.Io.Laws.{ReadExact, read_exact-ReadExact}
use rstun.Target.{
  TransferError, transfer_error, encode_tunnel_target, read_bytes, read_tunnel_target_body,
  read_tunnel_target, first_byte, read_v4_body, read_v6_body, read_domain_body, read_host_and_port,
  read_target_family,
}
use rstun.Target.Utf8.{is_utf8}
use rstun.Target.Bounds.{IsTarget}

read_bytes-cases :
    (n : ℕ) (r : Reader)
    → ((buf : List ℕ) × (r1 : Reader) × (read_bytes n r ≡ ok (buf, r1)) × ReadExact n r buf r1)
      ⊎ ((e : TransferError) × (read_bytes n r ≡ err e))
unfolding read_bytes
read_bytes-cases n r = elim (Result-cases (read_exact n r)) [
  | inl ((buf, r1), e) ↦ inl (buf, r1, rw e, read_exact-ReadExact n r e)
  | inr (e, h) ↦ inr (transfer_error e, rw h)
]

-- `t` was read from `r`, behind its family byte, and `r'` is what is left.
pub record Sound (family : ℕ) (t : TunnelTarget) (r r' : Reader) : Type 0 where
  pub body : List ℕ
  pub split : r.bytes ≡ body ++ r'.bytes
  pub same_end : r'.after ≡ r.after
  pub encoded : (m : Bool) → encode_tunnel_target (some t) m ≡ ok (some (family ∷ body))
  pub valid : IsTarget t

-- The bytes behind the first `n` of `n + 2` bytes are a port.
module _ (n : ℕ) (buf : List ℕ) (w : length buf ≡ n + 2) (h : AreBytes buf) where
  port_bytes :
      (from_be_bytes (drop n buf) < 65536)
      × (to_be_bytes 2 (from_be_bytes (drop n buf)) ≡ drop n buf)
  port_bytes =
      from_be_bytes_two (drop n buf) (omega (arith, length-drop n buf)) (All-drop IsByte n buf h)

  body_bytes : take n buf ++ to_be_bytes 2 (from_be_bytes (drop n buf)) ≡ buf
  body_bytes = rw (port_bytes.1) (take-append-drop n buf)

  body_width : length (take n buf) ≡ n
  body_width = omega (arith, length-take n buf)

module _ (r : Reader) (bytes : AreBytes r.bytes) where
  buf_bytes : {n : ℕ} {buf : List ℕ} {r1 : Reader} → ReadExact n r buf r1 → AreBytes buf
  buf_bytes {buf} {r1} x = All-append_left IsByte buf r1.bytes (subst AreBytes x.split bytes)

  rest_bytes : {n : ℕ} {buf : List ℕ} {r1 : Reader} → ReadExact n r buf r1 → AreBytes r1.bytes
  rest_bytes {buf} {r1} x = All-append_right IsByte buf r1.bytes (subst AreBytes x.split bytes)

  read_v4_body-Sound :
      {t : TunnelTarget} {r' : Reader} → read_v4_body r ≡ ok (t, r') → Sound 4 t r r'
  unfolding read_v4_body encode_tunnel_target
  read_v4_body-Sound h = elim (read_bytes-cases 6 r) [
    | inl (buf, r1, e, x) ↦
        subst (λ p. Sound 4 p.0 r p.1) (ok-injective (rw (e, read_v4_body) at h))
          (record {
            body = buf;
            split = x.split;
            same_end = x.same_end;
            encoded = λ m. rw (body_bytes 4 buf x.width (buf_bytes x));
            valid = (
              (body_width 4 buf x.width (buf_bytes x), All-take IsByte 4 buf (buf_bytes x)),
              (port_bytes 4 buf x.width (buf_bytes x)).0,
            );
          })
    | inr (e, f) ↦ ground arith
  ]

  read_v6_body-Sound :
      {t : TunnelTarget} {r' : Reader} → read_v6_body r ≡ ok (t, r') → Sound 6 t r r'
  unfolding read_v6_body encode_tunnel_target
  read_v6_body-Sound h = elim (read_bytes-cases 18 r) [
    | inl (buf, r1, e, x) ↦
        subst (λ p. Sound 6 p.0 r p.1) (ok-injective (rw (e, read_v6_body) at h))
          (record {
            body = buf;
            split = x.split;
            same_end = x.same_end;
            encoded = λ m. rw (body_bytes 16 buf x.width (buf_bytes x));
            valid = (
              (body_width 16 buf x.width (buf_bytes x), All-take IsByte 16 buf (buf_bytes x)),
              (port_bytes 16 buf x.width (buf_bytes x)).0,
            );
          })
    | inr (e, f) ↦ ground arith
  ]

-- The length byte and the host, of a domain that reads back.
domain-encoded :
    (n : ℕ) (buf : List ℕ) (m : Bool)
    → 0 < n
    → n < 256
    → length buf ≡ n + 2
    → AreBytes buf
    → encode_tunnel_target (some (domain (take n buf) (from_be_bytes (drop n buf)))) m
      ≡ ok (some (3 ∷ n ∷ buf))
unfolding encode_tunnel_target
domain-encoded n buf m pos short w h =
    rw (body_width n buf w h, body_bytes n buf w h) (ground arith)

read_host_and_port-Sound :
    (n : ℕ) (r : Reader)
    → AreBytes r.bytes
    → 0 < n
    → n < 256
    → {t : TunnelTarget} {r' : Reader} → read_host_and_port n r ≡ ok (t, r')
    → (body : List ℕ) × (r.bytes ≡ body ++ r'.bytes)
      × (r'.after ≡ r.after)
      × ((m : Bool) → encode_tunnel_target (some t) m ≡ ok (some (3 ∷ n ∷ body)))
      × IsTarget t
unfolding read_host_and_port
read_host_and_port-Sound n r bytes pos short {t} {r'} h = elim (read_bytes-cases (n + 2) r) [
  | inl (buf, r1, e, x) ↦ elim (Bool-cases (is_utf8 (take n buf))) [
    | inl u ↦
        let b = buf_bytes r bytes x in
        subst
          (λ p.
            (body : List ℕ) × (r.bytes ≡ body ++ p.1.bytes)
            × (p.1.after ≡ r.after)
            × ((m : Bool) → encode_tunnel_target (some p.0) m ≡ ok (some (3 ∷ n ∷ body)))
            × IsTarget p.0)
          (ok-injective (rw (e, u, read_host_and_port) at h))
          (
            buf,
            x.split,
            x.same_end,
            (λ m. domain-encoded n buf m pos short x.width b),
            (
              omega (arith, body_width n buf x.width b),
              omega (arith, body_width n buf x.width b),
              u,
              (port_bytes n buf x.width b).0,
            ),
          )
    | inr u ↦ cc (rw (e, u, read_host_and_port) at h)
  ]
  | inr (e, f) ↦ cc (rw (f, read_host_and_port) at h)
]

-- A buffer of one byte.
one_byte :
    (buf : List ℕ)
    → length buf ≡ 1
    → AreBytes buf
    → (buf ≡ first_byte buf ∷ []) × (first_byte buf < 256)
one_byte [] w h = absurd (omega arith)
one_byte (b ∷ []) w h = (refl, h.0)
one_byte (b ∷ c ∷ buf) w h = absurd (omega arith)

read_domain_body-Sound :
    (r : Reader)
    → AreBytes r.bytes
    → {t : TunnelTarget} {r' : Reader} → read_domain_body r ≡ ok (t, r')
    → Sound 3 t r r'
unfolding read_domain_body
read_domain_body-Sound r bytes {t} {r'} h = elim (read_bytes-cases 1 r) [
  | inl (buf, r1, e, x) ↦ elim (Bool-cases (first_byte buf == 0)) [
    | inl zero_len ↦ cc (rw (e, zero_len, read_domain_body) at h)
    | inr some_len ↦
        let (one, small) = one_byte buf x.width (buf_bytes r bytes x) in
        let (body, split, same_end, encoded, valid) =
          read_host_and_port-Sound (first_byte buf) r1 (rest_bytes r bytes x) (ground arith) small
            (rw (e, some_len, read_domain_body) at h) in
        record {
          body = first_byte buf ∷ body;
          split = x.split ∙ ap₂ ◌++◌ one split;
          same_end = same_end ∙ x.same_end;
          encoded = encoded;
          valid = valid;
        }
  ]
  | inr (e, f) ↦ cc (rw (f, read_domain_body) at h)
]

read_tunnel_target_body-Sound :
    (family : ℕ) (r : Reader)
    → AreBytes r.bytes
    → {t : TunnelTarget} {r' : Reader} → read_tunnel_target_body family r ≡ ok (t, r')
    → Sound family t r r'
unfolding read_tunnel_target_body
read_tunnel_target_body-Sound family r bytes {t} {r'} h = elim (Bool-cases (family == 4)) [
  | inl f4 ↦
      subst (λ f. Sound f t r r') (sym ((==_iff family 4).0 f4))
        (read_v4_body-Sound r bytes (rw (f4, read_tunnel_target_body) at h))
  | inr n4 ↦ elim (Bool-cases (family == 6)) [
    | inl f6 ↦
        subst (λ f. Sound f t r r') (sym ((==_iff family 6).0 f6))
          (read_v6_body-Sound r bytes (rw (n4, f6, read_tunnel_target_body) at h))
    | inr n6 ↦ elim (Bool-cases (family == 3)) [
      | inl f3 ↦
          subst (λ f. Sound f t r r') (sym ((==_iff family 3).0 f3))
            (read_domain_body-Sound r bytes (rw (n4, n6, f3, read_tunnel_target_body) at h))
      | inr n3 ↦ cc (rw (n4, n6, n3, read_tunnel_target_body) at h)
    ]
  ]
]

-- A target that `read_tunnel_target` returns from bytes lies within the bounds of the wire format,
-- and the bytes it took are exactly those that `encode_tunnel_target` writes for it, so the format
-- has one encoding for each target. The rest of the bytes and the stream's end are left as they were.
pub read_tunnel_target_sound :
    (r : Reader) (m : Bool) {t : TunnelTarget} {r' : Reader}
    → AreBytes r.bytes
    → read_tunnel_target r ≡ ok (t, r')
    → IsTarget t
      × ((bs : List ℕ) × (encode_tunnel_target (some t) m ≡ ok (some bs))
          × (r.bytes ≡ bs ++ r'.bytes)
          × (r'.after ≡ r.after))
unfolding read_tunnel_target read_target_family
read_tunnel_target_sound r m {t} {r'} bytes h = elim (read_bytes-cases 1 r) [
  | inl (buf, r1, e, x) ↦
      let (one, small) = one_byte buf x.width (buf_bytes r bytes x) in
      let s =
        read_tunnel_target_body-Sound (first_byte buf) r1 (rest_bytes r bytes x)
          (rw (e, read_target_family, read_tunnel_target) at h) in
      (
        s.valid,
        (
          first_byte buf ∷ s.body,
          s.encoded m,
          x.split ∙ ap₂ ◌++◌ one s.split,
          s.same_end ∙ x.same_end,
        ),
      )
  | inr (e, f) ↦ cc (rw (f, read_target_family, read_tunnel_target) at h)
]
