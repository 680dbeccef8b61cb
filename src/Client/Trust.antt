-- ===== src/Client/Trust.antt =====
-- What the client's verifiers of src/client.rs let through, with custom SNI names and without.
use rstun.Base.{
  ℕ, ◌≡◌, refl, sym, ap, ◌∙◌, Bool, true, false, Option, none, some, List, [], ◌∷◌, if◌then◌else◌,
  Result, ok, err, is_some, ◌⊎◌, inl, inr, ok-injective, subst,
}
use rstun.Net.{Text}
use rstun.Client.Timing.{select_sni_name}
use rstun.Client.Tls.{
  Certificate, Presented, Trust, platform, roots, TlsError, Library, Verifier, plain, custom_sni,
  insecure, localhost, domain_of, named, is_server_name, wrap_with_custom_sni_verifier,
  platform_verifier, all_addable, roots_verifier, from_file, parse_client_config_and_domain,
  verify_server_cert, connect, under_config, accepts,
}

passed :
    {A : Type 0} (b : Bool) (r : Result TlsError A) (e : TlsError) (x : A)
    → (if b then r else err e) ≡ ok x
    → r ≡ ok x
passed true r e x h = h
passed false r e x h = cc

both : (b c : Bool) → (if b then c else false) ≡ true → c ≡ true
both true c h = h
both false c h = cc

module _ (lib : Library) where
  -- The roots that a configuration names: the platform's, or those of its file.
  pub data Names : Text → Trust → Type 0 where
    by_platform : Names [] platform
    by_file :
        (x : ℕ) (path : Text) (c : Certificate) (certs : List Certificate)
        → lib.load_certificates (x ∷ path) ≡ some (c ∷ certs)
        → Names (x ∷ path) (roots (c ∷ certs))

  -- The certificate verifies for the host of the configured address.
  abbrev pub IsTrusted : Text → Text → Presented → Type 0
  IsTrusted cert_path server_addr p =
      (t : Trust) × Names cert_path t × (lib.verifies t p (domain_of server_addr) ≡ true)

  -- A verifier that checks the real name against `t`, if the name on the wire is the real one where
  -- there is no custom name.
  abbrev Checks : Trust → List Text → Text → Verifier → Type 0
  Checks t sni_names name (plain u) = (u ≡ t) × (sni_names ≡ [])
  Checks t sni_names name (custom_sni u real_name) = (u ≡ t) × (real_name ≡ name)
  Checks t sni_names name insecure = ⊥

  wrapped-Checks :
      (t : Trust) (n : Text) (sni_names : List Text) (name : Text) (v : Verifier)
      → wrap_with_custom_sni_verifier lib t name ≡ ok v
      → Checks t (n ∷ sni_names) name v
  unfolding wrap_with_custom_sni_verifier
  wrapped-Checks t n sni_names name v h =
      subst (Checks t (n ∷ sni_names) name)
        (ok-injective
          (passed (is_server_name (lib.parse_server_name name)) (ok (custom_sni t name)) _ v h))
        (refl, refl)

  platform_verifier-Checks :
      (sni_names : List Text) (name : Text) (v : Verifier)
      → platform_verifier lib sni_names name ≡ ok v
      → Checks platform sni_names name v
  unfolding platform_verifier
  platform_verifier-Checks [] name v h =
      subst (Checks platform [] name)
        (ok-injective (passed (lib.builds platform) (ok (plain platform)) _ v h)) (refl, refl)
  platform_verifier-Checks (n ∷ ns) name v h =
      wrapped-Checks platform n ns name v
        (passed (lib.builds platform) (wrap_with_custom_sni_verifier lib platform name) _ v h)

  roots_verifier-Checks :
      (sni_names : List Text) (certs : List Certificate) (name : Text) (v : Verifier)
      → roots_verifier lib sni_names certs name ≡ ok v
      → Checks (roots certs) sni_names name v
  unfolding roots_verifier
  roots_verifier-Checks [] certs name v h =
      subst (Checks (roots certs) [] name) (ok-injective h) (refl, refl)
  roots_verifier-Checks (n ∷ ns) certs name v h = wrapped-Checks (roots certs) n ns name v (
      passed (lib.builds (roots certs)) (wrap_with_custom_sni_verifier lib (roots certs) name) _ v
        h)

  from_file-Checks :
      (x : ℕ) (path : Text) (sni_names : List Text) (o : Option (List Certificate)) (name : Text)
      (v : Verifier)
      → lib.load_certificates (x ∷ path) ≡ o
      → from_file lib sni_names o name ≡ ok v
      → (t : Trust) × Names (x ∷ path) t × Checks t sni_names name v
  unfolding from_file
  from_file-Checks x path sni_names none name v l h = cc
  from_file-Checks x path sni_names (some []) name v l h = cc
  from_file-Checks x path sni_names (some (c ∷ certs)) name v l h = (
    roots (c ∷ certs),
    by_file x path c certs l,
    roots_verifier-Checks sni_names (c ∷ certs) name v (
        passed (all_addable lib (c ∷ certs)) (roots_verifier lib sni_names (c ∷ certs) name) _ v h),
  )

  -- What a verifier with `Checks` lets through on the name that is selected.
  connect-trusted :
      (t : Trust) (sni_names : List Text) (name : Text) (v : Verifier) (rotation : ℕ)
      (p : Presented)
      → Checks t sni_names name v
      → connect lib v (select_sni_name sni_names name rotation).name p ≡ true
      → lib.verifies t p name ≡ true
  unfolding connect select_sni_name verify_server_cert
  connect-trusted t [] name (plain u) rotation p (e, none_custom) h =
      ap (λ u. lib.verifies u p name) (sym e)
      ∙ both (is_server_name (lib.parse_server_name name)) (lib.verifies u p name) h
  connect-trusted t (n ∷ ns) name (plain u) rotation p (e, none_custom) h = cc
  connect-trusted t sni_names name (custom_sni u real_name) rotation p (e, f) h =
      ap (λ u. lib.verifies u p name) (sym e)
      ∙ ap (lib.verifies u p) (sym f)
      ∙ by_name (select_sni_name sni_names name rotation).name h
    where
      by_name :
          (o : Option Text)
          → connect lib (custom_sni u real_name) o p ≡ true
          → lib.verifies u p real_name ≡ true
      by_name none h = cc
      by_name (some wire_name) h =
          both (is_server_name (lib.parse_server_name wire_name)) (lib.verifies u p real_name) h
  connect-trusted t sni_names name insecure rotation p c h = absurd c

  by_verifier :
      (path : Text) (sni_names : List Text) (name : Text) (r : Result TlsError Verifier)
      (rotation : ℕ) (p : Presented)
      → ((v : Verifier) → r ≡ ok v → (t : Trust) × Names path t × Checks t sni_names name v)
      → under_config lib (named r name) sni_names rotation p ≡ true
      → (t : Trust) × Names path t × (lib.verifies t p name ≡ true)
  unfolding under_config
  by_verifier path sni_names name (ok v) rotation p c h =
      let (t, names, checks) = c v refl in
      (t, names, connect-trusted t sni_names name v rotation p checks h)
  by_verifier path sni_names name (err e) rotation p c h = cc

  without_file :
      (b : Bool) (server_addr : Text) (sni_names : List Text) (rotation : ℕ) (p : Presented)
      → under_config lib
          (if b
            then ok (insecure, localhost)
            else named
                (platform_verifier lib sni_names (domain_of server_addr))
                (domain_of server_addr))
          sni_names
          rotation
          p
        ≡ true
      → (b ≡ true) ⊎ IsTrusted [] server_addr p
  without_file true server_addr sni_names rotation p h = inl refl
  without_file false server_addr sni_names rotation p h = inr (
      by_verifier [] sni_names (domain_of server_addr)
        (platform_verifier lib sni_names (domain_of server_addr)) rotation p
        (λ v e.
          (platform, by_platform, platform_verifier-Checks sni_names (domain_of server_addr) v e))
        h)

  -- Whatever the custom SNI names: a server that is accepted showed a certificate that verifies for
  -- the host of the configured address, against the certificates of the file or, without one, the
  -- roots of the platform; or else there is no file and the address is an IP address with a port.
  pub accepts-IsTrusted :
      (cert_path server_addr : Text) (sni_names : List Text) (rotation : ℕ) (p : Presented)
      → accepts lib cert_path server_addr sni_names rotation p ≡ true
      → ((cert_path ≡ []) × (is_some (lib.parse_socket_addr server_addr) ≡ true))
        ⊎ IsTrusted cert_path server_addr p
  unfolding accepts parse_client_config_and_domain
  accepts-IsTrusted [] server_addr sni_names rotation p h =
      elim (without_file (is_some (lib.parse_socket_addr server_addr)) server_addr sni_names
        rotation p h) [ inl b ↦ inl (refl, b) | inr t ↦ inr t ]
  accepts-IsTrusted (x ∷ path) server_addr sni_names rotation p h = inr (
      by_verifier (x ∷ path) sni_names (domain_of server_addr)
        (from_file lib sni_names (lib.load_certificates (x ∷ path)) (domain_of server_addr))
        rotation p
        (λ v e.
          from_file-Checks x path sni_names (lib.load_certificates (x ∷ path))
            (domain_of server_addr) v refl e)
        h)
