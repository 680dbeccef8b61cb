-- ===== src/Client/CustomSni.antt =====
-- Custom SNI names of src/client.rs change the name on the wire and nothing else.
use rstun.Base.{
  ℕ, zero, suc, ◌≡◌, refl, ap, ◌∙◌, ◌<◌, ◌%◌, Bool, true, false, ◌&&◌, Option, none, some, List, [],
  ◌∷◌, if◌then◌else◌, Result, ok, err, is_some, All, get_elem?, length, arith,
}
use rstun.Net.{Text}
use rstun.Client.Timing.{select_sni_name}
use rstun.Client.Trust.{Names, by_platform, by_file}
use rstun.Client.Tls.{
  Certificate, Presented, Trust, platform, roots, Library, Verifier, plain, custom_sni, insecure,
  localhost, domain_of, named, is_server_name, wrap_with_custom_sni_verifier, platform_verifier,
  all_addable, roots_verifier, from_file, parse_client_config_and_domain, verify_server_cert,
  connect, under_config, accepts, TlsError, bad_root,
}

module _ (lib : Library) where
  -- The certificates of a file.
  abbrev pub by_certificates : Option (List Certificate) → Text → Presented → Bool
  by_certificates none name p = false
  by_certificates (some []) name p = false
  by_certificates (some (c ∷ certs)) name p =
      all_addable lib (c ∷ certs) && lib.verifies (roots (c ∷ certs)) p name

  -- What the client has to accept, by the path of the file, the server's address and what it shows.
  abbrev pub verifies_host : Text → Text → Presented → Bool
  verifies_host [] server_addr p =
      if is_some (lib.parse_socket_addr server_addr)
      then true
      else lib.verifies platform p (domain_of server_addr)
  verifies_host (x ∷ cert_path) server_addr p =
      by_certificates (lib.load_certificates (x ∷ cert_path)) (domain_of server_addr) p

  abbrev IsName : Text → Type 0
  IsName name = is_server_name (lib.parse_server_name name) ≡ true

  -- A verifier builds for the roots that the configuration names, "localhost" and the host of the
  -- address are names, and so is every custom one.
  pub record Usable (cert_path server_addr : Text) (sni_names : List Text) : Type 0 where
    pub builds : (t : Trust) → Names lib cert_path t → lib.builds t ≡ true
    pub localhost_name : IsName localhost
    pub host_name : IsName (domain_of server_addr)
    pub custom_names : All IsName sni_names

  nth-IsName :
      (names : List Text) (i : ℕ)
      → All IsName names
      → i < length names
      → (n : Text) × (get_elem? names i ≡ some n) × IsName n
  nth-IsName [] i all lt = absurd (omega arith)
  nth-IsName (n ∷ names) zero (h, all) lt = (n, refl, h)
  nth-IsName (n ∷ names) (suc i) (h, all) lt = nth-IsName names i all (omega (arith, lt))

  selected-IsName :
      (sni_names : List Text) (name : Text) (rotation : ℕ)
      → All IsName sni_names
      → IsName name
      → (n : Text) × ((select_sni_name sni_names name rotation).name ≡ some n) × IsName n
  unfolding select_sni_name
  selected-IsName [] name rotation all h = (name, refl, h)
  selected-IsName (n ∷ names) name rotation all h =
      nth-IsName (n ∷ names) (rotation % length (n ∷ names)) all (omega arith)

  chosen : List Text → Trust → Text → Verifier
  chosen [] t name = plain t
  chosen (n ∷ sni_names) t name = custom_sni t name

  wrap_named :
      (t : Trust) (name : Text)
      → IsName name
      → wrap_with_custom_sni_verifier lib t name ≡ ok (custom_sni t name)
  unfolding wrap_with_custom_sni_verifier
  wrap_named t name h = rw (h) refl

  platform_verifier-chosen :
      (sni_names : List Text) (name : Text)
      → lib.builds platform ≡ true
      → IsName name
      → platform_verifier lib sni_names name ≡ ok (chosen sni_names platform name)
  unfolding platform_verifier chosen
  platform_verifier-chosen [] name b h = rw (b) refl
  platform_verifier-chosen (n ∷ ns) name b h = rw (b) (wrap_named platform name h)

  roots_verifier-chosen :
      (sni_names : List Text) (certs : List Certificate) (name : Text)
      → lib.builds (roots certs) ≡ true
      → IsName name
      → roots_verifier lib sni_names certs name ≡ ok (chosen sni_names (roots certs) name)
  unfolding roots_verifier chosen
  roots_verifier-chosen [] certs name b h = refl
  roots_verifier-chosen (n ∷ ns) certs name b h = rw (b) (wrap_named (roots certs) name h)

  connect-name :
      (v : Verifier) (o : Option Text) (n : Text) (p : Presented)
      → o ≡ some n
      → IsName n
      → connect lib v o p ≡ verify_server_cert lib v p n
  unfolding connect
  connect-name v o n p e h = ap (λ o. connect lib v o p) e ∙ rw (h) refl

  connect-chosen :
      (sni_names : List Text) (t : Trust) (name : Text) (rotation : ℕ) (p : Presented)
      → All IsName sni_names
      → IsName name
      → connect lib (chosen sni_names t name) (select_sni_name sni_names name rotation).name p
        ≡ lib.verifies t p name
  unfolding chosen verify_server_cert select_sni_name
  connect-chosen [] t name rotation p all h = connect-name (plain t) (some name) name p refl h
  connect-chosen (m ∷ ns) t name rotation p all h =
      let (n, e, k) = selected-IsName (m ∷ ns) name rotation all h in
      connect-name (custom_sni t name) (select_sni_name (m ∷ ns) name rotation).name n p e k

  insecure-accepts :
      (sni_names : List Text) (rotation : ℕ) (p : Presented)
      → All IsName sni_names
      → IsName localhost
      → connect lib insecure (select_sni_name sni_names localhost rotation).name p ≡ true
  unfolding verify_server_cert
  insecure-accepts sni_names rotation p all h =
      let (n, e, k) = selected-IsName sni_names localhost rotation all h in
      connect-name insecure (select_sni_name sni_names localhost rotation).name n p e k

  -- A verifier for the host, by its result.
  host_config :
      (sni_names : List Text) (t : Trust) (cert_path server_addr : Text) (rotation : ℕ)
      (p : Presented) (r : Result TlsError Verifier)
      → Usable cert_path server_addr sni_names
      → r ≡ ok (chosen sni_names t (domain_of server_addr))
      → under_config lib (named r (domain_of server_addr)) sni_names rotation p
        ≡ lib.verifies t p (domain_of server_addr)
  unfolding under_config
  host_config sni_names t cert_path server_addr rotation p r u e =
      ap (λ r. under_config lib (named r (domain_of server_addr)) sni_names rotation p) e
      ∙ connect-chosen sni_names t (domain_of server_addr) rotation p u.custom_names u.host_name

  no_file :
      (b : Bool) (server_addr : Text) (sni_names : List Text) (rotation : ℕ) (p : Presented)
      → Usable [] server_addr sni_names
      → under_config lib
          (if b
            then ok (insecure, localhost)
            else named
                (platform_verifier lib sni_names (domain_of server_addr))
                (domain_of server_addr))
          sni_names
          rotation
          p
        ≡ (if b then true else lib.verifies platform p (domain_of server_addr))
  unfolding under_config
  no_file true server_addr sni_names rotation p u =
      insecure-accepts sni_names rotation p u.custom_names u.localhost_name
  no_file false server_addr sni_names rotation p u =
      host_config sni_names platform [] server_addr rotation p
        (platform_verifier lib sni_names (domain_of server_addr)) u
        (platform_verifier-chosen sni_names (domain_of server_addr) (u.builds platform by_platform)
          u.host_name)

  with_certificates :
      (b : Bool) (certs : List Certificate) (cert_path server_addr : Text) (sni_names : List Text)
      (rotation : ℕ) (p : Presented)
      → Names lib cert_path (roots certs)
      → Usable cert_path server_addr sni_names
      → under_config lib
          (named
            (if b then roots_verifier lib sni_names certs (domain_of server_addr) else err bad_root)
            (domain_of server_addr))
          sni_names
          rotation
          p
        ≡ (b && lib.verifies (roots certs) p (domain_of server_addr))
  unfolding under_config
  with_certificates true certs cert_path server_addr sni_names rotation p named_roots u =
      host_config sni_names (roots certs) cert_path server_addr rotation p
        (roots_verifier lib sni_names certs (domain_of server_addr)) u
        (roots_verifier-chosen sni_names certs (domain_of server_addr)
          (u.builds (roots certs) named_roots) u.host_name)
  with_certificates false certs cert_path server_addr sni_names rotation p named_roots u = refl

  with_file :
      (o : Option (List Certificate)) (x : ℕ) (cert_path server_addr : Text) (sni_names : List Text)
      (rotation : ℕ) (p : Presented)
      → lib.load_certificates (x ∷ cert_path) ≡ o
      → Usable (x ∷ cert_path) server_addr sni_names
      → under_config lib
          (named (from_file lib sni_names o (domain_of server_addr)) (domain_of server_addr))
          sni_names
          rotation
          p
        ≡ by_certificates o (domain_of server_addr) p
  unfolding under_config from_file
  with_file none x cert_path server_addr sni_names rotation p loaded u = refl
  with_file (some []) x cert_path server_addr sni_names rotation p loaded u = refl
  with_file (some (c ∷ certs)) x cert_path server_addr sni_names rotation p loaded u =
      with_certificates (all_addable lib (c ∷ certs)) (c ∷ certs) (x ∷ cert_path) server_addr
        sni_names rotation p (by_file x cert_path c certs loaded) u

  -- Where the verifier for the configured roots can be built, and the custom SNI names, "localhost"
  -- and the host of the address are names: whichever custom names are set and whichever of them is
  -- on the wire, the certificate that a server shows passes the client's verifier just when it
  -- verifies for the host of the address, against the certificates of the file or the roots of the
  -- platform, or there is no file and the address is an IP address.
  pub accepts-verifies_host :
      (cert_path server_addr : Text) (sni_names : List Text) (rotation : ℕ) (p : Presented)
      → Usable cert_path server_addr sni_names
      → accepts lib cert_path server_addr sni_names rotation p
        ≡ verifies_host cert_path server_addr p
  unfolding accepts parse_client_config_and_domain
  accepts-verifies_host [] server_addr sni_names rotation p u =
      no_file (is_some (lib.parse_socket_addr server_addr)) server_addr sni_names rotation p u
  accepts-verifies_host (x ∷ cert_path) server_addr sni_names rotation p u =
      with_file (lib.load_certificates (x ∷ cert_path)) x cert_path server_addr sni_names rotation p
        refl u
