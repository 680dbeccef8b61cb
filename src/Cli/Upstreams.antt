-- ===== src/Cli/Upstreams.antt =====
-- The upstream addresses of the server's command line, src/bin/rstun.rs.
use rstun.Base.{ℕ, ◌≡◌, refl, ap, ◌∙◌, true, false, Option, some, [], ◌∷◌, ◌++◌, ok, arith}
use rstun.Net.{Text, SocketAddr, UpstreamType}
use rstun.Config.Words.{contains}
use rstun.Config.Create.{localhost_prefix}
use rstun.Cli.{
  unspecified_prefix, colon, starts_with, replace_from, upstream_text, parse_upstreams, parsed,
}

starts_with-contains :
    (p t : Text) (c : ℕ) → contains c p ≡ true → contains c t ≡ false → starts_with p t ≡ false
unfolding starts_with contains
starts_with-contains [] t c h k = cc
starts_with-contains (q ∷ p) [] c h k = refl
starts_with-contains (q ∷ p) (d ∷ t) c h k = grind (arith, starts_with-contains p t c)

prefix_contains : contains colon unspecified_prefix ≡ true
unfolding contains
prefix_contains = refl

contains-tail : (c d : ℕ) (t : Text) → contains c (d ∷ t) ≡ false → contains c t ≡ false
unfolding contains
contains-tail c d t h = ground (arith)

replace_from-no_colon :
    (from to t : Text)
    → contains colon from ≡ true
    → contains colon t ≡ false
    → replace_from from to 0 t ≡ t
unfolding replace_from
replace_from-no_colon from to [] k h = refl
replace_from-no_colon from to (c ∷ t) k h =
    rw (starts_with-contains from (c ∷ t) colon k h, replace_from)
      (ap (◌∷◌ c) (replace_from-no_colon from to t k (contains-tail colon c t h)))

module _ (parse_socket_addr : Text → Option SocketAddr) where
  port_text :
      (port : Text)
      → contains colon port ≡ false
      → upstream_text parse_socket_addr port ≡ localhost_prefix ++ port
  unfolding upstream_text
  port_text port h =
      rw (starts_with-contains unspecified_prefix port colon prefix_contains h, h, upstream_text)
        refl

  unspecified_text :
      (port : Text)
      → contains colon port ≡ false
      → upstream_text parse_socket_addr (unspecified_prefix ++ port) ≡ localhost_prefix ++ port
  unfolding upstream_text replace_from contains
  unspecified_text port h =
      ap (λ t. localhost_prefix ++ t)
        (replace_from-no_colon unspecified_prefix localhost_prefix port prefix_contains h)

  -- A port without a colon in its text, which with the loopback address is the address `a`: alone, and
  -- behind the unspecified address, it makes `a` the upstream.
  parse_upstreams-port :
      (u : UpstreamType) (c : ℕ) (cs : Text) (a : SocketAddr)
      → contains colon (c ∷ cs) ≡ false
      → parse_socket_addr (localhost_prefix ++ c ∷ cs) ≡ some a
      → (parse_upstreams parse_socket_addr u (c ∷ cs) ≡ ok (some a))
        × (parse_upstreams parse_socket_addr u (unspecified_prefix ++ c ∷ cs) ≡ ok (some a))
  unfolding parse_upstreams parsed
  parse_upstreams-port u c cs a h k = (
    ap (λ t. parsed parse_socket_addr u (c ∷ cs) (parse_socket_addr t)) (port_text (c ∷ cs) h)
        ∙ ap (parsed parse_socket_addr u (c ∷ cs)) k,
    ap (λ t. parsed parse_socket_addr u (unspecified_prefix ++ c ∷ cs) (parse_socket_addr t))
          (unspecified_text (c ∷ cs) h)
        ∙ ap (parsed parse_socket_addr u (unspecified_prefix ++ c ∷ cs)) k,
  )
