-- ===== src/Config/RoundTrip.antt =====
-- Mappings written in the form `MODE^SRC^DEST`, with commas between them, and read again by
-- `parse_addr_mappings` of src/lib.rs.
use rstun.Base.{
  ℕ, ◌≡◌, ◌∙◌, refl, false, Option, none, some, List, [], ◌∷◌, ◌++◌, map, append_assoc, append-nil,
  ok, ◌>>=◌, All, sym, ap, arith,
}
use rstun.Net.{Text, SocketAddr, TunnelMode, mode_in, mode_out, UpstreamType, TunnelConfig}
use rstun.Config.Create.{is_empty}
use rstun.Config.Words.{split, contains, parse_u16, text_eq, join, split-join}
use rstun.Config.Mappings.{
  parse_addr, parse_parts, parse_each, parse_addr_mappings, word_in, word_out, word_any, comma,
  caret,
}

-- A mapping as it is meant.
pub record Mapping : Type 0 where
  pub mode : TunnelMode
  pub src : SocketAddr
  pub dest : Option SocketAddr

abbrev pub tunnel : UpstreamType → Mapping → TunnelConfig
tunnel u m = record {
  mode = m.mode;
  local_server_addr = some m.src;
  upstream = record { upstream_addr = m.dest; upstream_type = u };
}

abbrev word_of : TunnelMode → Text
word_of mode_in = word_in
word_of mode_out = word_out

mode-no_caret : (d : TunnelMode) → contains caret (word_of d) ≡ false
unfolding contains
mode-no_caret mode_in = refl
mode-no_caret mode_out = refl

mode-no_comma : (d : TunnelMode) → contains comma (word_of d) ≡ false
unfolding contains
mode-no_comma mode_in = refl
mode-no_comma mode_out = refl

contains-append :
    (c : ℕ) (xs ys : Text)
    → contains c xs ≡ false
    → contains c ys ≡ false
    → contains c (xs ++ ys) ≡ false
unfolding contains
contains-append c [] ys hx hy = hy
contains-append c (x ∷ xs) ys hx hy = ground (arith, contains-append c xs ys, hx, hy)

contains-join_caret :
    (xs ys : Text)
    → contains comma xs ≡ false
    → contains comma ys ≡ false
    → contains comma (xs ++ caret ∷ ys) ≡ false
unfolding contains
contains-join_caret xs ys hx hy = contains-append comma xs (caret ∷ ys) hx (ground (arith, hy))

module _ (parse_socket_addr : Text → Option SocketAddr) (show_addr : SocketAddr → Text) where
  -- An address that is printed as a text which the parser reads back, is no number, is not `ANY`,
  -- and has no separator in it.
  pub record IsPrinted (a : SocketAddr) : Type 0 where
    pub parses : parse_socket_addr (show_addr a) ≡ some a
    pub no_number : parse_u16 (show_addr a) ≡ none
    pub not_any : text_eq (show_addr a) word_any ≡ false
    pub no_comma : contains comma (show_addr a) ≡ false
    pub no_caret : contains caret (show_addr a) ≡ false

  abbrev pub show_dest : Option SocketAddr → Text
  show_dest none = word_any
  show_dest (some a) = show_addr a

  abbrev IsPrintedDest : Option SocketAddr → Type 0
  IsPrintedDest none = Unit
  IsPrintedDest (some a) = IsPrinted a

  abbrev pub show_mapping : Mapping → Text
  show_mapping m = join caret (word_of m.mode) (show_addr m.src ∷ show_dest m.dest ∷ [])

  abbrev pub IsPrintedMapping : Mapping → Type 0
  IsPrintedMapping m = IsPrinted m.src × IsPrintedDest m.dest

  parse_addr-show_addr :
      (a : SocketAddr) → IsPrinted a → parse_addr parse_socket_addr (show_addr a) ≡ ok (some a)
  unfolding parse_addr
  parse_addr-show_addr a h = rw (h.not_any, h.no_number, h.parses)

  parse_addr-show_dest :
      (d : Option SocketAddr) → IsPrintedDest d → parse_addr parse_socket_addr (show_dest d) ≡ ok d
  unfolding parse_addr text_eq
  parse_addr-show_dest none h = refl
  parse_addr-show_dest (some a) h = parse_addr-show_addr a h

  dest-no_caret : (d : Option SocketAddr) → IsPrintedDest d → contains caret (show_dest d) ≡ false
  unfolding contains
  dest-no_caret none h = refl
  dest-no_caret (some a) h = h.no_caret

  split-show_mapping :
      (m : Mapping)
      → IsPrintedMapping m
      → split caret (show_mapping m) ≡ word_of m.mode ∷ show_addr m.src ∷ show_dest m.dest ∷ []
  split-show_mapping m h =
      split-join caret (word_of m.mode) (show_addr m.src ∷ show_dest m.dest ∷ [])
        (mode-no_caret m.mode) (h.0.no_caret, (dest-no_caret m.dest h.1, tt))

  parse_parts-words :
      (u : UpstreamType) (mode : TunnelMode) (src : SocketAddr) (dest : Option SocketAddr)
      → parse_addr parse_socket_addr (show_addr src) ≡ ok (some src)
      → parse_addr parse_socket_addr (show_dest dest) ≡ ok dest
      → parse_parts parse_socket_addr u (word_of mode ∷ show_addr src ∷ show_dest dest ∷ [])
        ≡ ok (tunnel u (record { mode = mode; src = src; dest = dest }))
  unfolding parse_parts text_eq
  parse_parts-words u mode_in src dest hs hd = rw (hs, hd)
  parse_parts-words u mode_out src dest hs hd = rw (hs, hd)

  parse_parts-show_mapping :
      (u : UpstreamType) (m : Mapping)
      → IsPrintedMapping m
      → parse_parts parse_socket_addr u (split caret (show_mapping m)) ≡ ok (tunnel u m)
  parse_parts-show_mapping u m h =
      ap (parse_parts parse_socket_addr u) (split-show_mapping m h)
      ∙ parse_parts-words u m.mode m.src m.dest (parse_addr-show_addr m.src h.0)
          (parse_addr-show_dest m.dest h.1)

  parse_each-show_mapping :
      (u : UpstreamType) (ms : List Mapping) (v : List TunnelConfig)
      → All IsPrintedMapping ms
      → parse_each parse_socket_addr u (map show_mapping ms) v ≡ ok (v ++ map (tunnel u) ms)
  unfolding parse_each
  parse_each-show_mapping u [] v h = ap ok (sym (append-nil v))
  parse_each-show_mapping u (m ∷ ms) v h =
      ap (λ r. r >>= λ t. parse_each parse_socket_addr u (map show_mapping ms) (v ++ t ∷ []))
        (parse_parts-show_mapping u m h.0)
      ∙ parse_each-show_mapping u ms (v ++ tunnel u m ∷ []) h.1
      ∙ ap ok (append_assoc v (tunnel u m ∷ []) (map (tunnel u) ms))

  dest-no_comma : (d : Option SocketAddr) → IsPrintedDest d → contains comma (show_dest d) ≡ false
  unfolding contains
  dest-no_comma none h = refl
  dest-no_comma (some a) h = h.no_comma

  show_mapping-no_comma :
      (m : Mapping) → IsPrintedMapping m → contains comma (show_mapping m) ≡ false
  unfolding join
  show_mapping-no_comma m h =
      contains-join_caret (word_of m.mode) (show_addr m.src ++ caret ∷ show_dest m.dest)
        (mode-no_comma m.mode)
        (contains-join_caret (show_addr m.src) (show_dest m.dest) h.0.no_comma
          (dest-no_comma m.dest h.1))

  mappings_without_comma :
      (ms : List Mapping)
      → All IsPrintedMapping ms
      → All (λ p. contains comma p ≡ false) (map show_mapping ms)
  mappings_without_comma [] h = tt
  mappings_without_comma (m ∷ ms) h = (show_mapping-no_comma m h.0, mappings_without_comma ms h.1)

  abbrev pub show_mappings : Mapping → List Mapping → Text
  show_mappings m ms = join comma (show_mapping m) (map show_mapping ms)

-- A text with a head is not the empty one, which has no mapping.
not_empty :
    (parse_socket_addr : Text → Option SocketAddr) (u : UpstreamType) (word : Text)
    (v : List TunnelConfig)
    → is_empty word ≡ false
    → parse_addr_mappings parse_socket_addr word u v
      ≡ parse_each parse_socket_addr u (split comma word) v
unfolding parse_addr_mappings
not_empty parse_socket_addr u [] v h = cc
not_empty parse_socket_addr u (c ∷ cs) v h = refl

join-not_empty :
    (sep : ℕ) (mode : TunnelMode) (rest : Text) (ms : List Text)
    → is_empty (join sep (word_of mode ++ rest) ms) ≡ false
unfolding join
join-not_empty sep mode_in rest [] = refl
join-not_empty sep mode_in rest (m ∷ ms) = refl
join-not_empty sep mode_out rest [] = refl
join-not_empty sep mode_out rest (m ∷ ms) = refl

-- When the printer and the parser of addresses agree on the addresses of the mappings, and the
-- printed addresses are no numbers, are not `ANY` and have no separator, then the mappings, written
-- one after the other, are read back as the same tunnels in the same order, behind those that are there.
pub parse_addr_mappings-show_mappings :
    (parse_socket_addr : Text → Option SocketAddr) (show_addr : SocketAddr → Text)
    (u : UpstreamType) (m : Mapping) (ms : List Mapping) (v : List TunnelConfig)
    → All (IsPrintedMapping parse_socket_addr show_addr) (m ∷ ms)
    → parse_addr_mappings parse_socket_addr (show_mappings parse_socket_addr show_addr m ms) u v
      ≡ ok (v ++ map (tunnel u) (m ∷ ms))
unfolding join
parse_addr_mappings-show_mappings parse_socket_addr show_addr u m ms v h =
    not_empty parse_socket_addr u (show_mappings parse_socket_addr show_addr m ms) v
      (join-not_empty comma m.mode _ (map (show_mapping parse_socket_addr show_addr) ms))
    ∙ ap (λ l. parse_each parse_socket_addr u l v)
        (split-join comma (show_mapping parse_socket_addr show_addr m)
          (map (show_mapping parse_socket_addr show_addr) ms)
          (show_mapping-no_comma parse_socket_addr show_addr m h.0)
          (mappings_without_comma parse_socket_addr show_addr ms h.1))
    ∙ parse_each-show_mapping parse_socket_addr show_addr u (m ∷ ms) v h
