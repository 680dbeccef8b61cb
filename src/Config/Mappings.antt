-- ===== src/Config/Mappings.antt =====
-- Tunnel mappings of the command line: `parse_addr_mappings` of src/lib.rs. A mapping is
-- `MODE^SRC^DEST`. `parse_socket_addr` is `str::parse::<SocketAddr>`, a parameter.
use rstun.Base.{
  ℕ, Option, none, some, List, [], ◌∷◌, ◌++◌, if◌then◌else◌, Result, ok, err, ◌>>=◌, ◌>>◌, ensure,
  ◌||◌, is_some,
}
use rstun.Net.{Text, v4, SocketAddr, mode_in, mode_out, UpstreamType, TunnelConfig}
use rstun.Config.Words.{split, parse_u16, text_eq}

pub data ConfigError : Type 0 where
  invalid_mapping_format invalid_tunnel_type invalid_address any_not_allowed : ConfigError
  no_mappings custom_sni_is_ip invalid_custom_sni : ConfigError

-- `TUNNEL_MODE_IN`, `TUNNEL_MODE_OUT`, `ANY`, and the two separators.
abbrev pub word_in : Text
word_in = 73 ∷ 78 ∷ []

abbrev pub word_out : Text
word_out = 79 ∷ 85 ∷ 84 ∷ []

abbrev pub word_any : Text
word_any = 65 ∷ 78 ∷ 89 ∷ []

abbrev pub comma : ℕ
comma = 44

abbrev pub caret : ℕ
caret = 94

-- A port alone is one of the local host.
abbrev pub localhost_port : ℕ → SocketAddr
localhost_port port = record { ip = v4 (127 ∷ 0 ∷ 0 ∷ 1 ∷ []); port = port }

module _ (parse_socket_addr : Text → Option SocketAddr) where
  full_address : Option SocketAddr → Result ConfigError (Option SocketAddr)
  full_address (some a) = ok (some a)
  full_address none = err invalid_address

  port_or_address : Option ℕ → Text → Result ConfigError (Option SocketAddr)
  unfolding full_address
  port_or_address (some port) word = ok (some (localhost_port port))
  port_or_address none word = full_address (parse_socket_addr word)

  unfoldable pub parse_addr : Text → Result ConfigError (Option SocketAddr)
  unfolding port_or_address
  parse_addr word = if text_eq word word_any then ok none else port_or_address (parse_u16 word) word

  tunnel_of : UpstreamType → Text → Option SocketAddr → Option SocketAddr → TunnelConfig
  tunnel_of upstream_type tunnel_mode local_server_addr upstream_addr = record {
    mode = if text_eq tunnel_mode word_in then mode_in else mode_out;
    local_server_addr = local_server_addr;
    upstream = record { upstream_addr = upstream_addr; upstream_type = upstream_type };
  }

  unfoldable pub parse_parts : UpstreamType → List Text → Result ConfigError TunnelConfig
  unfolding tunnel_of
  parse_parts upstream_type (tunnel_mode ∷ src ∷ dest ∷ []) =
      ensure (text_eq tunnel_mode word_out || text_eq tunnel_mode word_in) invalid_tunnel_type
      >> parse_addr src
      >>= λ local_server_addr.
          ensure (is_some local_server_addr) any_not_allowed >> parse_addr dest >>= λ upstream_addr.
          ok (tunnel_of upstream_type tunnel_mode local_server_addr upstream_addr)
  parse_parts upstream_type [] = err invalid_mapping_format
  parse_parts upstream_type (a ∷ []) = err invalid_mapping_format
  parse_parts upstream_type (a ∷ b ∷ []) = err invalid_mapping_format
  parse_parts upstream_type (a ∷ b ∷ c ∷ d ∷ parts) = err invalid_mapping_format

  -- The loop over the mappings, which pushes to `v`.
  unfoldable pub parse_each :
      UpstreamType → List Text → List TunnelConfig → Result ConfigError (List TunnelConfig)
  parse_each upstream_type [] v = ok v
  parse_each upstream_type (mapping ∷ mappings) v =
      parse_parts upstream_type (split caret mapping) >>= λ t.
      parse_each upstream_type mappings (v ++ t ∷ [])

  unfoldable pub parse_addr_mappings :
      Text → UpstreamType → List TunnelConfig → Result ConfigError (List TunnelConfig)
  parse_addr_mappings [] upstream_type v = ok v
  parse_addr_mappings (c ∷ cs) upstream_type v = parse_each upstream_type (split comma (c ∷ cs)) v
