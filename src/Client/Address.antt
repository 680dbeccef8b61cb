-- ===== src/Client/Address.antt =====
-- The server's address: `parse_server_addr` and `filter_name_servers` of src/client.rs. The
-- `SocketAddr` parser and the DNS lookups are parameters; a lookup is given the domain, the DoT
-- server and the name servers.
use rstun.Base.{
  ℕ, ◌≡◌, refl, ap, Bool, true, false, Option, none, some, List, [], ◌∷◌, ◌++◌, if◌then◌else◌,
  retain, ◌==◌, Result, ok, err, All, arith,
}
use rstun.Net.{Text, IpAddr, v4, v6, SocketAddr}
use rstun.Config.Mappings.{comma}
use rstun.Config.Words.{split, parse_u16, contains}

abbrev pub default_server_port : ℕ
default_server_port = 3515

pub data AddressError : Type 0 where
  invalid_address unresolved : AddressError

prepend : ℕ → Option (Text × Text) → Text → Option (Text × Text)
prepend c (some (before, after)) rest = some (c ∷ before, after)
prepend c none rest = if c == 58 then some ([], rest) else none

-- The text before the last colon and behind it, by `rfind`.
unfoldable pub split_at_last_colon : Text → Option (Text × Text)
unfolding prepend
split_at_last_colon [] = none
split_at_last_colon (c ∷ cs) = prepend c (split_at_last_colon cs) cs

module _ (parse_socket_addr : Text → Option SocketAddr)
    (lookup_server_ip : Text → Text → List Text → Option IpAddr) where
  or_else : Option IpAddr → Option IpAddr → Option IpAddr
  or_else (some ip) later = some ip
  or_else none later = later

  -- The DoT servers in order, then the configured name servers, then the system's resolver.
  unfoldable pub lookup_by_dot : Text → List Text → Option IpAddr
  unfolding or_else
  lookup_by_dot domain [] = none
  lookup_by_dot domain (dot ∷ dots) =
      or_else (lookup_server_ip domain dot []) (lookup_by_dot domain dots)

  resolved : Option IpAddr → ℕ → Result AddressError SocketAddr
  resolved (some ip) port = ok (record { ip = ip; port = port })
  resolved none port = err unresolved

  resolve : Text → ℕ → List Text → List Text → Result AddressError SocketAddr
  unfolding or_else resolved
  resolve domain port dot_servers dns_servers =
      resolved
        (or_else (lookup_by_dot domain dot_servers)
          (or_else (lookup_server_ip domain [] dns_servers) (lookup_server_ip domain [] [])))
        port

  with_port : Text → Option ℕ → List Text → List Text → Result AddressError SocketAddr
  unfolding resolve
  with_port domain none dot_servers dns_servers = err invalid_address
  with_port domain (some port) dot_servers dns_servers = resolve domain port dot_servers dns_servers

  by_domain : Text → Option (Text × Text) → List Text → List Text → Result AddressError SocketAddr
  unfolding with_port resolve
  by_domain addr none dot_servers dns_servers =
      resolve addr default_server_port dot_servers dns_servers
  by_domain addr (some (domain, port)) dot_servers dns_servers =
      with_port domain (parse_u16 port) dot_servers dns_servers

  parsed_or : Option SocketAddr → Text → List Text → List Text → Result AddressError SocketAddr
  unfolding by_domain
  parsed_or (some a) addr dot_servers dns_servers = ok a
  parsed_or none addr dot_servers dns_servers =
      by_domain addr (split_at_last_colon addr) dot_servers dns_servers

  unfoldable pub parse_server_addr : Text → List Text → List Text → Result AddressError SocketAddr
  unfolding parsed_or
  parse_server_addr server_addr dot_servers dns_servers =
      parsed_or (parse_socket_addr server_addr) server_addr dot_servers dns_servers

-- Name servers that are IPv6 addresses go when the server has no IPv6; `parse_ip` is
-- `str::parse::<IpAddr>`.
keeps : Option IpAddr → Bool
keeps none = true
keeps (some (v4 octets)) = true
keeps (some (v6 octets)) = false

unfoldable pub filter_name_servers :
    (parse_ip : Text → Option IpAddr) → List Text → Bool → List Text
unfolding keeps
filter_name_servers parse_ip name_servers ipv6_supported =
    if ipv6_supported then name_servers else retain (λ e. keeps (parse_ip e)) name_servers

-- "domain:port" with no colon in the port is cut at that colon.
split-no_colon : (cs : Text) → contains 58 cs ≡ false → split_at_last_colon cs ≡ none
unfolding split_at_last_colon contains prepend
split-no_colon [] h = refl
split-no_colon (c ∷ cs) h = ground (arith, split-no_colon cs, h)

split-last_colon :
    (domain port : Text)
    → contains 58 port ≡ false
    → split_at_last_colon (domain ++ 58 ∷ port) ≡ some (domain, port)
unfolding split_at_last_colon prepend
split-last_colon [] port h = ap (λ o. prepend 58 o port) (split-no_colon port h)
split-last_colon (c ∷ cs) port h =
    ap (λ o. prepend c o (cs ++ 58 ∷ port)) (split-last_colon cs port h)

module _ (parse_socket_addr : Text → Option SocketAddr)
    (lookup_server_ip : Text → Text → List Text → Option IpAddr) where
  lookup_by_dot-first :
      (domain dot : Text) (before after : List Text) (ip : IpAddr)
      → All (λ d. lookup_server_ip domain d [] ≡ none) before
      → lookup_server_ip domain dot [] ≡ some ip
      → lookup_by_dot parse_socket_addr lookup_server_ip domain (before ++ dot ∷ after) ≡ some ip
  unfolding lookup_by_dot or_else
  lookup_by_dot-first domain dot [] after ip h e = rw e
  lookup_by_dot-first domain dot (b ∷ before) after ip h e =
      rw (h.0, lookup_by_dot-first domain dot before after ip h.1 e)

-- For a server given as "domain:port", which is no socket address, with a number as its port, the
-- address is that of the first DoT server that answers, with the port, whatever the later DoT
-- servers, the name servers and the system's resolver would say.
parse_server_addr-first_dot :
    (parse_socket_addr : Text → Option SocketAddr)
    (lookup_server_ip : Text → Text → List Text → Option IpAddr) (domain port dot : Text)
    (before after dns_servers : List Text) (n : ℕ) (ip : IpAddr)
    → parse_socket_addr (domain ++ 58 ∷ port) ≡ none
    → contains 58 port ≡ false
    → parse_u16 port ≡ some n
    → All (λ d. lookup_server_ip domain d [] ≡ none) before
    → lookup_server_ip domain dot [] ≡ some ip
    → parse_server_addr parse_socket_addr lookup_server_ip
        (domain ++ 58 ∷ port)
        (before ++ dot ∷ after)
        dns_servers
      ≡ ok (record { ip = ip; port = n })
unfolding parse_server_addr parsed_or by_domain with_port resolve or_else resolved
parse_server_addr-first_dot parse_socket_addr lookup_server_ip domain port dot before after
      dns_servers n ip no_socket no_colon number silent e =
    rw (
      no_socket,
      split-last_colon domain port no_colon,
      number,
      lookup_by_dot-first parse_socket_addr lookup_server_ip domain dot before after ip silent e,
    )

-- With no DoT server configured, the list of them has the one empty name, so that the system's
-- resolver, when it answers, decides before the configured name servers are asked.
parse_server_addr-no_dot :
    (parse_socket_addr : Text → Option SocketAddr)
    (lookup_server_ip : Text → Text → List Text → Option IpAddr) (domain port : Text)
    (dns_servers : List Text) (n : ℕ) (ip : IpAddr)
    → parse_socket_addr (domain ++ 58 ∷ port) ≡ none
    → contains 58 port ≡ false
    → parse_u16 port ≡ some n
    → lookup_server_ip domain [] [] ≡ some ip
    → parse_server_addr parse_socket_addr lookup_server_ip
        (domain ++ 58 ∷ port)
        (split comma [])
        dns_servers
      ≡ ok (record { ip = ip; port = n })
unfolding split
parse_server_addr-no_dot parse_socket_addr lookup_server_ip domain port dns_servers n ip no_socket
      no_colon number e =
    parse_server_addr-first_dot parse_socket_addr lookup_server_ip domain port [] [] [] dns_servers
      n ip no_socket no_colon number tt e
