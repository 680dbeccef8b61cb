-- ===== src/Target/RoundTrip.antt =====
-- What one end encodes, the other end reads back: src/util/stream_util.rs.
use rstun.Base.{
  none, ℕ, ◌+◌, ◌<◌, ◌≡◌, refl, ap, ◌∙◌, Bool, true, some, List, [], ◌∷◌, ◌++◌, arith, take, drop,
  length, length-append, take-append_eq, drop-append_eq, ok, to_be_bytes, from_be_bytes,
  length-to_be_bytes, from_be_bytes-to_be_bytes,
}
use rstun.Net.{IpAddr, v4, v6, TunnelTarget, addr, domain, IsIp}
use rstun.Io.{Reader, End}
use rstun.Io.Laws.{read_exact-append}
use rstun.Target.{
  encode_tunnel_target, read_bytes, read_tunnel_target_body, read_tunnel_target,
  read_optional_tunnel_target, read_v4_body, read_v6_body, read_domain_body, read_host_and_port,
  read_target_family, read_optional_body,
}
use rstun.Target.Utf8.{is_utf8}
use rstun.Target.Bounds.{IsTarget}

read_bytes-append :
    (n : ℕ) (xs ys : List ℕ) (e : End)
    → length xs ≡ n
    → read_bytes n (record { bytes = xs ++ ys; after = e })
      ≡ ok (xs, record { bytes = ys; after = e })
unfolding read_bytes
read_bytes-append n xs ys e h = rw (← h) (rw (read_exact-append xs ys e))

-- A body of `n` bytes and a port, as the reader splits it.
module _ (n : ℕ) (body : List ℕ) (port : ℕ) (w : length body ≡ n) (h : port < 65536) where
  take-body : take n (body ++ to_be_bytes 2 port) ≡ body
  take-body = take-append_eq n body (to_be_bytes 2 port) w

  drop-body : from_be_bytes (drop n (body ++ to_be_bytes 2 port)) ≡ port
  drop-body =
      ap from_be_bytes (drop-append_eq n body (to_be_bytes 2 port) w)
      ∙ from_be_bytes-to_be_bytes 2 port h

  read-body :
      (rest : List ℕ) (e : End)
      → read_bytes (n + 2) (record { bytes = (body ++ to_be_bytes 2 port) ++ rest; after = e })
        ≡ ok (body ++ to_be_bytes 2 port, record { bytes = rest; after = e })
  read-body rest e =
      read_bytes-append (n + 2) (body ++ to_be_bytes 2 port) rest e
        (omega (arith, length-append body (to_be_bytes 2 port), length-to_be_bytes 2 port))

module _ (rest : List ℕ) (e : End) where
  abbrev reader : List ℕ → Reader
  reader bs = record { bytes = bs ++ rest; after = e }

  abbrev left : Reader
  left = record { bytes = rest; after = e }

  read_v4_body-octets :
      (octets : List ℕ) (port : ℕ)
      → length octets ≡ 4
      → port < 65536
      → read_v4_body (reader (octets ++ to_be_bytes 2 port))
        ≡ ok (addr (record { ip = v4 octets; port = port }), left)
  unfolding read_v4_body
  read_v4_body-octets octets port w h =
      rw (read-body 4 octets port w h rest e)
        (rw (take-body 4 octets port w h, drop-body 4 octets port w h))

  read_v6_body-octets :
      (octets : List ℕ) (port : ℕ)
      → length octets ≡ 16
      → port < 65536
      → read_v6_body (reader (octets ++ to_be_bytes 2 port))
        ≡ ok (addr (record { ip = v6 octets; port = port }), left)
  unfolding read_v6_body
  read_v6_body-octets octets port w h =
      rw (read-body 16 octets port w h rest e)
        (rw (take-body 16 octets port w h, drop-body 16 octets port w h))

  read_host_and_port-host :
      (n : ℕ) (host : List ℕ) (port : ℕ)
      → length host ≡ n
      → is_utf8 host ≡ true
      → port < 65536
      → read_host_and_port n (reader (host ++ to_be_bytes 2 port)) ≡ ok (domain host port, left)
  unfolding read_host_and_port
  read_host_and_port-host n host port w u h =
      rw (read-body n host port w h rest e)
        (rw (take-body n host port w h, drop-body n host port w h) (rw u))

  read_domain_body-host :
      (n : ℕ) (host : List ℕ) (port : ℕ)
      → length host ≡ n
      → 0 < n
      → is_utf8 host ≡ true
      → port < 65536
      → read_domain_body (reader (n ∷ (host ++ to_be_bytes 2 port))) ≡ ok (domain host port, left)
  unfolding read_domain_body
  read_domain_body-host n host port w pos u h =
      rw (read_bytes-append 1 (n ∷ []) ((host ++ to_be_bytes 2 port) ++ rest) e refl)
        (ground (arith, read_host_and_port-host n host port w u h))

  -- The family byte, then the body it announces.
  read_tunnel_target-body :
      (family : ℕ) (body : List ℕ) {t : TunnelTarget}
      → read_tunnel_target_body family (reader body) ≡ ok (t, left)
      → read_tunnel_target (reader (family ∷ body)) ≡ ok (t, left)
  unfolding read_tunnel_target read_target_family
  read_tunnel_target-body family body h =
      rw (read_bytes-append 1 (family ∷ []) (body ++ rest) e refl) h

  read_optional_tunnel_target-body :
      (family : ℕ) (body : List ℕ) {t : TunnelTarget}
      → 0 < family
      → read_tunnel_target_body family (reader body) ≡ ok (t, left)
      → read_optional_tunnel_target (reader (family ∷ body)) ≡ ok (some t, left)
  unfolding read_optional_tunnel_target read_target_family read_optional_body
  read_optional_tunnel_target-body family body pos h =
      rw (read_bytes-append 1 (family ∷ []) (body ++ rest) e refl) (ground arith)

-- The mark of a missing target.
pub read_optional_tunnel_target-none :
    (rest : List ℕ) (e : End)
    → read_optional_tunnel_target (record { bytes = 0 ∷ rest; after = e })
      ≡ ok (none, record { bytes = rest; after = e })
unfolding read_optional_tunnel_target read_target_family read_optional_body
read_optional_tunnel_target-none rest e = rw (read_bytes-append 1 (0 ∷ []) rest e refl) refl

-- The wire bytes of a target: a family byte that is not 0, and a body that reads back.
pub record Wire (t : TunnelTarget) (family : ℕ) (body : List ℕ) : Type 0 where
  pub encoded : (m : Bool) → encode_tunnel_target (some t) m ≡ ok (some (family ∷ body))
  pub marked : 0 < family
  pub decoded :
      (rest : List ℕ) (e : End)
      → read_tunnel_target_body family (record { bytes = body ++ rest; after = e })
        ≡ ok (t, record { bytes = rest; after = e })

encode_tunnel_target-Wire :
    (t : TunnelTarget) → IsTarget t → (family : ℕ) × (body : List ℕ) × Wire t family body
unfolding encode_tunnel_target read_tunnel_target_body
encode_tunnel_target-Wire (addr a) v = addr_wire a.ip a.port v.0 v.1
  where
    addr_wire :
        (ip : IpAddr) (port : ℕ)
        → IsIp ip
        → port < 65536
        → (family : ℕ) × (body : List ℕ) × Wire (addr (record { ip = ip; port = port })) family body
    addr_wire (v4 octets) port w h = (
      4,
      octets ++ to_be_bytes 2 port,
      record {
        encoded = λ m. refl;
        marked = omega arith;
        decoded = λ rest e. read_v4_body-octets rest e octets port w.0 h;
      },
    )
    addr_wire (v6 octets) port w h = (
      6,
      octets ++ to_be_bytes 2 port,
      record {
        encoded = λ m. refl;
        marked = omega arith;
        decoded = λ rest e. read_v6_body-octets rest e octets port w.0 h;
      },
    )
encode_tunnel_target-Wire (domain host port) (pos, short, u, h) = (
  3,
  length host ∷ (host ++ to_be_bytes 2 port),
  record {
    encoded = λ m. ground arith;
    marked = omega arith;
    decoded = λ rest e. read_domain_body-host rest e (length host) host port refl pos u h;
  },
)

-- A target within the bounds of the wire format is encoded, whether or not an absent target is
-- marked. From its bytes, whatever follows them and however the stream ends, both readers return
-- that target and leave exactly what follows.
pub read_tunnel_target-encode_tunnel_target :
    (t : TunnelTarget) (m : Bool) (rest : List ℕ) (e : End)
    → IsTarget t
    → (bs : List ℕ) × (encode_tunnel_target (some t) m ≡ ok (some bs))
      × (read_tunnel_target (record { bytes = bs ++ rest; after = e })
          ≡ ok (t, record { bytes = rest; after = e }))
      × (read_optional_tunnel_target (record { bytes = bs ++ rest; after = e })
          ≡ ok (some t, record { bytes = rest; after = e }))
read_tunnel_target-encode_tunnel_target t m rest e v =
    let (family, body, w) = encode_tunnel_target-Wire t v in
    (
      family ∷ body,
      w.encoded m,
      read_tunnel_target-body rest e family body (w.decoded rest e),
      read_optional_tunnel_target-body rest e family body w.marked (w.decoded rest e),
    )
