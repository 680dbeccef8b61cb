-- ===== src/Target/Examples.antt =====
-- The wire format at concrete targets, and the theorems of the target codec at them.
use rstun.Base.{
  ℕ, ◌≡◌, refl, ◌⊎◌, ◌≢◌, true, none, some, List, [], ◌∷◌, ◌++◌, arith, ok, err, to_be_bytes,
  from_be_bytes,
}
use rstun.Net.{v4, TunnelTarget, addr, domain}
use rstun.Io.{eof, stall, read_exact}
use rstun.Target.{
  encode_tunnel_target, read_tunnel_target, read_optional_tunnel_target, read_tunnel_target_body,
  read_bytes, timeout_error, internal_error, invalid_domain, invalid_ip_family,
}
use rstun.Target.Utf8.{is_utf8}
use rstun.Target.Bounds.{IsTarget}
use rstun.Target.RoundTrip.{read_tunnel_target-encode_tunnel_target}
use rstun.Target.Sound.{read_tunnel_target_sound}
use rstun.Target.Errors.{read_tunnel_target-FailsAs}

-- "rs.io" at port 443.
abbrev host_target : TunnelTarget
host_target = domain (b'r' ∷ b's' ∷ b'.' ∷ b'i' ∷ b'o' ∷ []) 443

abbrev host_bytes : List ℕ
host_bytes = 3 ∷ 5 ∷ b'r' ∷ b's' ∷ b'.' ∷ b'i' ∷ b'o' ∷ 1 ∷ 187 ∷ []

host_target-IsTarget : IsTarget host_target
unfolding is_utf8
host_target-IsTarget = (omega arith, omega arith, refl, omega arith)

encode_host : encode_tunnel_target (some host_target) true ≡ ok (some host_bytes)
unfolding encode_tunnel_target to_be_bytes
encode_host = refl

-- 198.18.0.7:443.
encode_v4 :
    encode_tunnel_target (some (addr (record { ip = v4 (198 ∷ 18 ∷ 0 ∷ 7 ∷ []); port = 443 }))) true
    ≡ ok (some (4 ∷ 198 ∷ 18 ∷ 0 ∷ 7 ∷ 1 ∷ 187 ∷ []))
unfolding encode_tunnel_target to_be_bytes
encode_v4 = refl

-- A host that is not UTF-8.
read_bad_utf8 :
    read_tunnel_target (record { bytes = 3 ∷ 2 ∷ 0xff ∷ 0xfe ∷ 0 ∷ 80 ∷ []; after = eof })
    ≡ err invalid_domain
unfolding read_tunnel_target read_bytes read_exact is_utf8
read_bad_utf8 = refl

read_none :
    read_optional_tunnel_target (record { bytes = 0 ∷ 7 ∷ []; after = eof })
    ≡ ok (none, record { bytes = 7 ∷ []; after = eof })
unfolding read_optional_tunnel_target read_bytes read_exact
read_none = refl

read_tunnel_target-encode_tunnel_target_example :
    (bs : List ℕ) × (encode_tunnel_target (some host_target) true ≡ ok (some bs))
    × (read_tunnel_target (record { bytes = bs ++ 9 ∷ []; after = eof })
        ≡ ok (host_target, record { bytes = 9 ∷ []; after = eof }))
    × (read_optional_tunnel_target (record { bytes = bs ++ 9 ∷ []; after = eof })
        ≡ ok (some host_target, record { bytes = 9 ∷ []; after = eof }))
read_tunnel_target-encode_tunnel_target_example =
    read_tunnel_target-encode_tunnel_target host_target true (9 ∷ []) eof host_target-IsTarget

read_host :
    read_tunnel_target (record { bytes = host_bytes; after = eof })
    ≡ ok (host_target, record { bytes = []; after = eof })
unfolding read_tunnel_target read_tunnel_target_body read_bytes read_exact is_utf8 from_be_bytes
read_host = refl

read_tunnel_target_sound_example :
    IsTarget host_target
    × ((bs : List ℕ) × (encode_tunnel_target (some host_target) true ≡ ok (some bs))
        × (host_bytes ≡ bs ++ [])
        × (eof ≡ eof))
read_tunnel_target_sound_example =
    read_tunnel_target_sound (record { bytes = host_bytes; after = eof }) true (omega arith)
      read_host

-- A stream that stalls in the middle of an address.
read_stalled :
    read_tunnel_target (record { bytes = 4 ∷ 127 ∷ 0 ∷ []; after = stall }) ≡ err timeout_error
unfolding read_tunnel_target read_tunnel_target_body read_bytes read_exact
read_stalled = refl

read_tunnel_target-FailsAs_example :
    (((stall ≡ stall) × (timeout_error ≡ timeout_error))
      ⊎ ((stall ≢ stall) × (timeout_error ≡ internal_error)))
    ⊎ (timeout_error ≡ invalid_domain)
    ⊎ (timeout_error ≡ invalid_ip_family)
read_tunnel_target-FailsAs_example =
    read_tunnel_target-FailsAs (record { bytes = 4 ∷ 127 ∷ 0 ∷ []; after = stall }) read_stalled
