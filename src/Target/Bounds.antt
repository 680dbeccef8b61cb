-- ===== src/Target/Bounds.antt =====
-- The targets that the wire format carries: an address with octets of its family, or a UTF-8 host
-- of 1 to 255 bytes, and a 16-bit port.
use rstun.Base.{◌<◌, ◌≤◌, ◌≡◌, true, length}
use rstun.Net.{TunnelTarget, addr, domain, IsAddr}
use rstun.Target.Utf8.{is_utf8}

abbrev pub IsTarget : TunnelTarget → Type 0
IsTarget (addr a) = IsAddr a
IsTarget (domain host port) =
    (0 < length host) × (length host ≤ 255) × (is_utf8 host ≡ true) × (port < 65536)
