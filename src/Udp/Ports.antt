-- ===== src/Udp/Ports.antt =====
-- The reply map of a chained UDP channel and the synthetic local addresses that key it:
-- `reserve_channel_local_addr`, `channel_local_addr` and `channel_local_addr_for_port` of
-- src/udp/udp_tunnel.rs. A sender is the number of its channel.
use rstun.Base.{
  ℕ, zero, suc, ◌+◌, ◌%◌, ◌≡◌, refl, Bool, Option, none, some, List, [], ◌∷◌, ◌==◌, if◌then◌else◌,
  Result, ok, err, is_some, arith,
}
use rstun.Net.{SocketAddr, socket_addr_with_unspecified_ip_port}
use rstun.Net.Equality.{addr_eq, addr_eq_iff}

-- `DashMap<SocketAddr, Sender<UdpPacket>>`.
abbrev pub ReplyMap : Type 0
ReplyMap = List (SocketAddr × ℕ)

unfoldable pub get : SocketAddr → ReplyMap → Option ℕ
get k [] = none
get k ((j, v) ∷ m) = if addr_eq j k then some v else get k m

-- `entry.insert`, at a vacant entry.
unfoldable pub insert : SocketAddr → ℕ → ReplyMap → ReplyMap
insert k v m = (k, v) ∷ m

unfoldable pub remove : SocketAddr → ReplyMap → ReplyMap
remove k [] = []
remove k ((j, v) ∷ m) = let rest = remove k m in if addr_eq j k then rest else (j, v) ∷ rest

pub get-insert :
    (k j : SocketAddr) (v : ℕ) (m : ReplyMap)
    → get j (insert k v m) ≡ (if addr_eq k j then some v else get j m)
unfolding get insert
get-insert k j v m = refl

pub get-remove :
    (k j : SocketAddr) (m : ReplyMap) → get j (remove k m) ≡ (if addr_eq k j then none else get j m)
unfolding get remove
get-remove k j [] = ground arith
get-remove k j ((i, w) ∷ m) =
    ground (arith, get-remove k j m, addr_eq_iff i k, addr_eq_iff i j, addr_eq_iff k j)

unfoldable pub channel_local_addr_for_port : ℕ → Bool → SocketAddr
unfolding socket_addr_with_unspecified_ip_port
channel_local_addr_for_port port ipv6 = record (socket_addr_with_unspecified_ip_port ipv6) {
  port = port;
}

-- `next_local_port`, an `AtomicU16`, and the map, which the streams of one connection share.
pub record Ports : Type 0 where
  pub next_local_port : ℕ
  pub reply_map : ReplyMap

pub data ReserveError : Type 0 where
  no_free_address : ReserveError

-- `fetch_add(1)` wraps at 65536.
abbrev pub bump : Ports → Ports
bump s = record s { next_local_port = (s.next_local_port + 1) % 65536 }

-- The rounds that are left of `for _ in 0..u16::MAX`.
unfoldable pub reserve_loop : ℕ → Bool → ℕ → Ports → Result ReserveError SocketAddr × Ports
reserve_loop zero ipv6 reply_tx s = (err no_free_address, s)
reserve_loop (suc rounds) ipv6 reply_tx s =
    let port = s.next_local_port in
    let local_addr = channel_local_addr_for_port port ipv6 in
    let more = reserve_loop rounds ipv6 reply_tx (bump s) in
    if port == 0
    then more
    else if is_some (get local_addr s.reply_map)
    then more
    else (ok local_addr, record (bump s) { reply_map = insert local_addr reply_tx s.reply_map })

unfoldable pub reserve_channel_local_addr :
    Bool → ℕ → Ports → Result ReserveError SocketAddr × Ports
reserve_channel_local_addr ipv6 reply_tx s = reserve_loop 65535 ipv6 reply_tx s

-- The address is reserved at the stream's first datagram, and kept.
unfoldable pub channel_local_addr :
    Option SocketAddr → Bool → ℕ → Ports → Result ReserveError SocketAddr × Ports
channel_local_addr (some local_addr) ipv6 reply_tx s = (ok local_addr, s)
channel_local_addr none ipv6 reply_tx s = reserve_channel_local_addr ipv6 reply_tx s
