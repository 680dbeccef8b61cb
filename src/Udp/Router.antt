-- ===== src/Udp/Router.antt =====
-- The replies of a chained UDP channel: `spawn_channel_reply_router` of src/udp/udp_tunnel.rs.
use rstun.Base.{ℕ, ◌<◌, ◌≡◌, ◌≢◌, Bool, Option, none, some, List, [], ◌∷◌, ok, ap, subst, ◌∙◌}
use rstun.Net.{SocketAddr}
use rstun.UdpServer.{UdpPacket, UdpMessage, packet, quit}
use rstun.Udp.Ports.{ReplyMap, get, Ports, reserve_channel_local_addr}
use rstun.Udp.Reserve.{Reserved, Outcome, reserve_channel_local_addr-Outcome}

-- A packet that went to a stream's sender.
pub record Delivery : Type 0 where
  pub reply_tx : ℕ
  pub content : UdpPacket

route_to : Option ℕ → UdpPacket → List Delivery → List Delivery
route_to (some reply_tx) p rest = record { reply_tx = reply_tx; content = p } ∷ rest
route_to none p rest = rest

-- The messages of the channel, each with the reply map at the time it is read.
unfoldable pub reply_router : List (ReplyMap × UdpMessage) → List Delivery
unfolding route_to
reply_router [] = []
reply_router ((m, packet p) ∷ messages) =
    let rest = reply_router messages in route_to (get p.local_addr m) p rest
reply_router ((m, quit) ∷ messages) = []

reserved :
    (ipv6 : Bool) (reply_tx : ℕ) (s s' : Ports) (a : SocketAddr)
    → s.next_local_port < 65536
    → reserve_channel_local_addr ipv6 reply_tx s ≡ (ok a, s')
    → Reserved ipv6 reply_tx s a s'
reserved ipv6 reply_tx s s' a lt e =
    subst (Outcome 65535 ipv6 reply_tx s) e (reserve_channel_local_addr-Outcome ipv6 reply_tx s lt)

router_delivers :
    (m : ReplyMap) (reply_tx : ℕ) (p : UdpPacket) (messages : List (ReplyMap × UdpMessage))
    → get p.local_addr m ≡ some reply_tx
    → reply_router ((m, packet p) ∷ messages)
      ≡ record { reply_tx = reply_tx; content = p } ∷ reply_router messages
unfolding reply_router route_to
router_delivers m reply_tx p messages e = ap (λ o. route_to o p (reply_router messages)) e

-- When two streams reserve local addresses one after the other, in a state whose counter is a
-- 16-bit number, the addresses differ, and a reply to the first address goes to the first stream
-- only and a reply to the second to the second stream only.
reply_router-reserve :
    (ipv6 ipv6' : Bool) (tx tx' : ℕ) (s s' s'' : Ports) (a a' : SocketAddr) (p p' : UdpPacket)
    → s.next_local_port < 65536
    → reserve_channel_local_addr ipv6 tx s ≡ (ok a, s')
    → reserve_channel_local_addr ipv6' tx' s' ≡ (ok a', s'')
    → p.local_addr ≡ a
    → p'.local_addr ≡ a'
    → (a ≢ a')
      × (reply_router ((s''.reply_map, packet p) ∷ (s''.reply_map, packet p') ∷ [])
          ≡ record { reply_tx = tx; content = p } ∷ record { reply_tx = tx'; content = p' } ∷ [])
unfolding reply_router
reply_router-reserve ipv6 ipv6' tx tx' s s' s'' a a' p p' lt e e' q q' =
    let first = reserved ipv6 tx s s' a lt e in
    let second = reserved ipv6' tx' s' s'' a' first.next_in_range e' in
    let differ : a ≢ a' = λ same. cc (first.mapped, second.was_free, same) in
    (
      differ,
      router_delivers s''.reply_map tx p ((s''.reply_map, packet p') ∷ [])
            (ap (λ k. get k s''.reply_map) q ∙ second.others a differ ∙ first.mapped)
          ∙ ap (λ l. record { reply_tx = tx; content = p } ∷ l)
              (router_delivers s''.reply_map tx' p' []
                (ap (λ k. get k s''.reply_map) q' ∙ second.mapped)),
    )
