-- ===== src/Message/Examples.antt =====
-- A small encoder in the place of `bincode`, and the framing theorems at concrete messages.
use rstun.Base.{
  ℕ, ◌≡◌, refl, false, true, Option, none, some, List, [], ◌∷◌, ◌++◌, arith, ltb, if◌then◌else◌, ok,
}
use rstun.Io.{stall}
use rstun.Message.{
  TunnelMessage, req_login, req_heartbeat, resp_heartbeat, resp_failure, resp_success, Bincode,
  IsRoundTrip, Writer, recv_from, send_to,
}
use rstun.Message.Frames.{frame, recv_from-send_to}

-- Heartbeats below 251 and failure texts, the variant's index first.
abbrev pub small_encode : TunnelMessage → Option (List ℕ)
small_encode (req_heartbeat n) = if ltb n 251 then some (1 ∷ n ∷ []) else none
small_encode (resp_heartbeat n) = if ltb n 251 then some (2 ∷ n ∷ []) else none
small_encode (resp_failure msg) = some (3 ∷ msg)
small_encode (req_login info) = none
small_encode (resp_success caps) = none

abbrev pub small_decode : List ℕ → Option TunnelMessage
small_decode [] = none
small_decode (tag ∷ rest) = elim (ltb tag 2) [
  | true ↦ elim rest [ [] ↦ none | n ∷ more ↦ some (req_heartbeat n) ]
  | false ↦ elim (ltb tag 3) [
    | true ↦ elim rest [ [] ↦ none | n ∷ more ↦ some (resp_heartbeat n) ]
    | false ↦ some (resp_failure rest)
  ]
]

abbrev pub small : Bincode
small = record { encode = small_encode; decode = small_decode }

small_decode-small_encode :
    (m : TunnelMessage) (bs : List ℕ) → small_encode m ≡ some bs → small_decode bs ≡ some m
small_decode-small_encode (req_heartbeat n) bs h = ground arith
small_decode-small_encode (resp_heartbeat n) bs h = ground arith
small_decode-small_encode (resp_failure msg) bs h = ground arith
small_decode-small_encode (req_login info) bs h = cc
small_decode-small_encode (resp_success caps) bs h = cc

pub small-IsRoundTrip : IsRoundTrip small
small-IsRoundTrip = record { decode-encode = small_decode-small_encode }

abbrev fresh : Writer
fresh = record { written = []; broken = false }

recv_from-send_to_example :
    (send_to small fresh (req_heartbeat 7)
      ≡ ok (record { written = [] ++ frame (1 ∷ 7 ∷ []); broken = false }))
    × (recv_from small (record { bytes = frame (1 ∷ 7 ∷ []) ++ 9 ∷ []; after = stall })
        ≡ ok (req_heartbeat 7, record { bytes = 9 ∷ []; after = stall }))
recv_from-send_to_example =
    recv_from-send_to small fresh (req_heartbeat 7) (1 ∷ 7 ∷ []) (9 ∷ []) stall small-IsRoundTrip
      refl refl (omega arith)
