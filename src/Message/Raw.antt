-- ===== src/Message/Raw.antt =====
-- Datagrams through a stream: `send_raw_to` against `recv_raw_from` of src/tunnel_message.rs.
use rstun.Base.{
  ℕ, suc, ◌<◌, ◌≤◌, ◌^◌, ◌%◌, ◌≡◌, refl, ap, false, List, [], ◌∷◌, ◌++◌, arith, append_assoc,
  append-nil, length, ok, err, le→leb, to_be_bytes, from_be_bytes, length-to_be_bytes,
  from_be_bytes-to_be_bytes, All,
}
use native.Mathlib.Nat.{mod-eq_of_lt}
use rstun.Io.{Reader, End, read_exact}
use rstun.Message.{Writer, read_raw_body, recv_raw_from, send_raw_to}
use rstun.Message.Frames.{read-append}

-- The frame of a datagram: its length on two bytes, and its bytes.
abbrev pub raw_frame : List ℕ → List ℕ
raw_frame bs = to_be_bytes 2 (length bs % 2 ^ 16) ++ bs

pub send_raw_to-raw_frame :
    (w : Writer) (bs : List ℕ)
    → w.broken ≡ false
    → send_raw_to w bs ≡ ok (record { written = w.written ++ raw_frame bs; broken = false })
unfolding send_raw_to
send_raw_to-raw_frame w bs whole = rw whole (
    ap (λ l. ok (record { written = l; broken = false }))
      (append_assoc w.written (to_be_bytes 2 (length bs % 2 ^ 16)) bs))

recv_raw_from-raw_frame :
    (capacity : ℕ) (bs rest : List ℕ) (e : End)
    → length bs < 65536
    → recv_raw_from capacity (record { bytes = raw_frame bs ++ rest; after = e })
      ≡ read_raw_body capacity (length bs) (record { bytes = bs ++ rest; after = e })
unfolding recv_raw_from
recv_raw_from-raw_frame capacity bs rest e h =
    let len = to_be_bytes 2 (length bs % 2 ^ 16) in
    let back : from_be_bytes len ≡ length bs =
      rw (mod-eq_of_lt h) (from_be_bytes-to_be_bytes 2 (length bs) h) in
    rw (append_assoc len bs rest)
      (rw (read-append 2 len (bs ++ rest) e (length-to_be_bytes 2 (length bs % 2 ^ 16))) (rw back))

pub recv_raw_from-raw_frame_fits :
    (capacity : ℕ) (bs rest : List ℕ) (e : End)
    → capacity < 65536
    → length bs ≤ capacity
    → recv_raw_from capacity (record { bytes = raw_frame bs ++ rest; after = e })
      ≡ ok (bs, record { bytes = rest; after = e })
unfolding read_raw_body
recv_raw_from-raw_frame_fits capacity bs rest e word fits =
    rw (recv_raw_from-raw_frame capacity bs rest e (omega arith))
      (rw (le→leb (length bs) capacity fits) (rw (read-append (length bs) bs rest e refl)))

-- The receiving loop of a UDP stream: one datagram a round, until a read fails or times out. The
-- rounds are counted by the fuel.
unfoldable pub recv_datagrams : ℕ → ℕ → Reader → List (List ℕ)
recv_datagrams ℕ.zero capacity r = []
recv_datagrams (ℕ.suc fuel) capacity r = elim (recv_raw_from capacity r) [
  | ok (payload, r1) ↦ payload ∷ recv_datagrams fuel capacity r1
  | err e ↦ []
]

-- The writing loop of a UDP stream: each packet of the queue, until a write fails.
unfoldable pub write_datagrams : Writer → List (List ℕ) → Writer
write_datagrams w [] = w
write_datagrams w (p ∷ ps) = elim (send_raw_to w p) [ ok w1 ↦ write_datagrams w1 ps | err e ↦ w ]

abbrev pub raw_frames : List (List ℕ) → List ℕ
raw_frames [] = []
raw_frames (p ∷ ps) = raw_frame p ++ raw_frames ps

pub write_datagrams-raw_frames :
    (ws : List ℕ) (ps : List (List ℕ))
    → write_datagrams (record { written = ws; broken = false }) ps
      ≡ record { written = ws ++ raw_frames ps; broken = false }
unfolding write_datagrams
write_datagrams-raw_frames ws [] = rw append-nil
write_datagrams-raw_frames ws (p ∷ ps) =
    rw (send_raw_to-raw_frame (record { written = ws; broken = false }) p refl, write_datagrams)
      (rw (write_datagrams-raw_frames (ws ++ raw_frame p) ps)
        (rw (append_assoc ws (raw_frame p) (raw_frames ps))))

recv_datagrams-step :
    (capacity fuel : ℕ) (p : List ℕ) (ps : List (List ℕ)) (e : End)
    → capacity < 65536
    → length p ≤ capacity
    → recv_datagrams fuel capacity (record { bytes = raw_frames ps; after = e }) ≡ ps
    → recv_datagrams (suc fuel) capacity (record { bytes = raw_frames (p ∷ ps); after = e })
      ≡ p ∷ ps
unfolding recv_datagrams
recv_datagrams-step capacity fuel p ps e word small ih =
    rw (recv_raw_from-raw_frame_fits capacity p (raw_frames ps) e word small, recv_datagrams)
      (ap (◌∷◌ p) ih)

pub recv_datagrams-raw_frames :
    (capacity fuel : ℕ) (ps : List (List ℕ)) (e : End)
    → capacity < 65536
    → length ps ≤ fuel
    → All (λ p. length p ≤ capacity) ps
    → recv_datagrams fuel capacity (record { bytes = raw_frames ps; after = e }) ≡ ps
unfolding recv_datagrams recv_raw_from read_exact
recv_datagrams-raw_frames capacity ℕ.zero [] e word enough h = refl
recv_datagrams-raw_frames capacity (ℕ.suc fuel) [] e word enough h = refl
recv_datagrams-raw_frames capacity ℕ.zero (p ∷ ps) e word enough h = absurd (omega arith)
recv_datagrams-raw_frames capacity (ℕ.suc fuel) (p ∷ ps) e word enough (small, h) =
    recv_datagrams-step capacity fuel p ps e word small
      (recv_datagrams-raw_frames capacity fuel ps e word (omega arith) h)

-- Datagrams of at most `capacity` bytes, written one after the other to a whole writer, are read
-- back in order with their boundaries, by a loop with a buffer of `capacity` bytes and at least one
-- round for each of them, however the stream ends behind them.
recv_datagrams-write_datagrams :
    (capacity fuel : ℕ) (ps : List (List ℕ)) (e : End)
    → capacity < 65536
    → length ps ≤ fuel
    → All (λ p. length p ≤ capacity) ps
    → recv_datagrams fuel capacity (record {
      bytes = (write_datagrams (record { written = []; broken = false }) ps).written;
      after = e;
    })
      ≡ ps
recv_datagrams-write_datagrams capacity fuel ps e word enough h =
    rw (write_datagrams-raw_frames [] ps)
      (recv_datagrams-raw_frames capacity fuel ps e word enough h)
