-- ===== src/Message/Frames.antt =====
-- Control messages through a stream: `send_to` against `recv_from` of src/tunnel_message.rs.
use rstun.Base.{
  ℕ, ◌<◌, ◌≤◌, ◌^◌, ◌%◌, ◌≡◌, refl, ap, false, some, List, ◌++◌, arith, append_assoc, length, ok,
  err, le→leb, to_be_bytes, from_be_bytes, length-to_be_bytes, from_be_bytes-to_be_bytes,
}
use native.Mathlib.Nat.{mod-eq_of_lt}
use rstun.Io.{End}
use rstun.Io.Laws.{read_exact-append}
use rstun.Message.{
  TunnelMessage, Bincode, IsRoundTrip, too_large, Writer, read, read_message_body, recv_from,
  send_to,
}

pub read-append :
    (n : ℕ) (xs ys : List ℕ) (e : End)
    → length xs ≡ n
    → read n (record { bytes = xs ++ ys; after = e }) ≡ ok (xs, record { bytes = ys; after = e })
read-append n xs ys e h = rw (← h) (rw (read_exact-append xs ys e))

-- The frame of a message: its length on four bytes, and its bytes.
abbrev pub frame : List ℕ → List ℕ
frame bs = to_be_bytes 4 (length bs % 2 ^ 32) ++ bs

send_to-frame :
    (b : Bincode) (w : Writer) (m : TunnelMessage) (bs : List ℕ)
    → w.broken ≡ false
    → b.encode m ≡ some bs
    → send_to b w m ≡ ok (record { written = w.written ++ frame bs; broken = false })
unfolding send_to
send_to-frame b w m bs whole e = rw e (
    rw whole (
      ap (λ l. ok (record { written = l; broken = false }))
        (append_assoc w.written (to_be_bytes 4 (length bs % 2 ^ 32)) bs)))

length-of-frame :
    (bs : List ℕ)
    → length bs < 2 ^ 32
    → from_be_bytes (to_be_bytes 4 (length bs % 2 ^ 32)) ≡ length bs
length-of-frame bs h = rw (mod-eq_of_lt h) (from_be_bytes-to_be_bytes 4 (length bs) (omega arith))

module _ (b : Bincode) (bs rest : List ℕ) (e : End) where
  recv_from-frame :
      length bs < 2 ^ 32
      → recv_from b (record { bytes = frame bs ++ rest; after = e })
        ≡ read_message_body b (length bs) (record { bytes = bs ++ rest; after = e })
  unfolding recv_from
  recv_from-frame h = rw (append_assoc (to_be_bytes 4 (length bs % 2 ^ 32)) bs rest) (
      rw
        (read-append 4 (to_be_bytes 4 (length bs % 2 ^ 32)) (bs ++ rest) e
          (length-to_be_bytes 4 (length bs % 2 ^ 32)))
        (rw (length-of-frame bs h)))

-- A message whose bytes number 65536 at most is written to a whole writer as its length and its
-- bytes, behind what was written before. A reader at which those arrive returns that message and
-- leaves what follows them.
pub recv_from-send_to :
    (b : Bincode) (w : Writer) (m : TunnelMessage) (bs rest : List ℕ) (e : End)
    → IsRoundTrip b
    → w.broken ≡ false
    → b.encode m ≡ some bs
    → length bs ≤ 65536
    → (send_to b w m ≡ ok (record { written = w.written ++ frame bs; broken = false }))
      × (recv_from b (record { bytes = frame bs ++ rest; after = e })
          ≡ ok (m, record { bytes = rest; after = e }))
unfolding read_message_body
recv_from-send_to b w m bs rest e law whole encoded small = (
  send_to-frame b w m bs whole encoded,
  rw (recv_from-frame b bs rest e (omega arith)) (
      rw (le→leb (length bs) 65536 small)
        (rw (read-append (length bs) bs rest e refl) (rw (law.decode-encode m bs encoded)))),
)

-- The limit of 65536 bytes is checked by the receiver only: a longer message, below 2 ^ 32 bytes, is
-- sent without an error, and the receiver refuses it by its length, whatever its bytes decode to.
recv_from_oversized :
    (b : Bincode) (w : Writer) (m : TunnelMessage) (bs rest : List ℕ) (e : End)
    → w.broken ≡ false
    → b.encode m ≡ some bs
    → 65536 < length bs
    → length bs < 2 ^ 32
    → (send_to b w m ≡ ok (record { written = w.written ++ frame bs; broken = false }))
      × (recv_from b (record { bytes = frame bs ++ rest; after = e }) ≡ err (too_large (length bs)))
unfolding read_message_body
recv_from_oversized b w m bs rest e whole encoded large fits =
    (send_to-frame b w m bs whole encoded, rw (recv_from-frame b bs rest e fits) (ground arith))
