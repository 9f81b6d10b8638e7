-- ===== src/Packet/Fails.antt =====
-- The making of a packet where the message does not serialize.
use mtrpc.Base.{ℕ, ◌≡◌, refl, Bool, true, false, List}
use mtrpc.Ring.{Iterator}
use mtrpc.Buffer.{IoBuffer, Stream, reset, reserve}
use mtrpc.Text.{Bytes}
use mtrpc.Http.{max_header_size}
use mtrpc.Packet.{Packet, packed, after_body, after_reserve, write_packet}

-- The packet is written.
abbrev pub is_packed : Packet → Bool
is_packed (packed w n size) = true
is_packed _ = false

-- No packet is written of a message that does not serialize.
pub write_packet-fails :
    (ser : Stream → Stream × Bool) (lines : ℕ → List Bytes) (s : Stream)
    → ((t : Stream) → (ser t).1 ≡ false)
    → is_packed (write_packet ser lines s) ≡ false
unfolding write_packet
write_packet-fails ser lines s h = reserved (reserve (reset s.io) max_header_size)
  where
    bodied :
        (o : Stream × Bool) (a b : Iterator)
        → o.1 ≡ false
        → is_packed (after_body ser lines o a b) ≡ false
    bodied (t, false) a b k = refl
    bodied (t, true) a b k = absurd cc

    reserved :
        (r : IoBuffer × Bool)
        → is_packed (after_reserve ser lines (record s { io = reset s.io }) r) ≡ false
    reserved (b, false) = refl
    reserved (b, true) = bodied _ _ _ (h _)
