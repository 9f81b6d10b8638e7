-- ===== src/Packet/Whole.antt =====
-- The bytes of a packet in the write buffer: the lines of its header, and its body.
use mtrpc.Base.{
  ℕ, ◌-◌, ◌^◌, ◌%◌, ◌≡◌, ◌<◌, ap, sym, ◌∙◌, arith, Bool, true, false, List, ◌++◌, length,
  length-append, ◌==◌, pos,
}
use mathlib.Core.Path.{subst}
use mtrpc.Ring.{Que, BufferPieces, Iterator, IsAt, IsFilled, next, difference, size_at, set_piece}
use mtrpc.Ring.Distance.{gap, difference_lem}
use mtrpc.Buffer.{IoBuffer, Stream, reset, reserve, align_write_pos, begin_packet, to_uint32}
use mtrpc.Buffer.Socket.{gap_self, same_refl}
use mtrpc.Text.{Bytes}
use mtrpc.Http.{max_header_size}
use mtrpc.Http.Serialize.{serialize_lines}
use mtrpc.Http.Written.{text}
use mtrpc.Http.Runs.{Stands}
use mtrpc.Http.Finish.{gap-Stands}
use mtrpc.Packet.Header.{
  Stands-append, serialize_lines-set_piece, set_piece-same, headed-IsAt, start-IsAt,
  headed-IsFilled, header-Stands,
}
use mtrpc.Packet.{packed, write_header, after_body, after_reserve, write_packet}

-- A text from one position to the end is as long as the way there.
difference-Stands :
    (q : Que) (e it : Iterator) (cs : Bytes)
    → IsFilled q
    → IsAt q e
    → IsAt q it
    → Stands q e it cs e
    → length cs < 2 ^ 32
    → to_uint32 (difference q e it) ≡ length cs
difference-Stands q e it cs full ve v t l =
    let g : gap q e it ≡ length cs =
      omega (arith, (gap-Stands q e full ve t v).1, gap_self q e e (same_refl e)) in
    ap to_uint32 (difference_lem q e it ve v ∙ ap pos g) ∙ small (length cs) l
  where
    small : (n : ℕ) → n < 2 ^ 32 → n % 2 ^ 32 ≡ n
    small n h = omega arith

-- What `SerializeToZeroCopyStream` does, if it succeeds, to a write buffer whose packet starts at
-- `start` and its body at `at`: the bytes of the message stand from there to the new write position,
-- none of them in the piece of the header.
pub record Writes (o : Stream × Bool) (start at : Iterator) (body : Bytes) : Type 0 where
  pub succeeds : o.1 ≡ true
  pub filled : IsFilled o.0.io.que
  pub start_at : IsAt o.0.io.que start
  pub end_at : IsAt o.0.io.que o.0.io.writepos
  pub apart : (o.0.io.writepos.idx == start.idx) ≡ false
  pub stands :
      (p : BufferPieces)
      → Stands (set_piece o.0.io.que start.idx p) o.0.io.writepos at body o.0.io.writepos

module _ (serialize : Stream → Stream × Bool) (lines : ℕ → List Bytes) where
  write_header-whole :
      (o : Stream × Bool) (start : Iterator) (body : Bytes)
      → Writes o start (record { idx = next start.idx; ofs = 0 }) body
      → 0 < length (text (lines (length body)))
      → length (text (lines (length body))) < size_at o.0.io.que start.idx - start.ofs
      → length (text (lines (length body)) ++ body) < 2 ^ 32
      → (w : Stream) × (after_body serialize lines o start
            (record { idx = next start.idx; ofs = 0 })
          ≡ packed w (length body) (length (text (lines (length body)) ++ body)))
        × Stands w.io.que w.io.writepos start (text (lines (length body)) ++ body) w.io.writepos
  unfolding after_body write_header
  write_header-whole o start body w l h k =
      let q = o.0.io.que in
      let e = o.0.io.writepos in
      let ls = lines (length body) in
      let at : Iterator = record { idx = next start.idx; ofs = 0 } in
      let to = record (o.0) { io = record (o.0.io) { que = (serialize_lines ls q start).0 } } in
      let there =
        subst (λ q. Stands q e at body e) (set_piece-same q start.idx) (w.stands (q start.idx)) in
      let n =
        difference-Stands q e at body w.filled w.end_at
          (record { idx_lt = omega arith; ofs_lt = w.filled (next start.idx) (omega arith) }) there
          (omega (arith, length-append (text ls) body)) in
      let all = Stands-append (header-Stands ls q start w.start_at h e l w.apart) (
        subst (λ q. Stands q e at body e) (sym (serialize_lines-set_piece ls q start))
          (w.stands ((serialize_lines ls q start).0 start.idx))) in
      let m =
        difference-Stands (serialize_lines ls q start).0 e start (text ls ++ body)
          (headed-IsFilled ls q start w.start_at h w.filled l)
          (headed-IsAt ls q start w.start_at h e w.apart w.end_at)
          (start-IsAt ls q start w.start_at h l) all k in
      (
        to,
        ap (λ b. after_body serialize lines (o.0, b) start at) w.succeeds
            ∙ ap (write_header serialize lines o.0 start) n
            ∙ ap (packed to (length body)) m,
        all,
      )

  -- A packet in the write buffer, from its start up to the write position: where there is room for
  -- the header, which is not empty and fits into the rest of the piece at the start, and the message
  -- is serialized into other pieces, `write_packet` gives the size of the body and that of all, below
  -- 2^32, and the bytes in the ring are those of the header for a body of that size, and the body.
  pub write_packet-whole :
      (s : Stream) (b : IoBuffer) (body : Bytes)
      → reserve (reset s.io) max_header_size ≡ (b, true)
      → Writes
          (serialize (begin_packet (record s { io = align_write_pos b })))
          b.writepos
          (align_write_pos b).writepos
          body
      → 0 < length (text (lines (length body)))
      → length (text (lines (length body)))
        < size_at
            (serialize (begin_packet (record s { io = align_write_pos b }))).0.io.que
            b.writepos.idx
          - b.writepos.ofs
      → length (text (lines (length body)) ++ body) < 2 ^ 32
      → (w : Stream) × (write_packet serialize lines s
          ≡ packed w (length body) (length (text (lines (length body)) ++ body)))
        × Stands w.io.que w.io.writepos b.writepos
            (text (lines (length body)) ++ body)
            w.io.writepos
  unfolding write_packet after_reserve
  write_packet-whole s b body r w l h k =
      let (t, e, all) =
        write_header-whole (serialize (begin_packet (record s { io = align_write_pos b })))
          b.writepos body w l h k in
      (t, ap (after_reserve serialize lines (record s { io = reset s.io })) r ∙ e, all)
