-- ===== src/Buffer/Reset.antt =====
-- `Reset`: which pieces get their whole size back.
use mtrpc.Base.{
  ℕ, zero, suc, ◌+◌, ◌-◌, ◌%◌, ◌<◌, ◌≡◌, ◌≢◌, arith, if◌then◌else◌, leb, ltb, ◌==◌, ◌&&◌, Bool,
  Bool-cases, inl, inr, not,
}
use native.Mathlib.Decide.{ℕ_discrete}
use mtrpc.Ring.{Que, size_at, set_size, max_buffer_pieces, default_buffer_size, next}
use mtrpc.Buffer.{IoBuffer, is_full, reset_sizes, reset}

-- How many pieces on from `i` piece `j` is.
abbrev pub steps : ℕ → ℕ → ℕ
steps i j = (j + max_buffer_pieces - i) % max_buffer_pieces

-- The loop gives its whole size to each piece from `i` up to, not including, piece `e`.
size_at-reset_sizes :
    (f : ℕ) (q : Que) (i e j : ℕ)
    → i < max_buffer_pieces
    → e < max_buffer_pieces
    → j < max_buffer_pieces
    → steps i e < f
    → size_at (reset_sizes f q i e) j
      ≡ (if ltb (steps i j) (steps i e) then default_buffer_size else size_at q j)
unfolding reset_sizes
size_at-reset_sizes zero q i e j hi he hj h = absurd (omega arith)
size_at-reset_sizes (suc f) q i e j hi he hj h = elim (ℕ_discrete i e) [
  | yes p ↦ ground arith
  | no p ↦ ground (
    arith,
    size_at-reset_sizes f (set_size q i default_buffer_size) (next i) e j (omega arith) he hj
        (omega arith),
  )
]

-- Piece `j` holds nothing but unread bytes up to its end: it stands behind the read piece, and
-- not behind the write piece.
abbrev pub is_kept : IoBuffer → ℕ → Bool
is_kept b j =
    not (j == b.readpos.idx) && leb (steps b.readpos.idx j) (steps b.readpos.idx b.writepos.idx)

rounds :
    (r w j : ℕ)
    → r < max_buffer_pieces
    → w < max_buffer_pieces
    → j < max_buffer_pieces
    → j ≢ r
    → (ltb (steps (next w) j) (steps (next w) r)) ≡ not (leb (steps r j) (steps r w))
rounds r w j hr hw hj h = ground arith

-- `Reset` changes nothing while the writer is left of the reader in the same piece. Otherwise
-- every piece gets its whole size back but those behind the read piece up to the write piece.
pub reset_lem :
    (b : IoBuffer) (j : ℕ)
    → b.readpos.idx < max_buffer_pieces
    → b.writepos.idx < max_buffer_pieces
    → j < max_buffer_pieces
    → size_at (reset b).que j ≡ (
        if b.readpos.idx == b.writepos.idx && ltb b.writepos.ofs b.readpos.ofs
        then size_at b.que j
        else if is_kept b j
        then size_at b.que j
        else default_buffer_size)
unfolding reset
reset_lem b j hr hw hj = elim (Bool-cases (is_full b)) [
  | inl full ↦ rw full (ground arith)
  | inr part ↦
      rw part
        (elim (Bool-cases (b.readpos.idx == b.writepos.idx && ltb b.writepos.ofs b.readpos.ofs)) [
          | inl left ↦ rw left
          | inr far ↦ rw far (elim (ℕ_discrete j b.readpos.idx) [
            | yes e ↦ ground arith
            | no e ↦ ground (
              arith,
              size_at-reset_sizes max_buffer_pieces b.que (next b.writepos.idx) b.readpos.idx j
                  (omega arith) hr hj (omega arith),
              rounds b.readpos.idx b.writepos.idx j hr hw hj e,
            )
          ])
        ])
]
