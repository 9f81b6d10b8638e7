-- ===== src/Ring/Distance.antt =====
-- `operator -` measures the way round the ring from one position to another.
use mtrpc.Base.{ℕ, ◌+◌, ◌-◌, ◌≡◌, ap, arith, if◌then◌else◌, leb, ltb, pos}
use native.Mathlib.Decide.{dec_lt}
use mtrpc.Ring.{Que, size_at, max_buffer_pieces, Iterator, next, walk, difference, IsAt}
use mtrpc.Ring.Sum.{
  offset, total, place, place_lt, place-lt-total, offset-next, total-last, walk-offset, next_lt,
  next_last,
}

-- From `b` forward to `a` on a circle of `t` places.
abbrev pub around : ℕ → ℕ → ℕ → ℕ
around t a b = if leb b a then a - b else a + t - b

-- How many bytes lie from position `b` forward to position `a`, round the end if need be.
abbrev pub gap : Que → Iterator → Iterator → ℕ
gap q a b = around (total q) (place q a) (place q b)

-- What the far branch of `operator -` adds up.
abbrev pub far_sum : Que → Iterator → Iterator → ℕ
far_sum q a b = size_at q b.idx + walk max_buffer_pieces q (next b.idx) a.idx + a.ofs

module _ (q : Que) (a b : Iterator) (va : IsAt q a) (vb : IsAt q b) where
  -- The sum in one equation: it is the place of `a` less the start of `b`'s piece, with a whole
  -- round added if `a` does not stand in a piece behind that of `b`.
  pub far_sum-place :
      far_sum q a b + offset q b.idx ≡ place q a + (if ltb b.idx a.idx then 0 else total q)
  far_sum-place = elim (dec_lt b.idx 15) [
    | yes p ↦ ground (
      arith,
      va.idx_lt,
      vb.idx_lt,
      walk-offset max_buffer_pieces q (next b.idx) a.idx (omega arith) va.idx_lt (omega arith),
      offset-next q b.idx p,
      next_lt b.idx p,
    )
    | no p ↦ ground (
      arith,
      va.idx_lt,
      vb.idx_lt,
      walk-offset max_buffer_pieces q (next b.idx) a.idx (omega arith) va.idx_lt (omega arith),
      next_last b.idx (omega (arith, vb.idx_lt)),
      total-last q b.idx (omega (arith, vb.idx_lt)),
    )
  ]

  -- For two positions of the ring, `a - b` is the number of bytes from `b` forward to `a`, and
  -- never negative.
  pub difference_lem : difference q a b ≡ pos (gap q a b)
  unfolding difference
  difference_lem = elim (dec_lt b.idx a.idx) [
    | yes p ↦ ground (arith, far_sum-place, place_lt q b a vb.ofs_lt p, vb.ofs_lt)
    | no p ↦ elim (dec_lt a.idx b.idx) [
      | yes r ↦
          ground
            (arith, far_sum-place, place_lt q a b va.ofs_lt r, place-lt-total q b vb, vb.ofs_lt)
      | no r ↦
          let e : a.idx ≡ b.idx = omega arith in
          ground (arith, far_sum-place, ap (offset q) e, place-lt-total q b vb, vb.ofs_lt)
    ]
  ]
