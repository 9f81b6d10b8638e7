-- ===== src/Buffer/Streams.antt =====
-- The zero-copy streams: chunks handed out, and `BackUp`.
use mtrpc.Base.{
  ℕ, ◌+◌, ◌-◌, ◌≤◌, ◌<◌, ◌≡◌, ◌↔◌, ap, arith, ltb, ◌==◌, ◌&&◌, Bool-cases, inl, inr, false, some,
}
use native.Mathlib.Decide.{dec_lt}
use mtrpc.Ring.{Que, size_at, Iterator, next, advance, IsFilled}
use mtrpc.Ring.Sum.{offset, offset-suc, offset_mono, place_lt, piece-le-total}
use mtrpc.Ring.Advance.{carry_done}
use mtrpc.Ring.BackUp.{retreat_iff}
use mtrpc.Buffer.{
  IoBuffer, Iovec, Stream, is_full, is_empty, IsValid, read_next, skip, write_next, write_back_up,
}
use mtrpc.Buffer.Socket.{used}

advance_near :
    (q : Que) (it : Iterator) (n : ℕ)
    → it.ofs + n < size_at q it.idx
    → advance q it n ≡ record it { ofs = it.ofs + n }
unfolding advance
advance_near q it n h = ground arith

advance_end :
    (q : Que) (it : Iterator) (n : ℕ)
    → IsFilled q
    → 0 < n
    → it.ofs + n ≡ size_at q it.idx
    → advance q it n ≡ record { idx = next it.idx; ofs = 0 }
unfolding advance
advance_end q it n full hn h = ground (
  arith,
  full (next it.idx) (omega arith),
  carry_done (it.ofs + n) q (next it.idx) (it.ofs + n - size_at q it.idx) (omega arith),
)

-- The rest of the read piece is unread, unless the write position stands in it, on the right.
rest-le-used :
    (b : IoBuffer)
    → IsValid b
    → (b.readpos.idx == b.writepos.idx && ltb b.readpos.ofs b.writepos.ofs) ≡ false
    → is_empty b ≡ false
    → size_at b.que b.readpos.idx - b.readpos.ofs ≤ used b
rest-le-used b v far h = elim (dec_lt b.readpos.idx b.writepos.idx) [
  | yes p ↦ ground (
    arith,
    offset-suc b.que b.readpos.idx,
    offset_mono b.que (b.readpos.idx + 1) b.writepos.idx (omega arith),
  )
  | no p ↦ elim (dec_lt b.writepos.idx b.readpos.idx) [
    | yes r ↦ ground (
      arith,
      place_lt b.que b.writepos b.readpos v.write_at.ofs_lt r,
      piece-le-total b.que b.readpos.idx v.read_at.idx_lt,
    )
    | no r ↦
        let e : b.readpos.idx ≡ b.writepos.idx = omega arith in
        ground (arith, e, ap (offset b.que) e, piece-le-total b.que b.readpos.idx v.read_at.idx_lt)
  ]
]

-- `Next` of the reader hands out the bytes at the read position and moves on behind them: the
-- stream is the one that `Skip` of as many bytes leaves.
pub read_next-skip :
    (s : Stream) {t : Stream} {c : Iovec}
    → IsValid s.io
    → read_next s ≡ (t, some c)
    → (c.piece ≡ s.io.readpos.idx)
      × (c.base ≡ s.io.readpos.ofs)
      × (0 < c.len)
      × (c.len ≤ used s.io)
      × (t ≡ skip s c.len)
unfolding read_next skip
read_next-skip s {t} {c} v e = elim (Bool-cases (is_empty s.io)) [
  | inl h ↦ ground arith
  | inr h ↦
      elim (Bool-cases
        (s.io.readpos.idx == s.io.writepos.idx && ltb s.io.readpos.ofs s.io.writepos.ofs)) [
          | inl near ↦ ground (arith, v.write_at, advance_near s.io.que s.io.readpos c.len)
          | inr far ↦ ground (
            arith,
            v.read_at,
            rest-le-used s.io v far h,
            advance_end s.io.que s.io.readpos c.len v.filled,
          )
        ]
]

-- `BackUp` of the writer after `Next` has handed out the rest of the write piece: it returns to
-- `n` bytes before the end of that chunk exactly when the next piece is as large as this one.
pub write_back_up_iff :
    (s : Stream) {t : Stream} {c : Iovec} (n : ℕ)
    → IsValid s.io
    → write_next s ≡ (t, some c)
    → c.base + c.len ≡ size_at s.io.que s.io.writepos.idx
    → 0 < n
    → n ≤ c.len
    → n ≤ size_at s.io.que (next s.io.writepos.idx)
    → ((write_back_up t n).io.writepos
        ≡ record { idx = s.io.writepos.idx; ofs = c.base + c.len - n })
      ↔ (size_at s.io.que s.io.writepos.idx ≡ size_at s.io.que (next s.io.writepos.idx))
unfolding write_next write_back_up
write_back_up_iff s {t} {c} n v e end hn hc hs =
    rw (ends.0, ends.1, end)
      (retreat_iff s.io.que s.io.writepos.idx n v.write_at.idx_lt hn (omega (arith, end)) hs)
  where
    ends :
        (t.io.writepos ≡ record { idx = next s.io.writepos.idx; ofs = 0 }) × (t.io.que ≡ s.io.que)
    ends = elim (Bool-cases (is_full s.io)) [
      | inl h ↦ ground arith
      | inr h ↦
          elim (Bool-cases (
            s.io.readpos.idx == s.io.writepos.idx
            && ltb (s.io.writepos.ofs + 1) s.io.readpos.ofs)) [
              | inl near ↦ ground (arith, v.read_at)
              | inr far ↦ ground arith
            ]
    ]
