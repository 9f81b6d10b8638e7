-- ===== src/Ring/Sum.antt =====
-- The ring laid out in a line: where each piece begins, and how many bytes there are.
use mtrpc.Base.{
  ℕ, zero, suc, ◌+◌, ◌-◌, ◌≤◌, ◌<◌, ◌≡◌, refl, arith, ap, ◌∙◌, ◌%◌, if◌then◌else◌, ltb,
}
use native.Mathlib.Decide.{dec_lt}
use mtrpc.Ring.{Que, size_at, max_buffer_pieces, Iterator, next, walk, IsAt}

-- The bytes in the first `n` pieces.
abbrev pub offset : Que → ℕ → ℕ
offset q zero = 0
offset q (suc n) = offset q n + size_at q n

unfoldable pub total : Que → ℕ
total q = offset q max_buffer_pieces

-- The place of an iterator in the line.
abbrev pub place : Que → Iterator → ℕ
place q it = offset q it.idx + it.ofs

pub offset-suc : (q : Que) (n : ℕ) → offset q (n + 1) ≡ offset q n + size_at q n
offset-suc q n = ground arith

pub offset_mono : (q : Que) (m n : ℕ) → m ≤ n → offset q m ≤ offset q n
offset_mono q m zero h = let e : m ≡ 0 = omega arith in omega (arith, ap (offset q) e)
offset_mono q m (suc n) h = elim (dec_lt m (suc n)) [
  | yes p ↦ omega (arith, offset_mono q m n (omega arith))
  | no p ↦ let e : m ≡ suc n = omega arith in omega (arith, ap (offset q) e)
]

-- One more step to the right of a piece that is not the last, or round from the last to the first.
pub next_lt : (i : ℕ) → i < 15 → next i ≡ i + 1
next_lt i h = omega arith

pub next_last : (i : ℕ) → i ≡ 15 → next i ≡ 0
next_last i e = omega arith

pub offset-next : (q : Que) (i : ℕ) → i < 15 → offset q (next i) ≡ offset q i + size_at q i
offset-next q i h = ap (offset q) (next_lt i h) ∙ offset-suc q i

-- The place just behind the last piece is the number of bytes.
pub total-last : (q : Que) (i : ℕ) → i ≡ 15 → offset q i + size_at q i ≡ total q
unfolding total
total-last q i e = rw e refl

-- Pieces that stand apart do not overlap in the line.
pub place_lt :
    (q : Que) (a b : Iterator) → a.ofs < size_at q a.idx → a.idx < b.idx → place q a < place q b
place_lt q a b h lt =
    omega (arith, offset-suc q a.idx, offset_mono q (a.idx + 1) b.idx (omega arith))

pub place-lt-total : (q : Que) (a : Iterator) → IsAt q a → place q a < total q
unfolding total
place-lt-total q a v =
    omega (arith, offset-suc q a.idx, offset_mono q (a.idx + 1) max_buffer_pieces (omega arith))

pub piece-le-total : (q : Que) (i : ℕ) → i < max_buffer_pieces → offset q i + size_at q i ≤ total q
unfolding total
piece-le-total q i h =
    omega (arith, offset-suc q i, offset_mono q (i + 1) max_buffer_pieces (omega arith))

-- The loop of `operator -` adds up what lies between two pieces, round the end if need be.
pub walk-offset :
    (f : ℕ) (q : Que) (i e : ℕ)
    → i < max_buffer_pieces
    → e < max_buffer_pieces
    → (e + max_buffer_pieces - i) % max_buffer_pieces < f
    → walk f q i e + offset q i ≡ offset q e + (if ltb e i then total q else 0)
unfolding walk
walk-offset zero q i e hi he h = absurd (omega arith)
walk-offset (suc f) q i e hi he h = elim (dec_lt i 15) [
  | yes p ↦ ground (arith, walk-offset f q (next i) e (omega arith), offset-next q i p, next_lt i p)
  | no p ↦ ground (
    arith,
    walk-offset f q (next i) e (omega arith),
    next_last i (omega arith),
    total-last q i (omega arith),
  )
]
