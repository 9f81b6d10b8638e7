-- ===== src/Ring/BackUp.antt =====
-- `operator -=`, which `BackUp` of both streams is: when it undoes a step forward.
use mtrpc.Base.{ℕ, zero, suc, ◌+◌, ◌-◌, ◌≤◌, ◌<◌, ◌≡◌, ◌↔◌, ap, ◌∙◌, sym, arith}
use native.Mathlib.Decide.{dec_lt}
use mtrpc.Ring.{
  Que, size_at, max_buffer_pieces, Iterator, next, prev, carry, advance, borrow, retreat, IsAt,
}
use mtrpc.Ring.Advance.{carry_done}

pub prev-next : (i : ℕ) → i < max_buffer_pieces → prev (next i) ≡ i
prev-next i h = omega arith

-- A borrow that one piece can pay for.
borrow_once :
    (f : ℕ) (q : Que) (i d : ℕ)
    → 0 < f
    → d ≤ size_at q i
    → borrow f q i d ≡ record { idx = prev i; ofs = size_at q i - d }
unfolding borrow
borrow_once zero q i d hf h = absurd (omega arith)
borrow_once (suc f) q i d hf h = ground arith

-- Backing up by `n` from the start of a piece, behind a chunk that ended piece `i`.
pub retreat_start :
    (q : Que) (i n : ℕ)
    → i < max_buffer_pieces
    → 0 < n
    → n ≤ size_at q (next i)
    → retreat q (record { idx = next i; ofs = 0 }) n
      ≡ record { idx = i; ofs = size_at q (next i) - n }
unfolding retreat
retreat_start q i n hi hn h = ground (arith, borrow_once n q (next i) n hn h, prev-next i hi)

-- After `Next` has handed out the rest of piece `i`, backing up by `n` bytes of it returns to
-- `n` bytes before the end of piece `i` exactly when the next piece has the same size.
pub retreat_iff :
    (q : Que) (i n : ℕ)
    → i < max_buffer_pieces
    → 0 < n
    → n ≤ size_at q i
    → n ≤ size_at q (next i)
    → (retreat q (record { idx = next i; ofs = 0 }) n ≡ record { idx = i; ofs = size_at q i - n })
      ↔ (size_at q i ≡ size_at q (next i))
retreat_iff q i n hi hn h k = (
  λ e. omega (arith, ap Iterator.ofs (sym (retreat_start q i n hi hn k) ∙ e)),
  λ e. retreat_start q i n hi hn k ∙ (λ j. record { idx = i; ofs = sym e j - n }),
)

-- With pieces of one size, `-=` undoes `+=` by up to a piece.
pub retreat-advance :
    (q : Que) (s : ℕ) (it : Iterator) (n : ℕ)
    → ((i : ℕ) → size_at q i ≡ s)
    → IsAt q it
    → n ≤ s
    → retreat q (advance q it n) n ≡ it
unfolding retreat advance carry
retreat-advance q s it n even v h = elim (dec_lt (it.ofs + n) s) [
  | yes p ↦ ground (arith, even it.idx)
  | no p ↦ ground (
    arith,
    even it.idx,
    even (next it.idx),
    v.ofs_lt,
    v.idx_lt,
    carry_done (it.ofs + n) q (next it.idx) (it.ofs + n - s) (omega (arith, v.ofs_lt, even it.idx))
        (omega (arith, v.ofs_lt, even it.idx, even (next it.idx))),
    borrow_once n q (next it.idx) (s - it.ofs) (omega (arith, v.ofs_lt, even it.idx))
        (omega (arith, even (next it.idx))),
    prev-next it.idx v.idx_lt,
  )
]
