-- ===== src/Ring/Advance.antt =====
-- `operator +=` and `operator ++` are addition modulo the size of the ring.
use mtrpc.Base.{
  ℕ, zero, suc, ◌+◌, ◌-◌, ◌%◌, ◌≤◌, ◌<◌, ◌≡◌, ◌⊎◌, ap, ◌∙◌, sym, arith, inl, inr, leb-true,
}
use native.Mathlib.Decide.{dec_lt}
use native.Mathlib.Nat.{mod-eq_of_lt, mod-eq-sub-mod}
use mtrpc.Ring.{
  Que, size_at, max_buffer_pieces, Iterator, next, carry, advance, increment, IsAt, IsFilled,
}
use mtrpc.Ring.Sum.{
  offset, total, place, place_lt, place-lt-total, offset-next, total-last, next_last,
}
use mtrpc.Ring.Distance.{around, gap}

-- What the loop of `operator +=` reaches: a position in the ring, at the sum modulo its size.
record Carries (q : Que) (sum : ℕ) (it : Iterator) : Type 0 where
  at : IsAt q it
  placed : place q it ≡ sum % total q

Carries-mod :
    (q : Que) (it : Iterator) (s t : ℕ)
    → s % total q ≡ t % total q
    → Carries q s it
    → Carries q t it
Carries-mod q it s t e c = record { at = c.at; placed = c.placed ∙ e }

-- Going on to the next piece leaves the sum as it is, or takes one round from it.
next-mod :
    (q : Que) (i p : ℕ)
    → i < max_buffer_pieces
    → size_at q i ≤ p
    → (offset q (next i) + (p - size_at q i)) % total q ≡ (offset q i + p) % total q
next-mod q i p hi h = elim (dec_lt i 15) [
  | yes l ↦ ap (λ x. x % total q) (omega (arith, offset-next q i l))
  | no l ↦
      let end : offset q i + size_at q i ≡ total q = total-last q i (omega arith) in
      ap (λ x. x % total q) (omega (arith, end, ap (offset q) (next_last i (omega arith))))
      ∙ sym (mod-eq-sub-mod {n = offset q i + p} {m = total q} (omega (arith, end)))
]

pub carry_done :
    (f : ℕ) (q : Que) (i p : ℕ)
    → 0 < f
    → p < size_at q i
    → carry f q i p ≡ record { idx = i; ofs = p }
unfolding carry
carry_done zero q i p hf h = absurd (omega arith)
carry_done (suc f) q i p hf h = ground arith

module _ (q : Que) (full : IsFilled q) where
  carry_lem :
      (f i p : ℕ) → i < max_buffer_pieces → p < f → Carries q (offset q i + p) (carry f q i p)
  unfolding carry
  carry_lem zero i p hi h = absurd (omega arith)
  carry_lem (suc f) i p hi h = elim (dec_lt p (size_at q i)) [
    | yes s ↦
        let v : IsAt q (record { idx = i; ofs = p }) = record { idx_lt = hi; ofs_lt = s } in
        ground (arith, v, sym (mod-eq_of_lt (place-lt-total q (record { idx = i; ofs = p }) v)))
    | no s ↦
        let h' : size_at q i ≤ p = omega arith in
        rw (leb-true _ _ h') (
          Carries-mod q _ _ _ (next-mod q i p hi h')
            (carry_lem f (next i) (p - size_at q i) (omega arith) (omega (arith, full i hi))))
  ]

  -- In a ring without empty pieces, `it += n` from a position of the ring ends, at a position of the
  -- ring: `n` bytes on, modulo the size of the ring.
  pub advance_lem :
      (it : Iterator) (n : ℕ)
      → IsAt q it
      → IsAt q (advance q it n) × (place q (advance q it n) ≡ (place q it + n) % total q)
  unfolding advance
  advance_lem it n v =
      let c = carry_lem (suc (it.ofs + n)) it.idx (it.ofs + n) v.idx_lt (omega arith) in
      (c.at, c.placed ∙ ap (λ x. x % total q) (omega arith))

  pub advance-IsAt : (it : Iterator) (n : ℕ) → IsAt q it → IsAt q (advance q it n)
  advance-IsAt it n v = (advance_lem it n v).0

  -- `++it` is `it += 1`.
  pub increment-advance : (it : Iterator) → IsAt q it → increment q it ≡ advance q it 1
  unfolding increment advance carry
  increment-advance it v = ground (
    arith,
    v.ofs_lt,
    full (next it.idx) (omega arith),
    carry_done (it.ofs + 1) q (next it.idx) (it.ofs + 1 - size_at q it.idx) (omega arith),
  )

mod-cases : (x t : ℕ) → x < t + t → ((x % t ≡ x) × (x < t)) ⊎ ((x % t ≡ x - t) × (t ≤ x))
mod-cases x t h = elim (dec_lt x t) [
  | yes p ↦ inl (mod-eq_of_lt p, p)
  | no p ↦ inr (
    mod-eq-sub-mod {n = x} {m = t} (omega arith) ∙ mod-eq_of_lt {n = x - t} {m = t} (omega arith),
    omega arith,
  )
]

around-add :
    (t a b n : ℕ)
    → a < t
    → b < t
    → around t a b + n < t
    → around t ((a + n) % t) b ≡ around t a b + n
around-add t a b n ha hb h = elim (mod-cases (a + n) t (ground arith)) [
  | inl (e, l) ↦ rw e (ground arith)
  | inr (e, l) ↦ rw e (ground arith)
]

around-round : (t a b n : ℕ) → a < t → b < t → around t a b + n ≡ t → (a + n) % t ≡ b
around-round t a b n ha hb h = elim (mod-cases (a + n) t (ground arith)) [
  | inl (e, l) ↦ rw e (ground arith)
  | inr (e, l) ↦ rw e (ground arith)
]

-- Going on by less than what is missing to the round lengthens the gap by as much.
pub gap-advance :
    (q : Que) (a b : Iterator) (n : ℕ)
    → IsFilled q
    → IsAt q a
    → IsAt q b
    → gap q a b + n < total q
    → gap q (advance q a n) b ≡ gap q a b + n
gap-advance q a b n full va vb h =
    rw (advance_lem q full a n va).1
      (around-add (total q) _ _ n (place-lt-total q a va) (place-lt-total q b vb) h)

-- A position is determined by its place in the line.
pub place-injective :
    (q : Que) (a b : Iterator) → IsAt q a → IsAt q b → place q a ≡ place q b → a ≡ b
place-injective q a b va vb e = elim (dec_lt a.idx b.idx) [
  | yes p ↦ absurd (omega (arith, place_lt q a b va.ofs_lt p))
  | no p ↦ elim (dec_lt b.idx a.idx) [
    | yes r ↦ absurd (omega (arith, place_lt q b a vb.ofs_lt r))
    | no r ↦
        let i : a.idx ≡ b.idx = omega arith in
        let o : a.ofs ≡ b.ofs = omega (arith, ap (offset q) i) in
        λ k. record { idx = i k; ofs = o k }
  ]
]

-- Going on by exactly what is missing to the round comes back to `b`.
pub advance-round :
    (q : Que) (a b : Iterator) (n : ℕ)
    → IsFilled q
    → IsAt q a
    → IsAt q b
    → gap q a b + n ≡ total q
    → advance q a n ≡ b
advance-round q a b n full va vb h = place-injective q _ b (advance-IsAt q full a n va) vb (
    (advance_lem q full a n va).1
    ∙ around-round (total q) _ _ n (place-lt-total q a va) (place-lt-total q b vb) h)

around-sub :
    (t a b n : ℕ) → a < t → b < t → n ≤ around t b a → around t b ((a + n) % t) + n ≡ around t b a
around-sub t a b n ha hb h = elim (mod-cases (a + n) t (ground arith)) [
  | inl (e, l) ↦ rw e (ground arith)
  | inr (e, l) ↦ rw e (ground arith)
]

-- Bringing the rear end on by no more than the gap shortens the gap by as much.
pub gap-advance_rear :
    (q : Que) (a b : Iterator) (n : ℕ)
    → IsFilled q
    → IsAt q a
    → IsAt q b
    → n ≤ gap q b a
    → gap q b (advance q a n) + n ≡ gap q b a
gap-advance_rear q a b n full va vb h =
    rw (advance_lem q full a n va).1
      (around-sub (total q) _ _ n (place-lt-total q a va) (place-lt-total q b vb) h)
