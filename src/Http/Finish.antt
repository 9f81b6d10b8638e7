-- ===== src/Http/Finish.antt =====
-- The end of the loop of the parsers: the last byte of a header, and what stays unread.
use mtrpc.Base.{
  ℕ, zero, suc, ◌+◌, ◌≡◌, ◌≤◌, ◌<◌, refl, ap, sym, ◌∙◌, arith, Bool, true, false, ◌∷◌, ◌++◌, length,
  Bool-cases, inl, inr,
}
use mtrpc.Ring.{Que, Iterator, IsAt, IsFilled, same, increment, deref}
use mtrpc.Ring.Sum.{total, place, place-lt-total}
use mtrpc.Ring.Distance.{around, gap}
use mtrpc.Text.{Bytes}
use mtrpc.Http.Feed.{Outcome, more, feed}
use mtrpc.Http.Unread.{unread, length-unread, increment-IsAt, gap-increment, gap_pos, gap-le-total}
use mtrpc.Http.Runs.{
  Runs, Stands, here, byte, unread-Starts, feed_step, feed-Runs, nil-cons, head_same, at_end,
}
use mtrpc.Http.Overflow.{unread_more}

-- From `it` to `at` and from there to `e` is the way from `it` to `e`, if the second is no longer.
pub gap_between :
    (q : Que) (e at it : Iterator)
    → IsAt q e
    → IsAt q at
    → IsAt q it
    → gap q e at ≤ gap q e it
    → gap q at it + gap q e at ≡ gap q e it
gap_between q e at it ve va vi h =
    around_between (total q) (place q e) (place q at) (place q it) (place-lt-total q e ve)
      (place-lt-total q at va) (place-lt-total q it vi) h
  where
    around_between :
        (t z x y : ℕ)
        → z < t
        → x < t
        → y < t
        → around t z x ≤ around t z y
        → around t x y + around t z x ≡ around t z y
    around_between t z x y hz hx hy h = ground arith

module _ (q : Que) (e : Iterator) (full : IsFilled q) (ve : IsAt q e) where
  -- Any fuel that is not less than the distance gives the same bytes.
  pub unread_enough :
      (n m : ℕ) (it : Iterator)
      → IsAt q it
      → gap q e it ≤ n
      → gap q e it ≤ m
      → unread n q e it ≡ unread m q e it
  unfolding unread
  unread_enough zero zero it v h k = refl
  unread_enough zero (suc m) it v h k = elim (Bool-cases (same it e)) [
    | inl t ↦ rw t refl
    | inr t ↦ absurd (omega (arith, gap_pos q e full ve it v t))
  ]
  unread_enough (suc n) zero it v h k = elim (Bool-cases (same it e)) [
    | inl t ↦ rw t refl
    | inr t ↦ absurd (omega (arith, gap_pos q e full ve it v t))
  ]
  unread_enough (suc n) (suc m) it v h k = elim (Bool-cases (same it e)) [
    | inl t ↦ rw t refl
    | inr t ↦
        let g = gap-increment q e full ve it v t in
        rw t (
          ap (λ r. deref q it ∷ r)
            (unread_enough n m (increment q it) (increment-IsAt q e full ve it v) (omega arith)
              (omega arith)))
  ]

  pub gap-Stands :
      {it at : Iterator} {cs : Bytes}
      → Stands q e it cs at
      → IsAt q it
      → IsAt q at × (gap q e at + length cs ≡ gap q e it)
  gap-Stands {it} here v = (v, omega arith)
  gap-Stands {it} (byte t d r) v =
      let (a, b) = gap-Stands r (increment-IsAt q e full ve it v) in
      let g = gap-increment q e full ve it v t in (a, omega arith)

  module _ {S : Type 0} (step : S → Iterator → ℕ → Outcome S) (done : S → Bool) (fin : Iterator → S)
      (p p' : S) where
    -- The loop has ended behind the last byte.
    pub record Finishes (it : Iterator) (cs : Bytes) (c : ℕ) (rest : Bytes) : Type 0 where
      pub body : Iterator
      pub at_body : IsAt q body
      pub last : deref q body ≡ c
      pub size : gap q e body ≡ suc (length rest)
      pub used : gap q (increment q body) it ≡ suc (length cs)
      pub is : feed step done q (total q) e it p ≡ (more (fin body), increment q body)
      pub left : unread (total q) q e (increment q body) ≡ rest

    feed-done :
        (m : ℕ) (it : Iterator) (s : S) → done s ≡ true → feed step done q m e it s ≡ (more s, it)
    unfolding feed
    feed-done zero it s d = refl
    feed-done (suc m) it s d = ground (arith, d)

    pub ends-Finishes :
        (it : Iterator) (cs : Bytes) (c : ℕ) (rest : Bytes)
        → IsAt q it
        → Runs step done p cs p'
        → done p' ≡ false
        → ((at : Iterator) → step p' at c ≡ more (fin at))
        → ((at : Iterator) → done (fin at) ≡ true)
        → unread (total q) q e it ≡ cs ++ c ∷ rest
        → Finishes it cs c rest
    unfolding unread
    ends-Finishes it cs c rest v r d s f u =
        let o = unread-Starts q e (total q) it cs (c ∷ rest) u in
        let (va, g) = gap-Stands o.stands v in
        let n = gap-le-total q e it ve v in
        last_one o.at o.left va g (omega (arith, o.fits)) o.rest
          (ap (λ k. feed step done q k e it p) o.fits ∙ feed-Runs q e step done o.left r o.stands)
      where
        last_one :
            (at : Iterator) (l : ℕ)
            → IsAt q at
            → gap q e at + length cs ≡ gap q e it
            → gap q e at ≤ l
            → unread l q e at ≡ c ∷ rest
            → feed step done q (total q) e it p ≡ feed step done q l e at p'
            → Finishes it cs c rest
        last_one at zero va y h w x = absurd (nil-cons w)
        last_one at (suc l) va y h w x = elim (Bool-cases (same at e)) [
          | inl t ↦ absurd (nil-cons (sym (at_end q e l at t) ∙ w))
          | inr t ↦
              let (b, u) = head_same (sym (unread_more l q e at t) ∙ w) in
              let vi = increment-IsAt q e full ve at va in
              let g = gap-increment q e full ve at va t in
              let left =
                unread_enough (total q) l (increment q at) vi
                  (gap-le-total q e (increment q at) ve vi) (omega (arith, g))
                ∙ u in
              let n =
                sym (
                  length-unread q e full ve (total q) (increment q at) vi
                    (gap-le-total q e (increment q at) ve vi))
                ∙ ap length left in
              record {
                body = at;
                at_body = va;
                last = b;
                size = omega (arith, g, n);
                used = omega (
                  arith,
                  g,
                  y,
                  gap_between q e (increment q at) it ve vi v (omega (arith, g, y)),
                );
                is =
                    x
                    ∙ feed_step q e step done l at p' (fin at) t d (ap (step p' at) b ∙ s at)
                    ∙ feed-done l (increment q at) (fin at) (f at);
                left = left;
              }
        ]
