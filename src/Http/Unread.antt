-- ===== src/Http/Unread.antt =====
-- How the loop of the parsers goes through the ring: the bytes that are not read yet, and where it
-- ends.
use mtrpc.Base.{
  ℕ, zero, suc, ◌≡◌, ◌≢◌, ◌≤◌, ◌<◌, ◌⊎◌, ap, sym, ◌∙◌, Bool, true, false, ◌||◌, [], ◌∷◌, arith,
  length, Bool-cases, inl, inr, if◌then◌else◌,
}
use native.Mathlib.Decide.{dec_lt}
use mtrpc.Buffer.Socket.{gap_self}
use mtrpc.Ring.{Que, Iterator, IsAt, IsFilled, same, increment, deref}
use mtrpc.Ring.Sum.{total, place, place-lt-total}
use mtrpc.Ring.Distance.{around, gap}
use mtrpc.Ring.Advance.{increment-advance, advance-IsAt, gap-advance_rear, place-injective}
use mtrpc.Text.{Bytes}
use mtrpc.Http.Feed.{Outcome, more, failed, fault, resume, feed}

-- The bytes from `it` up to `e`, at most as many as the first argument says.
unfoldable pub unread : ℕ → Que → Iterator → Iterator → Bytes
unread zero q e it = []
unread (suc n) q e it =
    let rest = unread n q e (increment q it) in if same it e then [] else deref q it ∷ rest

module _ (q : Que) (e : Iterator) (full : IsFilled q) (ve : IsAt q e) where
  pub increment-IsAt : (it : Iterator) → IsAt q it → IsAt q (increment q it)
  increment-IsAt it v = rw (increment-advance q full it v) (advance-IsAt q full it 1 v)

  -- Two positions that differ are a byte apart.
  pub gap_pos : (it : Iterator) → IsAt q it → same it e ≡ false → 1 ≤ gap q e it
  gap_pos it v h = elim (dec_lt 0 (gap q e it)) [
    | yes l ↦ l
    | no l ↦
        let s : it ≡ e = place-injective q it e v ve (
          far (total q) (place q e) (place q it) (place-lt-total q e ve) (place-lt-total q it v)
            (omega arith)) in
        absurd (clash it e s h)
  ]
    where
      far : (t x y : ℕ) → x < t → y < t → around t x y ≡ 0 → y ≡ x
      far t x y hx hy k = ground arith

      clash : (a b : Iterator) → a ≡ b → same a b ≢ false
      clash a b s k = ground arith

  pub gap-increment :
      (it : Iterator) → IsAt q it → same it e ≡ false → suc (gap q e (increment q it)) ≡ gap q e it
  gap-increment it v h =
      rw (increment-advance q full it v)
        (omega (arith, gap-advance_rear q it e 1 full v ve (gap_pos it v h)))

  pub length-unread :
      (n : ℕ) (it : Iterator) → IsAt q it → gap q e it ≤ n → length (unread n q e it) ≡ gap q e it
  unfolding unread
  length-unread zero it v h = omega arith
  length-unread (suc n) it v h = elim (Bool-cases (same it e)) [
    | inl t ↦ rw t (sym (gap_self q e it t))
    | inr t ↦
        let g = gap-increment it v t in
        rw t (ap suc (length-unread n (increment q it) (increment-IsAt it v) (omega arith)) ∙ g)
  ]

  module _ {S : Type 0} (step : S → Iterator → ℕ → Outcome S) (done : S → Bool) where
    -- The loop has not run out of fuel: it is done, or has read all, or has returned.
    abbrev pub IsStopped : Outcome S × Iterator → Type 0
    IsStopped (more s, at) = (done s ≡ true) ⊎ (same at e ≡ true)
    IsStopped (failed s, at) = Unit {0}
    IsStopped (fault, at) = Unit {0}

    stop : (b c : Bool) → (b || c) ≡ true → (c ≡ true) ⊎ (b ≡ true)
    stop b c h = ground arith

    go : (b c : Bool) → (b || c) ≡ false → b ≡ false
    go b c h = ground arith

    pub feed-IsStopped :
        (n : ℕ) (it : Iterator) (s : S)
        → IsAt q it
        → gap q e it ≤ n
        → IsStopped (feed step done q n e it s)
    unfolding feed
    feed-IsStopped zero it s v h = elim (Bool-cases (same it e)) [
      | inl t ↦ inr t
      | inr t ↦ absurd (omega (arith, gap_pos it v t))
    ]
    feed-IsStopped (suc n) it s v h = elim (Bool-cases (same it e || done s)) [
      | inl t ↦ rw t (stop (same it e) (done s) t)
      | inr t ↦
          let r = go (same it e) (done s) t in
          let g = gap-increment it v r in
          rw t (
            next (step s it (deref q it))
              (λ s'. feed-IsStopped n (increment q it) s' (increment-IsAt it v) (omega arith)))
    ]
      where
        next :
            (o : Outcome S)
            → ((s' : S) → IsStopped (feed step done q n e (increment q it) s'))
            → IsStopped (resume o it (feed step done q n e (increment q it)))
        next (more s') f = f s'
        next (failed s') f = tt
        next fault f = tt

pub gap-le-total : (q : Que) (a b : Iterator) → IsAt q a → IsAt q b → gap q a b ≤ total q
gap-le-total q a b va vb =
    around-le (total q) (place q a) (place q b) (place-lt-total q a va) (place-lt-total q b vb)
  where
    around-le : (t x y : ℕ) → x < t → y < t → around t x y ≤ t
    around-le t x y hx hy = ground arith
