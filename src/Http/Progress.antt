-- ===== src/Http/Progress.antt =====
-- How far a parser goes: it stays in the ring, never goes back, and uses up a byte before it ends.
use mtrpc.Base.{ℕ, zero, suc, ◌≡◌, ◌≤◌, ◌<◌, arith, Bool, true, false, ◌||◌, Bool-cases, inl, inr}
use mtrpc.Ring.{Que, Iterator, IsAt, IsFilled, same, increment, deref}
use mtrpc.Ring.Distance.{gap}
use mtrpc.Http.Feed.{Outcome, more, failed, fault, resume, feed}
use mtrpc.Http.Unread.{increment-IsAt, gap-increment}

module _ (q : Que) (e : Iterator) (full : IsFilled q) (ve : IsAt q e) where
  module _ {S : Type 0} (step : S → Iterator → ℕ → Outcome S) (done : S → Bool) where
    abbrev pub ends : Outcome S → Bool
    ends (more s) = done s
    ends (failed s) = false
    ends fault = false

    -- From `it` in state `s` the loop came to `r`.
    pub record Moves (it : Iterator) (s : S) (r : Outcome S × Iterator) : Type 0 where
      pub at : IsAt q r.1
      pub no_more : gap q e r.1 ≤ gap q e it
      pub uses_one : ends r.0 ≡ true → done s ≡ false → gap q e r.1 < gap q e it

    stays :
        (it : Iterator) (s : S) (o : Outcome S)
        → IsAt q it
        → (ends o ≡ true → done s ≡ true)
        → Moves it s (o, it)
    stays it s o v h = record {
      at = v;
      no_more = omega arith;
      uses_one = λ t f. absurd (clash (h t) f);
    }
      where
        clash : {b : Bool} → b ≡ true → b ≡ false → ⊥
        clash t f = cc

    pub feed-Moves :
        (n : ℕ) (it : Iterator) (s : S) → IsAt q it → Moves it s (feed step done q n e it s)
    unfolding feed
    feed-Moves zero it s v = stays it s (more s) v (λ t. t)
    feed-Moves (suc n) it s v = elim (Bool-cases (same it e || done s)) [
      | inl t ↦ rw t (stays it s (more s) v (λ d. d))
      | inr t ↦ rw t (
          goes (step s it (deref q it)) (apart (same it e) (done s) t)
            (λ s'. feed-Moves n (increment q it) s' (increment-IsAt q e full ve it v)))
    ]
      where
        apart : (b c : Bool) → (b || c) ≡ false → b ≡ false
        apart b c h = ground arith

        goes :
            (o : Outcome S)
            → same it e ≡ false
            → ((s' : S) → Moves (increment q it) s' (feed step done q n e (increment q it) s'))
            → Moves it s (resume o it (feed step done q n e (increment q it)))
        goes (more s') r f =
            let m = f s' in
            let g = gap-increment q e full ve it v r in
            record {
              at = m.at;
              no_more = omega (arith, m.no_more);
              uses_one = λ t d. omega (arith, m.no_more);
            }
        goes (failed s') r f = stays it s (failed s') v (λ t. absurd cc)
        goes fault r f = stays it s fault v (λ t. absurd cc)
