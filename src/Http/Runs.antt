-- ===== src/Http/Runs.antt =====
-- The loop of the parsers on a string of bytes, apart from the ring that the bytes are in.
use mtrpc.Base.{
  ℕ, zero, suc, ◌+◌, ◌≡◌, refl, ap, sym, ◌∙◌, arith, Bool, true, false, [], ◌∷◌, ◌++◌, length,
  Bool-cases, inl, inr,
}
use mtrpc.Ring.{Que, Iterator, same, increment, deref}
use mtrpc.Text.{Bytes}
use mtrpc.Http.Feed.{Outcome, more, feed}
use mtrpc.Http.Unread.{unread}
use mtrpc.Http.Overflow.{unread_more}

module _ {S : Type 0} (step : S → Iterator → ℕ → Outcome S) (done : S → Bool) where
  -- The bytes take the parser from one state to another, wherever they stand.
  pub data Runs : S → Bytes → S → Type 0 where
    stop : {p : S} → Runs p [] p
    read :
        {p p' p'' : S} {c : ℕ} {cs : Bytes}
        → done p ≡ false
        → ((it : Iterator) → step p it c ≡ more p')
        → Runs p' cs p''
        → Runs p (c ∷ cs) p''

  pub runs_append :
      {p p' p'' : S} {cs ds : Bytes} → Runs p cs p' → Runs p' ds p'' → Runs p (cs ++ ds) p''
  runs_append stop r = r
  runs_append (read d s q) r = read d s (runs_append q r)

pub nil-cons : {c : ℕ} {cs : Bytes} → [] ≡ c ∷ cs → ⊥
nil-cons h = absurd cc

pub head_same : {c d : ℕ} {cs ds : Bytes} → c ∷ cs ≡ d ∷ ds → (c ≡ d) × (cs ≡ ds)
head_same h = (cc, cc)

pub at_end :
    (q : Que) (e : Iterator) (n : ℕ) (it : Iterator) → same it e ≡ true → unread (suc n) q e it ≡ []
unfolding unread
at_end q e n it t = rw t refl

module _ (q : Que) (e : Iterator) where
  -- The bytes stand in the ring from one position to another, before `e`.
  pub data Stands : Iterator → Bytes → Iterator → Type 0 where
    here : {it : Iterator} → Stands it [] it
    byte :
        {it at : Iterator} {c : ℕ} {cs : Bytes}
        → same it e ≡ false
        → deref q it ≡ c
        → Stands (increment q it) cs at
        → Stands it (c ∷ cs) at

  -- A start of what is not read yet, and what is left of the `n` bytes at most.
  pub record Starts (n : ℕ) (it : Iterator) (cs ds : Bytes) : Type 0 where
    pub at : Iterator
    pub left : ℕ
    pub stands : Stands it cs at
    pub rest : unread left q e at ≡ ds
    pub fits : n ≡ length cs + left

  pub unread-Starts :
      (n : ℕ) (it : Iterator) (cs ds : Bytes) → unread n q e it ≡ cs ++ ds → Starts n it cs ds
  unfolding unread
  unread-Starts n it [] ds h = record {
    at = it;
    left = n;
    stands = here;
    rest = h;
    fits = omega arith;
  }
  unread-Starts zero it (c ∷ cs) ds h = absurd (nil-cons h)
  unread-Starts (suc n) it (c ∷ cs) ds h = elim (Bool-cases (same it e)) [
    | inl t ↦ absurd (nil-cons (sym (at_end q e n it t) ∙ h))
    | inr t ↦
        let (x, y) = head_same (sym (unread_more n q e it t) ∙ h) in
        let r = unread-Starts n (increment q it) cs ds y in
        record {
          at = r.at;
          left = r.left;
          stands = byte t x r.stands;
          rest = r.rest;
          fits = omega (arith, r.fits);
        }
  ]

  module _ {S : Type 0} (step : S → Iterator → ℕ → Outcome S) (done : S → Bool) where
    -- One round of the loop.
    pub feed_step :
        (m : ℕ) (it : Iterator) (p p' : S)
        → same it e ≡ false
        → done p ≡ false
        → step p it (deref q it) ≡ more p'
        → feed step done q (suc m) e it p ≡ feed step done q m e (increment q it) p'
    unfolding feed
    feed_step m it p p' n d s = rw n (rw d (rw s refl))

    pub feed-Runs :
        {p p' : S} {it at : Iterator} {cs : Bytes} (m : ℕ)
        → Runs step done p cs p'
        → Stands it cs at
        → feed step done q (length cs + m) e it p ≡ feed step done q m e at p'
    feed-Runs {p} {it = it} m stop here = ap (λ k. feed step done q k e it p) (add_zero m)
      where
        add_zero : (m : ℕ) → 0 + m ≡ m
        add_zero m = omega arith
    feed-Runs {p} {it = it} {cs = c ∷ cs} m (read {p' = p'} d s r) (byte n g t) =
        ap (λ k. feed step done q k e it p) (add_suc (length cs) m)
        ∙ feed_step (length cs + m) it p p' n d (ap (step p it) g ∙ s it)
        ∙ feed-Runs m r t
      where
        add_suc : (l m : ℕ) → suc l + m ≡ suc (l + m)
        add_suc l m = omega arith
