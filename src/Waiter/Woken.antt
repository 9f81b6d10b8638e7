-- ===== src/Waiter/Woken.antt =====
-- When `Wait` returns, and when it never does.
use mtrpc.Base.{ℕ, ◌≡◌, refl, ap, arith, Bool, true, false, some}
use mtrpc.Waiter.{
  Waiter, locking, waiting, Setter, setting, notifying, finished, State, Step, goes_on, returns,
  waits, wakes, rouses, sets, notifies, unlocks, Steps, stay, go, start,
}

-- `Wait` is on its way to return, where the value is set.
abbrev pub is_awake : Waiter → Bool
is_awake locking = false
is_awake waiting = false
is_awake _ = true

abbrev pub is_setting : Setter → Bool
is_setting setting = true
is_setting _ = false

abbrev pub is_notifying : Setter → Bool
is_notifying notifying = true
is_notifying _ = false

abbrev pub is_locking : Waiter → Bool
is_locking locking = true
is_locking _ = false

-- The value `v` is set, `Wait` is not between its test and the mutex, and it does not sleep behind
-- the signal.
pub record IsSeen (v : ℕ) (s : State) : Type 0 where
  pub set_to : s.value ≡ some v
  pub has_set : is_setting s.setter ≡ false
  pub not_locking : is_locking s.waiter ≡ false
  pub awake : is_notifying s.setter ≡ false → is_awake s.waiter ≡ true

Step-IsSeen : {b : Bool} {s t : State} {v : ℕ} → Step b s t → IsSeen v s → IsSeen v t
Step-IsSeen (goes_on p q) i = absurd (ground (arith, i.set_to, q))
Step-IsSeen (returns p q) i = record {
  set_to = i.set_to;
  has_set = i.has_set;
  not_locking = refl;
  awake = λ n. refl;
}
Step-IsSeen (waits p q) i = absurd (ground (arith, i.not_locking, p))
Step-IsSeen (wakes p q) i = record {
  set_to = i.set_to;
  has_set = i.has_set;
  not_locking = refl;
  awake = λ n. refl;
}
Step-IsSeen (rouses p q) i = record {
  set_to = i.set_to;
  has_set = i.has_set;
  not_locking = refl;
  awake = λ n. refl;
}
Step-IsSeen (sets x p) i = absurd (ground (arith, i.has_set, p))
Step-IsSeen (notifies p) i = record {
  set_to = i.set_to;
  has_set = refl;
  not_locking = ground (arith, i.not_locking);
  awake = λ n. ground (arith, i.not_locking);
}
Step-IsSeen (unlocks p) i = record {
  set_to = i.set_to;
  has_set = refl;
  not_locking = i.not_locking;
  awake = λ n. i.awake (ground (arith, p));
}

Steps-IsSeen : {b : Bool} {s t : State} {v : ℕ} → Steps b s t → IsSeen v s → IsSeen v t
Steps-IsSeen stay i = i
Steps-IsSeen (go r st) i = Step-IsSeen st (Steps-IsSeen r i)

-- Where the other thread has set the value, and `Wait` is not between its test and the mutex when
-- that has not signalled yet, then whatever steps follow, also with wakings without a signal: the
-- value stays, and once the signal has been given `Wait` is neither about to sleep nor asleep.
pub woken :
    {b : Bool} {s t : State} (v : ℕ)
    → s.value ≡ some v
    → s.setter ≡ notifying
    → is_locking s.waiter ≡ false
    → Steps b s t
    → (t.value ≡ some v)
      × (is_locking t.waiter ≡ false)
      × (is_notifying t.setter ≡ false → is_awake t.waiter ≡ true)
woken v p q n r =
    let i = Steps-IsSeen r (record {
      set_to = p;
      has_set = ap is_setting q;
      not_locking = n;
      awake = λ m. absurd (ground (arith, q, m));
    }) in
    (i.set_to, i.not_locking, i.awake)

-- No step is left without a signal for a `Wait` that sleeps beside a thread that is done.
asleep_stuck : {s u : State} → s.waiter ≡ waiting → s.setter ≡ finished → Step false s u → ⊥
asleep_stuck p q (goes_on x y) = ground (arith, p, x)
asleep_stuck p q (returns x y) = ground (arith, p, x)
asleep_stuck p q (waits x y) = ground (arith, p, x)
asleep_stuck p q (wakes x y) = ground (arith, p, x)
asleep_stuck p q (rouses x y) = absurd cc
asleep_stuck p q (sets v x) = ground (arith, q, x)
asleep_stuck p q (notifies x) = ground (arith, q, x)
asleep_stuck p q (unlocks x) = ground (arith, q, x)

-- For every value `v` there is a run in which the other thread has set it and is done, and `Wait`
-- sleeps with no step left: it tests the value before it is set, and has the mutex after the signal.
pub lost_signal :
    (v : ℕ)
    → (s : State) × Steps false start s
      × (s.value ≡ some v)
      × (s.waiter ≡ waiting)
      × (s.setter ≡ finished)
      × ((u : State) → Step false s u → ⊥)
lost_signal v =
    let r1 = go stay (goes_on refl refl) in
    let r2 = go r1 (sets v refl) in
    let r3 = go r2 (notifies refl) in
    let r4 = go r3 (unlocks refl) in
    let r5 = go r4 (waits refl refl) in (_, r5, refl, refl, refl, λ u. asleep_stuck refl refl)
