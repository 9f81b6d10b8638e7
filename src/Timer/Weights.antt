-- ===== src/Timer/Weights.antt =====
-- What is left to do for the tasks of a timer, as numbers that are added up.
use mtrpc.Base.{
  ℕ, ◌+◌, ◌-◌, ◌≡◌, ◌<◌, refl, ap, sym, ◌∙◌, arith, Bool, true, false, not, List, [], ◌∷◌,
  if◌then◌else◌, ltb, tally, Bool-cases, inl, inr,
}
use mtrpc.Timer.{TimeSpec, TimerTask, is_before, timer_task_cmp}
use mtrpc.Timer.Times.{nanos}
use mtrpc.Timer.Queue.{pick_from}

abbrev pub one_if : Bool → ℕ
one_if b = if b then 1 else 0

-- 1 for a task that is before `now`, and 1 for a task whose time is not normal.
abbrev pub is_due : TimeSpec → TimerTask → ℕ
is_due now t = one_if (is_before t now)

abbrev pub is_odd : TimerTask → ℕ
is_odd t = one_if (not (ltb t.value.tv_nsec 1000000000))

-- How many times a task of a normal time can be called at most: the nanoseconds to `now`.
abbrev pub calls_left : TimeSpec → TimerTask → ℕ
calls_left now t = nanos now - nanos t.value

-- The top and the rest are the queue.
pub pick_from-tally :
    (w : TimerTask → ℕ) (t : TimerTask) (ts : List TimerTask)
    → w (pick_from t ts).0 + tally w (pick_from t ts).1 ≡ w t + tally w ts
pick_from-tally w t [] = refl
pick_from-tally w t (u ∷ us) = elim (Bool-cases (timer_task_cmp (pick_from u us).0 t)) [
  | inl b ↦ rw b (omega (arith, pick_from-tally w u us))
  | inr b ↦ rw b (omega (arith, pick_from-tally w u us))
]

-- A task that comes after another is not due before it.
cmp-due :
    (now : TimeSpec) (a b : TimerTask)
    → timer_task_cmp a b ≡ true
    → is_before b now ≡ false
    → is_before a now ≡ false
unfolding timer_task_cmp is_before
cmp-due now a b c h = ground (arith, c, h)

cmp-not_due :
    (now : TimeSpec) (a b : TimerTask)
    → timer_task_cmp a b ≡ false
    → is_before a now ≡ false
    → is_before b now ≡ false
unfolding timer_task_cmp is_before
cmp-not_due now a b c h = ground (arith, c, h)

-- Where the top is not due, nothing is.
pub none_due :
    (now : TimeSpec) (t : TimerTask) (ts : List TimerTask)
    → is_before (pick_from t ts).0 now ≡ false
    → tally (is_due now) (t ∷ ts) ≡ 0
none_due now t [] h = ground (arith, h)
none_due now t (u ∷ us) h = elim (Bool-cases (timer_task_cmp (pick_from u us).0 t)) [
  | inl b ↦
      let e : (pick_from t (u ∷ us)).0 ≡ t = rw b refl in
      let k : is_before t now ≡ false = ap (λ x. is_before x now) (sym e) ∙ h in
      omega (arith, ap one_if k, none_due now u us (cmp-due now (pick_from u us).0 t b k))
  | inr b ↦
      let e : (pick_from t (u ∷ us)).0 ≡ (pick_from u us).0 = rw b refl in
      let k : is_before (pick_from u us).0 now ≡ false = ap (λ x. is_before x now) (sym e) ∙ h in
      omega (arith, ap one_if (cmp-not_due now (pick_from u us).0 t b k), none_due now u us k)
]

pub due-left :
    (now : TimeSpec) (t : TimerTask)
    → now.tv_nsec < 1000000000
    → is_before t now ≡ true
    → is_odd t ≡ 0
    → nanos t.value < nanos now
unfolding is_before
due-left now t n b o = ground (arith, n, b, o)

pub not_due-left :
    (now : TimeSpec) (t : TimerTask)
    → now.tv_nsec < 1000000000
    → is_before t now ≡ false
    → is_odd t ≡ 0
    → calls_left now t ≡ 0
unfolding is_before
not_due-left now t n b o = ground (arith, n, b, o)

-- Where no task has calls left, none is due.
pub left-due :
    (now : TimeSpec) (q : List TimerTask)
    → now.tv_nsec < 1000000000
    → tally is_odd q ≡ 0
    → tally (calls_left now) q ≡ 0
    → tally (is_due now) q ≡ 0
left-due now [] n o h = refl
left-due now (t ∷ ts) n o h = elim (Bool-cases (is_before t now)) [
  | inl b ↦ absurd (omega (arith, due-left now t n b (omega (arith, o)), h))
  | inr b ↦ omega (arith, ap one_if b, left-due now ts n (omega (arith, o)) (omega (arith, h)))
]
