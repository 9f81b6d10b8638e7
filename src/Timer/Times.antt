-- ===== src/Timer/Times.antt =====
-- The times of the tasks as numbers.
use mtrpc.Base.{ℕ, ◌+◌, ◌-◌, ◌*◌, ◌/◌, ◌≤◌, ◌<◌, ◌≡◌, refl, arith, ltb, ltb-true}
use native.Mathlib.Nat.{mod-lt, div-add-mod'}
use mtrpc.Timer.{
  TimeSpec, TimerTask, timer_task, update_to_next, is_before, timer_task_cmp, adjust_start,
}

-- A time in nanoseconds.
abbrev pub nanos : TimeSpec → ℕ
nanos t = t.tv_sec * 1000000000 + t.tv_nsec

-- The nanoseconds are less than a second.
pub record IsNormal (t : TimeSpec) : Type 0 where
  pub nsec_lt : t.tv_nsec < 1000000000

-- A new task has the times that it was given, in milliseconds, and each `updateToNext` adds the
-- interval to the next time; the times stay normal.
pub update_to_next-timer_task :
    (start internal i : ℕ) (t : TimerTask)
    → IsNormal t.value
    → (nanos (timer_task start internal i).value ≡ start * 1000000)
      × (nanos (timer_task start internal i).interval ≡ internal * 1000000)
      × IsNormal (timer_task start internal i).value
      × (nanos (update_to_next t).value ≡ nanos t.value + nanos t.interval)
      × IsNormal (update_to_next t).value
unfolding timer_task update_to_next
update_to_next-timer_task start internal i t v = (
  omega arith,
  omega arith,
  record { nsec_lt = omega arith },
  omega arith,
  record { nsec_lt = omega arith },
)

-- For normal times, `isBefore` and `TimerTaskCmp` compare the times: a task is before `now` exactly
-- when its time is smaller, and comes after another in the queue exactly when its time is greater.
pub is_before-timer_task_cmp :
    (a b : TimerTask) (now : TimeSpec)
    → IsNormal a.value
    → IsNormal b.value
    → IsNormal now
    → (is_before a now ≡ ltb (nanos a.value) (nanos now))
      × (timer_task_cmp a b ≡ ltb (nanos b.value) (nanos a.value))
unfolding is_before timer_task_cmp
is_before-timer_task_cmp a b now va vb vn =
    (ground (arith, va.nsec_lt, vn.nsec_lt), ground (arith, va.nsec_lt, vb.nsec_lt))

put_off :
    (now start internal : ℕ)
    → 0 < internal
    → start < now
    → (now < start + ((now - start) / internal + 1) * internal)
      × (start + ((now - start) / internal + 1) * internal ≤ now + internal)
      × ((n : ℕ) × (start + ((now - start) / internal + 1) * internal ≡ start + n * internal))
put_off now start internal h l =
    let m = mod-lt (now - start) h in
    let e = div-add-mod' (now - start) internal in
    (grind (arith, m, e, l), grind (arith, m, e, l), ((now - start) / internal + 1, refl))

-- The start of a periodic task that lies in the past is put off by a whole number of intervals, to
-- the first such time after now: the task keeps its phase, and is due within one interval.
pub adjust_start_lem :
    (now start internal : ℕ)
    → 0 < internal
    → start < now
    → (now < adjust_start now start internal)
      × (adjust_start now start internal ≤ now + internal)
      × ((n : ℕ) × (adjust_start now start internal ≡ start + n * internal))
unfolding adjust_start
adjust_start_lem now start internal h l =
    rw (ltb-true 0 internal h, ltb-true start now l) (put_off now start internal h l)
