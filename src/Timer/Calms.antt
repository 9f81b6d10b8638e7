-- ===== src/Timer/Calms.antt =====
-- What callbacks do to the tasks of a timer, by `runTimerAt`, `runTimerAfter` and `stopTimer`.
use mtrpc.Base.{
  ℕ, ◌+◌, ◌-◌, ◌≡◌, ◌≤◌, ◌<◌, refl, ap, ◌∙◌, arith, Bool, true, false, not, ◌&&◌, ◌==◌, List, [],
  ◌∷◌, ltb, tally, map, if_intro, Bool-cases, inl, inr,
}
use mtrpc.Timer.{TimeSpec, TimerTask, timer_task, is_before, adjust_start}
use mtrpc.Timer.Times.{nanos}
use mtrpc.Timer.Queue.{
  EventTimer, Call, run_at, run_after, stop_task, run_call, run_calls, stop_via, stop_in,
  stop_timer, run_timer_at, run_timer_after, pick_from, pick, is_in,
}
use mtrpc.Timer.Weights.{one_if, is_odd, calls_left, pick_from-tally, not_due-left}

-- Whether a callback starts a task before `now`: by `runTimerAt` the start is adjusted first.
abbrev pub is_early : TimeSpec → Call → Bool
is_early now (run_at clock start internal) =
    is_before (timer_task (adjust_start clock start internal) internal 0) now
is_early now (run_after clock start internal) =
    is_before (timer_task (start + clock) internal 0) now
is_early now (stop_task i) = false

abbrev pub none_early : TimeSpec → List Call → Bool
none_early now [] = true
none_early now (c ∷ cs) = not (is_early now c) && none_early now cs

-- A weight that does not look at the interval of a task is not more after `stopTimer`.
map-stop_in :
    (w : TimerTask → ℕ) (i : ℕ) (q : List TimerTask)
    → ((t : TimerTask) → w (stop_in i t) ≡ w t)
    → tally w (map (stop_in i) q) ≡ tally w q
map-stop_in w i [] h = refl
map-stop_in w i (t ∷ ts) h = omega (arith, h t, map-stop_in w i ts h)

stop_via-tally :
    (w : TimerTask → ℕ) (i : ℕ) (q : List TimerTask)
    → ((t : TimerTask) → w (stop_in i t) ≡ w t)
    → tally w (stop_via i q (pick q)) ≤ tally w q
stop_via-tally w i [] h = omega arith
stop_via-tally w i (t ∷ ts) h = elim (Bool-cases ((pick_from t ts).0.timer_id == i)) [
  | inl b ↦ rw b (omega (arith, pick_from-tally w t ts))
  | inr b ↦ rw b (omega (arith, map-stop_in w i (t ∷ ts) h))
]

stop_timer-tally :
    (w : TimerTask → ℕ) (i : ℕ) (s : EventTimer)
    → ((t : TimerTask) → w (stop_in i t) ≡ w t)
    → tally w (stop_timer s i).0.timertasks ≤ tally w s.timertasks
unfolding stop_timer
stop_timer-tally w i s h = elim (Bool-cases (is_in i s.timerindex)) [
  | inl b ↦ rw b (stop_via-tally w i s.timertasks h)
  | inr b ↦ rw b (omega arith)
]

stop_in-value : (i : ℕ) (t : TimerTask) → (stop_in i t).value ≡ t.value
stop_in-value i t = if_intro (λ (u : TimerTask). u.value ≡ t.value) (t.timer_id == i) refl refl

-- What a callback does not make worse: the calls left of the tasks, and how many are not normal.
pub record Calms (now : TimeSpec) (s : EventTimer) (t : TimerTask) (r : EventTimer × TimerTask)
    : Type 0 where
  pub left_le : tally (calls_left now) r.0.timertasks ≤ tally (calls_left now) s.timertasks
  pub odd_le : tally is_odd r.0.timertasks ≤ tally is_odd s.timertasks
  pub same_value : r.1.value ≡ t.value

new_task :
    (now : TimeSpec) (start internal i : ℕ)
    → now.tv_nsec < 1000000000
    → is_before (timer_task start internal 0) now ≡ false
    → (calls_left now (timer_task start internal i) ≡ 0)
      × (is_odd (timer_task start internal i) ≡ 0)
unfolding timer_task is_before
new_task now start internal i n h =
    let o : is_odd (timer_task start internal i) ≡ 0 = ground arith in
    (not_due-left now (timer_task start internal i) n (ground (arith, h)) o, o)

run_call-Calms :
    (now : TimeSpec) (c : Call) (s : EventTimer) (t : TimerTask)
    → now.tv_nsec < 1000000000
    → is_early now c ≡ false
    → Calms now s t (run_call c s t)
unfolding run_timer_at run_timer_after
run_call-Calms now (run_at clock start internal) s t n h =
    let (a, b) =
      new_task now (adjust_start clock start internal) internal (s.timer_count + 1) n h in
    record { left_le = omega (arith, a); odd_le = omega (arith, b); same_value = refl }
run_call-Calms now (run_after clock start internal) s t n h =
    let (a, b) = new_task now (start + clock) internal (s.timer_count + 1) n h in
    record { left_le = omega (arith, a); odd_le = omega (arith, b); same_value = refl }
run_call-Calms now (stop_task i) s t n h = record {
  left_le =
      stop_timer-tally (calls_left now) i s
        (λ u. ap (λ v. nanos now - nanos v) (stop_in-value i u));
  odd_le =
      stop_timer-tally is_odd i s
        (λ u. ap (λ v. one_if (not (ltb v.tv_nsec 1000000000))) (stop_in-value i u));
  same_value =
      if_intro (λ (u : TimerTask). u.value ≡ t.value) (is_in i s.timerindex) (stop_in-value i t)
        refl;
}

pub run_calls-Calms :
    (now : TimeSpec) (cs : List Call) (s : EventTimer) (t : TimerTask)
    → now.tv_nsec < 1000000000
    → none_early now cs ≡ true
    → Calms now s t (run_calls cs s t)
run_calls-Calms now [] s t n h = record {
  left_le = omega arith;
  odd_le = omega arith;
  same_value = refl;
}
run_calls-Calms now (c ∷ cs) s t n h =
    let a = run_call-Calms now c s t n (ground (arith, h)) in
    let b = run_calls-Calms now cs (run_call c s t).0 (run_call c s t).1 n (ground (arith, h)) in
    record {
      left_le = omega (arith, a.left_le, b.left_le);
      odd_le = omega (arith, a.odd_le, b.odd_le);
      same_value = b.same_value ∙ a.same_value;
    }
