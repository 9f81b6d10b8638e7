-- ===== src/Timer/Queue.antt =====
-- mio/mio_timer.cpp, `EventTimer`: the queue of the tasks. The pointers to a task are its number, so
-- that `timertasks` has the tasks and `timerindex` the numbers. A std::priority_queue gives a task
-- that no other comes before, here the last such one of a list. Where `stopTimer` takes the `top` of
-- an empty queue, which is not defined, there is no task here; nor is there one for a pointer of the
-- index to a task that was deleted.
use mtrpc.Base.{
  ℕ, zero, suc, ◌+◌, Bool, true, false, List, [], ◌∷◌, Option, none, some, if◌then◌else◌, ◌==◌, map,
}
use mtrpc.Timer.{
  TimeSpec, TimerTask, timer_task, is_period, stop, update_to_next, is_before, timer_task_cmp,
  adjust_start,
}

pub record EventTimer : Type 0 where
  pub timertasks : List TimerTask
  pub timerindex : List ℕ
  -- The number that the last task had.
  pub timer_count : ℕ

-- The top of the queue, and what `pop` leaves.
abbrev pub pick_from : TimerTask → List TimerTask → TimerTask × List TimerTask
pick_from t [] = (t, [])
pick_from t (u ∷ us) =
    let (m, r) = pick_from u us in if timer_task_cmp m t then (t, m ∷ r) else (m, t ∷ r)

abbrev pub pick : List TimerTask → Option (TimerTask × List TimerTask)
pick [] = none
pick (t ∷ ts) = some (pick_from t ts)

abbrev pub add_task : EventTimer → ℕ → ℕ → EventTimer × ℕ
add_task s start internal =
    let i = s.timer_count + 1 in
    (
      record {
        timertasks = timer_task start internal i ∷ s.timertasks;
        timerindex = i ∷ s.timerindex;
        timer_count = i;
      },
      i,
    )

-- `runTimerAt` and `runTimerAfter` at the time `now` in milliseconds, but for `updateTimer`.
unfoldable pub run_timer_at : EventTimer → ℕ → ℕ → ℕ → EventTimer × ℕ
run_timer_at s now start internal = add_task s (adjust_start now start internal) internal

unfoldable pub run_timer_after : EventTimer → ℕ → ℕ → ℕ → EventTimer × ℕ
run_timer_after s now start internal = add_task s (start + now) internal

abbrev pub is_in : ℕ → List ℕ → Bool
is_in i [] = false
is_in i (j ∷ js) = if j == i then true else is_in i js

abbrev pub erase : ℕ → List ℕ → List ℕ
erase i [] = []
erase i (j ∷ js) = if j == i then js else j ∷ erase i js

abbrev pub stop_in : ℕ → TimerTask → TimerTask
stop_in i t = if t.timer_id == i then stop t else t

abbrev pub stop_via : ℕ → List TimerTask → Option (TimerTask × List TimerTask) → List TimerTask
stop_via i q none = q
stop_via i q (some p) = if p.0.timer_id == i then p.1 else map (stop_in i) q

-- `stopTimer`, and whether it returns 0.
unfoldable pub stop_timer : EventTimer → ℕ → EventTimer × Bool
stop_timer s i =
    if is_in i s.timerindex
    then (
      record s {
        timertasks = stop_via i s.timertasks (pick s.timertasks);
        timerindex = erase i s.timerindex;
      },
      true,
    )
    else (s, false)

-- What a callback does to the timer: it starts tasks, at a time of the clock, and stops tasks.
pub data Call : Type 0 where
  run_at run_after : (now start internal : ℕ) → Call
  stop_task : (timerid : ℕ) → Call

-- One such call, while the callback's own task is not in the queue but in the index: there it can
-- be stopped too.
abbrev pub run_call : Call → EventTimer → TimerTask → EventTimer × TimerTask
run_call (run_at now start internal) s t = ((run_timer_at s now start internal).0, t)
run_call (run_after now start internal) s t = ((run_timer_after s now start internal).0, t)
run_call (stop_task i) s t = ((stop_timer s i).0, if is_in i s.timerindex then stop_in i t else t)

abbrev pub run_calls : List Call → EventTimer → TimerTask → EventTimer × TimerTask
run_calls [] s t = (s, t)
run_calls (c ∷ cs) s t = let (s', t') = run_call c s t in run_calls cs s' t'

-- What a task that was called leaves in the queue.
abbrev pub put_back : TimerTask → List TimerTask → List TimerTask
put_back t q = if is_period t then update_to_next t ∷ q else q

-- A round of the loop of `onTimer` for the top of the queue and the rest: `pop`, the callback, which
-- makes the calls `cs`, and the task put back.
abbrev pub after_call : List Call → EventTimer → TimerTask → List TimerTask → EventTimer
after_call cs s t q =
    let (s', t') = run_calls cs (record s { timertasks = q }) t in
    record s' { timertasks = put_back t' s'.timertasks }

-- One round, with what follows it. The callback of a task makes the calls that `calls` has for its
-- number.
abbrev pub call_due :
    TimeSpec
    → (ℕ → List Call)
    → EventTimer
    → Option (TimerTask × List TimerTask)
    → (EventTimer → EventTimer × List ℕ)
    → EventTimer × List ℕ
call_due now calls s none rest = (s, [])
call_due now calls s (some p) rest =
    let (s', is) = rest (after_call (calls p.0.timer_id) s p.0 p.1) in
    if is_before p.0 now then (s', p.0.timer_id ∷ is) else (s, [])

-- That loop: the timer that it leaves, and the tasks that it calls.
unfoldable pub call_all : ℕ → TimeSpec → (ℕ → List Call) → EventTimer → EventTimer × List ℕ
call_all zero now calls s = (s, [])
call_all (suc n) now calls s = call_due now calls s (pick s.timertasks) (call_all n now calls)
