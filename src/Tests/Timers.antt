-- ===== src/Tests/Timers.antt =====
-- Runs of the timer's tasks.
use mtrpc.Base.{ℕ, ◌≡◌, ◌==◌, refl, List, [], ◌∷◌, map, if◌then◌else◌}
use mtrpc.Timer.{
  TimeSpec, TimerTask, timer_task, update_to_next, is_before, timer_task_cmp, adjust_start,
}
use mtrpc.Timer.Queue.{
  EventTimer, Call, run_at, run_after, stop_task, run_timer_at, run_timer_after, stop_timer,
  call_all,
}

-- Every 700 milliseconds, from 1.9 seconds on.
abbrev tick : TimerTask
tick = record {
  value = record { tv_sec = 1; tv_nsec = 900000000 };
  interval = record { tv_sec = 0; tv_nsec = 700000000 };
  timer_id = 1;
}

timer_task_test : timer_task 1900 700 1 ≡ tick
unfolding timer_task
timer_task_test = refl

update_to_next_test : (update_to_next tick).value ≡ record { tv_sec = 2; tv_nsec = 600000000 }
unfolding update_to_next
update_to_next_test = refl

-- It is 5.3 seconds: the start at 1.9 seconds is put off to 5.4 seconds.
adjust_start_test : adjust_start 5300 1900 700 ≡ 5400
unfolding adjust_start
adjust_start_test = refl

-- Task 2 is to run once, at 2.5 seconds.
abbrev once : TimerTask
once = timer_task 2500 0 2

-- At 3 seconds.
abbrev three : TimeSpec
three = record { tv_sec = 3; tv_nsec = 0 }

abbrev queued : EventTimer
queued = record { timertasks = once ∷ tick ∷ []; timerindex = 1 ∷ 2 ∷ []; timer_count = 2 }

abbrev no_calls : ℕ → List Call
no_calls i = []

call_all_test : (call_all 5 three no_calls queued).1 ≡ 1 ∷ 2 ∷ 1 ∷ []
unfolding call_all timer_task timer_task_cmp is_before update_to_next
call_all_test = refl

-- A task that was stopped behind another one is still called.
stopped_test : (call_all 5 three no_calls (stop_timer queued 2).0).1 ≡ 1 ∷ 2 ∷ 1 ∷ []
unfolding stop_timer call_all timer_task timer_task_cmp is_before update_to_next
stopped_test = refl

-- The callback of task 2 stops task 1, and starts two others at 3 seconds and after them.
abbrev stops_tick : ℕ → List Call
stops_tick i = if i == 2 then stop_task 1 ∷ run_at 3000 3000 0 ∷ run_after 3000 500 700 ∷ [] else []

abbrev left_by_once : EventTimer × List ℕ
left_by_once = call_all 5 three stops_tick queued

-- Task 1 stands first then, and is deleted.
stops_tick_test :
    (left_by_once.1 ≡ 1 ∷ 2 ∷ []) × (map (λ t. t.timer_id) left_by_once.0.timertasks ≡ 4 ∷ 3 ∷ [])
unfolding stop_timer run_timer_at run_timer_after adjust_start call_all timer_task timer_task_cmp
    is_before update_to_next
stops_tick_test = (refl, refl)
