-- ===== src/Timer.antt =====
-- mio/mio_timer.h and mio/mio_timer.cpp: the times of a timer's tasks. A `struct timespec` has its
-- seconds and nanoseconds. The milliseconds, which are `uint64_t`, are natural numbers here: a time of
-- the clock is far from overflow.
pub mod Times
pub mod Queue
pub mod Weights
pub mod Calms
pub mod Due
use mtrpc.Base.{
  ℕ, ◌+◌, ◌-◌, ◌*◌, ◌/◌, ◌%◌, ◌<◌, Bool, true, false, not, ◌&&◌, ◌||◌, ltb, ◌==◌, if◌then◌else◌,
}

pub record TimeSpec : Type 0 where
  pub tv_sec : ℕ
  pub tv_nsec : ℕ

pub record TimerTask : Type 0 where
  pub value : TimeSpec
  pub interval : TimeSpec
  pub timer_id : ℕ

abbrev pub of_ms : ℕ → TimeSpec
of_ms ms = record { tv_sec = ms / 1000; tv_nsec = (ms % 1000) * 1000000 }

-- `TimerTask(starttimems, internalms, t)`, with the number that the counter gives.
unfoldable pub timer_task : ℕ → ℕ → ℕ → TimerTask
timer_task start internal i = record {
  value = of_ms start;
  interval = of_ms internal;
  timer_id = i;
}

-- `isPeriod` and `stop`
abbrev pub is_period : TimerTask → Bool
is_period t = not (t.interval.tv_nsec == 0) || not (t.interval.tv_sec == 0)

abbrev pub stop : TimerTask → TimerTask
stop t = record t { interval = record { tv_sec = 0; tv_nsec = 0 } }

unfoldable pub update_to_next : TimerTask → TimerTask
update_to_next t =
    let nsec = t.value.tv_nsec + t.interval.tv_nsec in
    record t {
      value = record {
        tv_sec = t.value.tv_sec + (t.interval.tv_sec + nsec / 1000000000);
        tv_nsec = nsec % 1000000000;
      };
    }

unfoldable pub is_before : TimerTask → TimeSpec → Bool
is_before t now =
    if ltb t.value.tv_sec now.tv_sec
    then true
    else if ltb now.tv_sec t.value.tv_sec
    then false
    else if ltb t.value.tv_nsec now.tv_nsec
    then true
    else false

-- `TimerTaskCmp`
unfoldable pub timer_task_cmp : TimerTask → TimerTask → Bool
timer_task_cmp a b =
    if ltb a.value.tv_sec b.value.tv_sec
    then false
    else if ltb b.value.tv_sec a.value.tv_sec
    then true
    else if ltb a.value.tv_nsec b.value.tv_nsec
    then false
    else if ltb b.value.tv_nsec a.value.tv_nsec
    then true
    else false

-- The adjustment of the start in `runTimerAt`, at the time `now`.
unfoldable pub adjust_start : ℕ → ℕ → ℕ → ℕ
adjust_start now start internal =
    if ltb 0 internal && ltb start now
    then start + ((now - start) / internal + 1) * internal
    else start
