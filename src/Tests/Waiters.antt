-- ===== src/Tests/Waiters.antt =====
-- Runs of a thread that waits.
use mtrpc.Base.{◌≡◌, refl, true, false, some}
use mtrpc.Waiter.{
  waiting, finished, State, Step, goes_on, waits, wakes, returns, returned, sets, notifies, unlocks,
  Steps, stay, go, start,
}
use mtrpc.Waiter.Woken.{is_awake, is_locking, is_notifying, woken, lost_signal}

-- `Wait` sleeps when the value 200 is set, and returns.
abbrev before : (s : State) × Steps false start s
before =
    let r1 = go stay (goes_on refl refl) in
    let r2 = go r1 (waits refl refl) in (_, go r2 (sets 200 refl))

abbrev after : (s : State) × Steps false before.0 s
after =
    let r1 = go stay (notifies refl) in
    let r2 = go r1 (unlocks refl) in
    let r3 = go r2 (wakes refl refl) in (_, go r3 (returns refl refl))

after_test : after.0.waiter ≡ returned
after_test = refl

woken_example :
    (after.0.value ≡ some 200)
    × (is_locking after.0.waiter ≡ false)
    × (is_notifying after.0.setter ≡ false → is_awake after.0.waiter ≡ true)
woken_example = woken 200 refl refl refl after.1

lost_signal_example :
    (s : State) × Steps false start s
    × (s.value ≡ some 200)
    × (s.waiter ≡ waiting)
    × (s.setter ≡ finished)
    × ((u : State) → Step false s u → ⊥)
lost_signal_example = lost_signal 200
