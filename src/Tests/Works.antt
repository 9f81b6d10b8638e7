-- ===== src/Tests/Works.antt =====
-- Runs of a work group.
use mtrpc.Base.{ℕ, ◌+◌, ◌≡◌, ◌<◌, refl, arith, true, false, [], ◌∷◌, some, tally}
use mtrpc.WorkGroup.{
  State, takes, finds_none, misses, parks, waits, runs, finds_idle, gives, signals, works, acts,
  posts, Reach, fresh, later,
}
use mtrpc.WorkGroup.Handing.{signalling_to, is_looking, handed_over}
use mtrpc.WorkGroup.Tasks.{places, is_task, tasks_kept}
use mtrpc.WorkGroup.Lost.{IsStuck, lost_task}

-- A worker that waits is given task 8.
abbrev given : (s : State) × Reach false 1 s
given =
    let r1 = later fresh (works 0 (omega arith) (finds_none refl refl refl)) in
    let r2 = later r1 (works 0 (omega arith) (misses refl refl)) in
    let r3 = later r2 (works 0 (omega arith) (parks refl refl)) in
    let r4 = later r3 (works 0 (omega arith) (waits refl)) in
    let r5 = later r4 (posts 8) in
    let r6 = later r5 (acts [] [] refl (finds_idle refl)) in (_, later r6 (acts [] [] refl gives))

-- It is woken, takes the task and has run it.
abbrev done : (s : State) × Reach false 1 s
done =
    let r1 = later given.1 (acts [] [] refl (signals (λ e. cc))) in
    let r2 = later r1 (works 0 (omega arith) (takes refl refl refl)) in
    (_, later r2 (works 0 (omega arith) (runs refl)))

done_test : done.0.lists.ran ≡ 8 ∷ []
done_test = refl

handed_over_example :
    (given.0.lists.has_failed ≡ false)
    × ((w t : ℕ)
        → (given.0.workers w).is_runing ≡ true
        → (given.0.workers w).task ≡ some t
        → 0 < tally (signalling_to w) given.0.posters + is_looking (given.0.workers w).pc)
handed_over_example = handed_over given.1

tasks_kept_example : places 1 8 done.0 ≡ tally (is_task 8) done.0.lists.posted
tasks_kept_example = tasks_kept done.1 8

lost_task_example :
    (s : State) × Reach false 1 s
    × IsStuck 1 s
    × (s.lists.task_queue ≡ 8 ∷ [])
    × (s.lists.ran ≡ [])
    × ((s.workers 0).is_runing ≡ true)
lost_task_example = lost_task 8
