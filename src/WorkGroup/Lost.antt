-- ===== src/WorkGroup/Lost.antt =====
-- What goes wrong in a group of one worker: a task that no one is woken for, and a signal from
-- nowhere that lets two tasks meet in one worker.
use mtrpc.Base.{
  ℕ, zero, suc, ◌≡◌, ◌<◌, refl, sym, ◌∙◌, arith, Bool, true, false, List, [], ◌∷◌, ◌++◌,
}
use mtrpc.WorkGroup.{
  waiting, Worker, Phase, signalling, finished, Lists, Workers, set_worker, Turn, takes, finds_none,
  leaves, pops, misses, runs, parks, quits, waits, Act, finds_idle, no_idle, gives, signals, pushes,
  sweeps, notifies, ends, State, works, acts, posts, rouses, Reach, fresh, later,
}

-- No worker and no call of `Post` can take a step.
pub record IsStuck (n : ℕ) (s : State) : Type 0 where
  pub no_turn : (i : ℕ) → i < n → (g : Lists) (w : Worker) → Turn s.lists (s.workers i) i g w → ⊥
  pub no_act :
      (xs ys : List Phase) (p q : Phase) (g : Lists) (ws : Workers)
      → s.posters ≡ xs ++ (p ∷ ys)
      → Act s.lists s.workers p g ws q
      → ⊥

waiting-stuck : {g g' : Lists} {k k' : Worker} {i : ℕ} → k.pc ≡ waiting → Turn g k i g' k' → ⊥
waiting-stuck e (takes p r t) = cc
waiting-stuck e (finds_none p r t) = cc
waiting-stuck e (leaves p r) = cc
waiting-stuck e (pops p q) = cc
waiting-stuck e (misses p q) = cc
waiting-stuck e (runs p) = cc
waiting-stuck e (parks p r) = cc
waiting-stuck e (quits p r) = cc
waiting-stuck e (waits p) = cc

finished-stuck :
    {g g' : Lists} {ws ws' : Workers} {p q : Phase} → p ≡ finished → Act g ws p g' ws' q → ⊥
finished-stuck e (finds_idle k) = cc
finished-stuck e (no_idle k) = cc
finished-stuck e gives = cc
finished-stuck e (signals n) = cc
finished-stuck e pushes = cc
finished-stuck e (sweeps k) = cc
finished-stuck e (notifies n) = cc
finished-stuck e (ends k) = cc

only_finished : (xs ys : List Phase) (p : Phase) → finished ∷ [] ≡ xs ++ (p ∷ ys) → p ≡ finished
only_finished [] ys p e = cc
only_finished (x ∷ []) ys p e = absurd cc
only_finished (x ∷ (y ∷ xs)) ys p e = absurd cc

one_worker-IsStuck :
    (s : State) → (s.workers 0).pc ≡ waiting → s.posters ≡ finished ∷ [] → IsStuck 1 s
one_worker-IsStuck s w f = record {
  no_turn = only_zero;
  no_act = λ xs ys p q g ws e a. finished-stuck (only_finished xs ys p (sym f ∙ e)) a;
}
  where
    only_zero : (i : ℕ) → i < 1 → (g : Lists) (k : Worker) → Turn s.lists (s.workers i) i g k → ⊥
    only_zero zero l g k t = waiting-stuck w t
    only_zero (suc i) l g k t = absurd (omega (arith, l))

turn :
    {b : Bool} {s : State} {g : Lists} {w : Worker}
    → Reach b 1 s
    → Turn s.lists (s.workers 0) 0 g w
    → Reach b 1 (record s { lists = g; workers = set_worker s.workers 0 w })
turn r t = later r (works 0 (omega arith) t)

-- The one call of `Post` goes on.
act :
    {b : Bool} {s : State} {p q : Phase} {g : Lists} {ws : Workers}
    → Reach b 1 s
    → s.posters ≡ p ∷ []
    → Act s.lists s.workers p g ws q
    → Reach b 1 (record { lists = g; workers = ws; posters = q ∷ [] })
act r e a = later r (acts [] [] e a)

-- A group of one worker may lose sight of a task: for every task there is a state that can be reached
-- in which it stands in the queue and has not run, and in which neither the worker, which waits, nor
-- a call of `Post` can take a step; only a later `Post` goes on.
pub lost_task :
    (t : ℕ)
    → (s : State) × Reach false 1 s
      × IsStuck 1 s
      × (s.lists.task_queue ≡ t ∷ [])
      × (s.lists.ran ≡ [])
      × ((s.workers 0).is_runing ≡ true)
lost_task t =
    let r1 = turn (later fresh (posts t)) (finds_none refl refl refl) in
    let r2 = turn r1 (misses refl refl) in
    let r3 = act r2 refl (no_idle refl) in
    let r4 = act r3 refl pushes in
    let r5 = act r4 refl (ends refl) in
    let r6 = turn r5 (parks refl refl) in
    let r7 = turn r6 (waits refl) in (_, r7, one_worker-IsStuck _ refl refl, refl, refl, refl)

-- Where `cv.wait` may return without a signal, two tasks may be given to one worker: then the
-- `assert` of `RunTask` fails, in a group of one worker and for any two tasks.
pub spurious_fail : (t u : ℕ) → (s : State) × Reach true 1 s × (s.lists.has_failed ≡ true)
spurious_fail t u =
    let r1 = turn fresh (finds_none refl refl refl) in
    let r2 = turn r1 (misses refl refl) in
    let r3 = turn r2 (parks refl refl) in
    let r4 = turn r3 (waits refl) in
    let r5 = later r4 (rouses 0 (omega arith) refl refl) in
    let r6 = turn r5 (finds_none refl refl refl) in
    let r7 = turn r6 (misses refl refl) in
    let r8 = turn r7 (parks refl refl) in
    let r9 = turn r8 (waits refl) in
    let r10 = later r9 (posts t) in
    let r11 = act r10 refl (finds_idle refl) in
    let r12 = act r11 refl gives in
    let r13 = later r12 (posts u) in
    let r14 = later r13 (acts [] (signalling 0 ∷ []) refl (finds_idle refl)) in
    let r15 = later r14 (acts [] (signalling 0 ∷ []) refl gives) in (_, r15, refl)
