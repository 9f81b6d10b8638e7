-- ===== src/WorkGroup/Tasks.antt =====
-- No task is lost, and none runs twice.
use mtrpc.Base.{
  ℕ, zero, suc, ◌+◌, ◌≡◌, ◌<◌, ◌≤◌, refl, ap, ◌∙◌, arith, false, List, [], ◌∷◌, ◌++◌, Option, none,
  some, ◌==◌, ==_iff, ==_refl, Bool-cases, inl, inr, tally, tally-append, tally-replace,
}
use mathlib.Core.Path.{subst}
use native.Mathlib.Decide.{dec_lt}
use mtrpc.WorkGroup.{
  Pc, running, Worker, worker, Phase, posting, pushing, giving, Lists, Workers, set_worker, wake,
  Turn, takes, finds_none, leaves, pops, misses, runs, parks, quits, waits, give_task, Act,
  finds_idle, no_idle, gives, signals, pushes, sweeps, notifies, ends, State, Step, works, acts,
  posts, stops, rouses, work_group, Reach, fresh, later,
}
use mtrpc.WorkGroup.Handing.{one_if, giving_to, asleep, AllFit, Reach-AllFit, gives-free}

-- A sum over the first `n` workers.
abbrev pub sum_to : (Worker → ℕ) → ℕ → Workers → ℕ
sum_to w zero f = 0
sum_to w (suc n) f = sum_to w n f + w (f n)

sum_to-outside :
    (w : Worker → ℕ) (n : ℕ) (f : Workers) (i : ℕ) (k : Worker)
    → n ≤ i
    → sum_to w n (set_worker f i k) ≡ sum_to w n f
sum_to-outside w zero f i k h = refl
sum_to-outside w (suc n) f i k h = ground (arith, sum_to-outside w n f i k)

-- One worker changes.
pub sum_to-set :
    (w : Worker → ℕ) (n : ℕ) (f : Workers) (i : ℕ) (k : Worker)
    → i < n
    → sum_to w n (set_worker f i k) + w (f i) ≡ sum_to w n f + w k
sum_to-set w zero f i k h = absurd (omega arith)
sum_to-set w (suc n) f i k h = elim (dec_lt i n) [
  | yes l ↦ ground (arith, sum_to-set w n f i k l)
  | no l ↦ let e : i ≡ n = omega arith in ground (arith, e, ap f e, sum_to-outside w n f i k)
]

-- How often task `t` is given by a phase of `Post`, is in a list, and is with a worker.
abbrev pub carries : ℕ → Phase → ℕ
carries t (posting u) = one_if (u == t)
carries t (pushing u) = one_if (u == t)
carries t (giving i u) = one_if (u == t)
carries t _ = 0

abbrev pub is_task : ℕ → ℕ → ℕ
is_task t u = one_if (u == t)

abbrev pub at_pc : ℕ → Pc → ℕ
at_pc t (running u) = one_if (u == t)
at_pc t _ = 0

abbrev pub in_slot : ℕ → Option ℕ → ℕ
in_slot t none = 0
in_slot t (some u) = one_if (u == t)

abbrev pub has_task : ℕ → Worker → ℕ
has_task t k = in_slot t k.task + at_pc t k.pc

-- The places where the task is, and has been.
abbrev pub places : ℕ → ℕ → State → ℕ
places n t s =
    tally (carries t) s.posters
    + tally (is_task t) s.lists.task_queue
    + sum_to (has_task t) n s.workers
    + tally (is_task t) s.lists.ran

in_lists : ℕ → Lists → ℕ
in_lists t g = tally (is_task t) g.task_queue + tally (is_task t) g.ran

-- A worker's turn moves tasks between it and the lists.
Turn-tasks :
    {g g' : Lists} {k k' : Worker} {i : ℕ} (t : ℕ)
    → Turn g k i g' k'
    → (in_lists t g' + has_task t k' ≡ in_lists t g + has_task t k) × (g'.posted ≡ g.posted)
unfolding in_lists
Turn-tasks t (takes p r h) = (ground arith, refl)
Turn-tasks t (finds_none p r h) = (ground arith, refl)
Turn-tasks t (leaves p r) = (ground arith, refl)
Turn-tasks t (pops p q) = (ground (arith, q), refl)
Turn-tasks t (misses p q) = (ground arith, refl)
Turn-tasks t (runs p) = (ground arith, refl)
Turn-tasks t (parks p r) = (ground arith, refl)
Turn-tasks t (quits p r) = (ground arith, refl)
Turn-tasks t (waits p) = (ground arith, refl)

wake-tasks : (t : ℕ) (k : Worker) → has_task t (wake k) ≡ has_task t k
wake-tasks t k = ground arith

-- A change of a worker that keeps its tasks.
keeps_tasks :
    (t n : ℕ) (f : Workers) (i : ℕ) (k : Worker)
    → has_task t k ≡ has_task t (f i)
    → sum_to (has_task t) n (set_worker f i k) ≡ sum_to (has_task t) n f
keeps_tasks t n f i k h = elim (dec_lt i n) [
  | yes l ↦ omega (arith, sum_to-set (has_task t) n f i k l, h)
  | no l ↦ sum_to-outside (has_task t) n f i k (omega arith)
]

give-tasks :
    (t u : ℕ) (k : Worker)
    → k.task ≡ none
    → has_task t (give_task k u) ≡ has_task t k + one_if (u == t)
give-tasks t u k h = ground (arith, h)

-- A step of a call of `Post` moves its task on, where a worker that it is given to has none.
Act-tasks :
    {g g' : Lists} {ws ws' : Workers} {p q : Phase} (t n : ℕ)
    → Act g ws p g' ws' q
    → ((i u : ℕ) → p ≡ giving i u → (i < n) × ((ws i).task ≡ none))
    → (carries t q + in_lists t g' + sum_to (has_task t) n ws'
        ≡ carries t p + in_lists t g + sum_to (has_task t) n ws)
      × (g'.posted ≡ g.posted)
unfolding in_lists
Act-tasks t n (finds_idle e) r = (refl, refl)
Act-tasks t n (no_idle e) r = (refl, refl)
Act-tasks {ws = ws} t n (gives {t = u} {i = i}) r =
    let (l, e) = r i u refl in
    (
      omega (arith, sum_to-set (has_task t) n ws i (give_task (ws i) u) l, give-tasks t u (ws i) e),
      refl,
    )
Act-tasks {ws = ws} t n (signals {i = i} h) r =
    (omega (arith, keeps_tasks t n ws i (wake (ws i)) (wake-tasks t (ws i))), refl)
Act-tasks {g} t n (pushes {t = u}) r =
    (omega (arith, tally-append (is_task t) g.task_queue (u ∷ [])), refl)
Act-tasks t n (sweeps e) r = (refl, refl)
Act-tasks {ws = ws} t n (notifies {i = i} h) r =
    (omega (arith, keeps_tasks t n ws i (wake (ws i)) (wake-tasks t (ws i))), refl)
Act-tasks t n (ends e) r = (refl, refl)

-- Workers from `n` on are not there.
abbrev Outside : ℕ → Workers → Type 0
Outside n f = (i : ℕ) → n ≤ i → f i ≡ worker

set-Outside :
    (n : ℕ) (f : Workers) (i : ℕ) (k : Worker) → i < n → Outside n f → Outside n (set_worker f i k)
set-Outside n f i k l o j h = ground (arith, o j h)

wake-Outside : (n : ℕ) (f : Workers) (i : ℕ) → Outside n f → Outside n (set_worker f i (wake (f i)))
wake-Outside n f i o j h = elim (Bool-cases (j == i)) [
  | inl e ↦ rw e (ap wake (o i (subst (λ x. n ≤ x) ((==_iff j i).0 e) h)))
  | inr e ↦ rw e (o j h)
]

-- A task is given to a worker of the group.
gives-lt :
    (n : ℕ) (s : State) (f : AllFit s) (o : Outside n s.workers) (xs ys : List Phase) (i u : ℕ)
    → s.posters ≡ xs ++ (giving i u ∷ ys)
    → i < n
gives-lt n s f o xs ys i u e = elim (dec_lt i n) [
  | yes l ↦ l
  | no l ↦
      let k : s.workers i ≡ worker = o i (omega arith) in
      absurd (
        omega (
          arith,
          (f i).sleeps (rw k refl),
          ap (λ (x : Worker). asleep x.pc) k,
          ap (tally (giving_to i)) e,
          tally-append (giving_to i) xs (giving i u ∷ ys),
          ap one_if (==_refl i),
        ))
]

-- Every task is in as many places as it was posted.
pub record IsKept (n : ℕ) (s : State) : Type 0 where
  pub outside : Outside n s.workers
  pub kept : (t : ℕ) → places n t s ≡ tally (is_task t) s.lists.posted

ready :
    (n : ℕ) (s : State) (f : AllFit s) (o : Outside n s.workers) (xs ys : List Phase) (p : Phase)
    → s.posters ≡ xs ++ (p ∷ ys)
    → (i u : ℕ) → p ≡ giving i u
    → (i < n) × ((s.workers i).task ≡ none)
ready n s f o xs ys p e i u h =
    let e' : s.posters ≡ xs ++ (giving i u ∷ ys) = e ∙ ap (λ (x : Phase). xs ++ (x ∷ ys)) h in
    (gives-lt n s f o xs ys i u e', gives-free s f xs ys i u e')

Act-Outside :
    {g g' : Lists} {ws ws' : Workers} {p q : Phase} (n : ℕ)
    → Act g ws p g' ws' q
    → ((i u : ℕ) → p ≡ giving i u → (i < n) × ((ws i).task ≡ none))
    → Outside n ws
    → Outside n ws'
Act-Outside n (finds_idle e) r o = o
Act-Outside n (no_idle e) r o = o
Act-Outside {ws = ws} n (gives {t = u} {i = i}) r o =
    set-Outside n ws i (give_task (ws i) u) (r i u refl).0 o
Act-Outside {ws = ws} n (signals {i = i} h) r o = wake-Outside n ws i o
Act-Outside n pushes r o = o
Act-Outside n (sweeps e) r o = o
Act-Outside {ws = ws} n (notifies {i = i} h) r o = wake-Outside n ws i o
Act-Outside n (ends e) r o = o

Step-IsKept : {n : ℕ} {s u : State} → Step false n s u → AllFit s → IsKept n s → IsKept n u
unfolding in_lists
Step-IsKept {n} {s} (works i {g} {w = k} l turn) f v = record {
  outside = set-Outside n s.workers i k l v.outside;
  kept = λ t.
      let (m, e) = Turn-tasks t turn in
      omega
        (arith, m, ap (tally (is_task t)) e, sum_to-set (has_task t) n s.workers i k l, v.kept t);
}
Step-IsKept {n} {s} (acts xs ys {p} {q} {ws = ws} e act) f v =
    let r = ready n s f v.outside xs ys p e in
    record {
      outside = Act-Outside n act r v.outside;
      kept = λ t.
          let (m, h) = Act-tasks t n act r in
          omega (
            arith,
            m,
            ap (tally (is_task t)) h,
            ap (tally (carries t)) e,
            tally-replace (carries t) xs ys p q,
            v.kept t,
          );
    }
Step-IsKept (posts u) f v = record { outside = v.outside; kept = λ t. omega (arith, v.kept t) }
Step-IsKept {n} {s} (stops i l h) f v =
    let k = record (wake (s.workers i)) { is_runing = false } in
    record {
      outside = set-Outside n s.workers i k l v.outside;
      kept =
          λ t. omega (arith, keeps_tasks t n s.workers i k (wake-tasks t (s.workers i)), v.kept t);
    }
Step-IsKept (rouses i l e p) f v = absurd cc

none_at_first : (t n : ℕ) → sum_to (has_task t) n work_group.workers ≡ 0
none_at_first t zero = refl
none_at_first t (suc n) = omega (arith, none_at_first t n)

Reach-IsKept : {n : ℕ} {s : State} → Reach false n s → IsKept n s
Reach-IsKept {n} fresh = record {
  outside = λ i h. refl;
  kept = λ t. omega (arith, none_at_first t n);
}
Reach-IsKept (later r st) = Step-IsKept st (Reach-AllFit r) (Reach-IsKept r)

-- Where `cv.wait` returns on a signal only, every task that was posted is, in every state that can be
-- reached, in as many places as it was posted: with a call of `Post`, in the queue, with a worker
-- that has it to do or is doing it, or among those that have run. None is lost, and none runs twice.
pub tasks_kept :
    {n : ℕ} {s : State}
    → Reach false n s
    → (t : ℕ) → places n t s ≡ tally (is_task t) s.lists.posted
tasks_kept r t = (Reach-IsKept r).kept t
