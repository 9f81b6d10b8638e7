-- ===== src/WorkGroup.antt =====
-- thread/workpool.h and thread/workpool.cpp: a group of workers, each in its loop, and the threads
-- that post tasks, in the steps between which another thread can come. A task is a number.
--
-- A SpinList is a list whose head goes out first; its lock makes each operation one step.
pub mod Handing
pub mod Tasks
pub mod Lost
use mtrpc.Base.{
  ℕ, ◌≡◌, ◌≢◌, ◌<◌, Bool, true, false, ◌||◌, List, [], ◌∷◌, ◌++◌, Option, none, some, if◌then◌else◌,
  ◌==◌,
}

-- Where `Worker::loop` stands: before the test and the swap of `task`, before the `pop` of the
-- queue, in a task, before it locks its mutex, with itself in `idleWorker` and its mutex locked, in
-- `cv.wait`, and at its end.
pub data Pc : Type 0 where
  looking polling parking parked waiting exited : Pc
  running : ℕ → Pc

pub record Worker : Type 0 where
  pub pc : Pc
  pub task : Option ℕ
  pub is_runing : Bool

-- `Worker()`
abbrev pub worker : Worker
worker = record { pc = looking; task = none; is_runing = true }

-- Where a call of `Post` stands: before its first `pop`, with a worker to give the task to, with one
-- to signal, before its `push`, in the loop behind that, with one to signal there, and at its end.
pub data Phase : Type 0 where
  posting pushing : ℕ → Phase
  giving : ℕ → ℕ → Phase
  signalling notifying : ℕ → Phase
  sweeping finished : Phase

-- What the threads share, with the tasks that were posted and those that have run, and whether the
-- `assert` of `RunTask` has failed.
pub record Lists : Type 0 where
  pub task_queue : List ℕ
  pub idle_worker : List ℕ
  pub posted : List ℕ
  pub ran : List ℕ
  pub has_failed : Bool

-- A SpinList's `push`.
abbrev pub push : List ℕ → ℕ → List ℕ
push l a = l ++ a ∷ []

abbrev pub Workers : Type 0
Workers = ℕ → Worker

abbrev pub set_worker : Workers → ℕ → Worker → Workers
set_worker f i w j = if j == i then w else f j

-- `cv.notifyOne()`, or `cv.notifyAll()`: a worker that waits goes on.
abbrev pub woken_pc : Pc → Pc
woken_pc waiting = looking
woken_pc p = p

abbrev pub wake : Worker → Worker
wake w = record w { pc = woken_pc w.pc }

-- One step of the worker with number `i`.
pub data Turn (g : Lists) (w : Worker) (i : ℕ) : Lists → Worker → Type 0 where
  takes :
      {t : ℕ}
      → w.pc ≡ looking
      → w.is_runing ≡ true
      → w.task ≡ some t
      → Turn g w i g (record w { pc = running t; task = none })
  finds_none :
      w.pc ≡ looking → w.is_runing ≡ true → w.task ≡ none → Turn g w i g (record w { pc = polling })
  leaves : w.pc ≡ looking → w.is_runing ≡ false → Turn g w i g (record w { pc = exited })
  pops :
      {t : ℕ} {q : List ℕ}
      → w.pc ≡ polling
      → g.task_queue ≡ t ∷ q
      → Turn g w i (record g { task_queue = q }) (record w { pc = running t })
  misses : w.pc ≡ polling → g.task_queue ≡ [] → Turn g w i g (record w { pc = parking })
  runs :
      {t : ℕ}
      → w.pc ≡ running t
      → Turn g w i (record g { ran = t ∷ g.ran }) (record w { pc = looking })
  parks :
      w.pc ≡ parking
      → w.is_runing ≡ true
      → Turn g w i (record g { idle_worker = push g.idle_worker i }) (record w { pc = parked })
  quits : w.pc ≡ parking → w.is_runing ≡ false → Turn g w i g (record w { pc = exited })
  waits : w.pc ≡ parked → Turn g w i g (record w { pc = waiting })

-- `__sync_lock_test_and_set(&task, t)` and the `assert` on what it returns.
abbrev pub is_some : Option ℕ → Bool
is_some none = false
is_some (some t) = true

abbrev pub give_task : Worker → ℕ → Worker
give_task w t = record w { task = some t }

-- One step of a call of `Post`. To signal a worker its mutex must be free.
pub data Act (g : Lists) (ws : Workers) : Phase → Lists → Workers → Phase → Type 0 where
  finds_idle :
      {t i : ℕ} {l : List ℕ}
      → g.idle_worker ≡ i ∷ l
      → Act g ws (posting t) (record g { idle_worker = l }) ws (giving i t)
  no_idle : {t : ℕ} → g.idle_worker ≡ [] → Act g ws (posting t) g ws (pushing t)
  gives :
      {t i : ℕ}
      → Act g ws
          (giving i t)
          (record g { has_failed = g.has_failed || is_some (ws i).task })
          (set_worker ws i (give_task (ws i) t))
          (signalling i)
  signals :
      {i : ℕ}
      → (ws i).pc ≢ parked
      → Act g ws (signalling i) g (set_worker ws i (wake (ws i))) finished
  pushes :
      {t : ℕ} → Act g ws (pushing t) (record g { task_queue = push g.task_queue t }) ws sweeping
  sweeps :
      {i : ℕ} {l : List ℕ}
      → g.idle_worker ≡ i ∷ l
      → Act g ws sweeping (record g { idle_worker = l }) ws (notifying i)
  notifies :
      {i : ℕ}
      → (ws i).pc ≢ parked
      → Act g ws (notifying i) g (set_worker ws i (wake (ws i))) sweeping
  ends : g.idle_worker ≡ [] → Act g ws sweeping g ws finished

pub record State : Type 0 where
  pub lists : Lists
  pub workers : Workers
  pub posters : List Phase

-- One step of a group of `n` workers: of a worker, of a call of `Post`, a new call of it, and
-- `Worker::Stop`. Where `spurious` is true, `cv.wait` may return without a signal.
pub data Step (spurious : Bool) (n : ℕ) (s : State) : State → Type 0 where
  works :
      (i : ℕ) {g : Lists} {w : Worker}
      → i < n
      → Turn s.lists (s.workers i) i g w
      → Step spurious n s (record s { lists = g; workers = set_worker s.workers i w })
  acts :
      (xs ys : List Phase) {p q : Phase} {g : Lists} {ws : Workers}
      → s.posters ≡ xs ++ (p ∷ ys)
      → Act s.lists s.workers p g ws q
      → Step spurious n s (record { lists = g; workers = ws; posters = xs ++ (q ∷ ys) })
  posts :
      (t : ℕ)
      → Step spurious n s (record s {
        lists = record (s.lists) { posted = t ∷ s.lists.posted };
        posters = posting t ∷ s.posters;
      })
  stops :
      (i : ℕ)
      → i < n
      → (s.workers i).pc ≢ parked
      → Step spurious n s (record s {
        workers = set_worker s.workers i (record (wake (s.workers i)) { is_runing = false });
      })
  rouses :
      (i : ℕ)
      → i < n
      → spurious ≡ true
      → (s.workers i).pc ≡ waiting
      → Step spurious n s (record s { workers = set_worker s.workers i (wake (s.workers i)) })

-- `WorkGroup()` with its workers in their loops.
abbrev pub work_group : State
work_group = record {
  lists = record { task_queue = []; idle_worker = []; posted = []; ran = []; has_failed = false };
  workers = λ i. worker;
  posters = [];
}

pub data Reach (spurious : Bool) (n : ℕ) : State → Type 0 where
  fresh : Reach spurious n work_group
  later : {s t : State} → Reach spurious n s → Step spurious n s t → Reach spurious n t
