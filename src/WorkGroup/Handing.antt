-- ===== src/WorkGroup/Handing.antt =====
-- A task that is given to a worker: its worker is asleep, has no other task, and is woken.
use mtrpc.Base.{
  ℕ, ◌+◌, ◌≡◌, ◌≢◌, ◌<◌, ◌≤◌, refl, ap, arith, Bool, true, false, List, [], ◌∷◌, ◌++◌, Option, none,
  some, if◌then◌else◌, ◌==◌, ==_iff, ==_refl, Bool-cases, inl, inr, tally, tally-append,
  tally-replace,
}
use mathlib.Core.Path.{subst}
use mtrpc.WorkGroup.{
  Pc, looking, polling, parking, parked, waiting, running, Worker, Phase, giving, signalling,
  notifying, Lists, Workers, set_worker, wake, Turn, takes, finds_none, leaves, pops, misses, runs,
  parks, quits, waits, is_some, give_task, Act, finds_idle, no_idle, gives, signals, pushes, sweeps,
  notifies, ends, State, Step, works, acts, posts, stops, rouses, Reach, fresh, later,
}

-- 1 where two numbers are the same.
abbrev pub one_if : Bool → ℕ
one_if b = if b then 1 else 0

-- The calls of `Post` that have the worker `w` to give a task to, to signal, and to notify.
abbrev pub giving_to : ℕ → Phase → ℕ
giving_to w (giving i t) = one_if (i == w)
giving_to w _ = 0

abbrev pub signalling_to : ℕ → Phase → ℕ
signalling_to w (signalling i) = one_if (i == w)
signalling_to w _ = 0

abbrev pub notifying_to : ℕ → Phase → ℕ
notifying_to w (notifying i) = one_if (i == w)
notifying_to w _ = 0

abbrev pub idle_as : ℕ → ℕ → ℕ
idle_as w i = one_if (i == w)

abbrev pub asleep : Pc → ℕ
asleep parked = 1
asleep waiting = 1
asleep _ = 0

abbrev pub is_looking : Pc → ℕ
is_looking looking = 1
is_looking _ = 0

-- Behind the swap of `task`, and before the next one.
abbrev pub is_busy : Pc → Bool
is_busy polling = true
is_busy parking = true
is_busy (running t) = true
is_busy _ = false

abbrev pub load : Option ℕ → ℕ
load o = one_if (is_some o)

-- What holds of a worker that is in `idleWorker` `id` times, with `g` calls of `Post` that are to
-- give it a task, `s` to signal it and `v` to notify it.
pub record Fit (id g s v : ℕ) (k : Worker) : Type 0 where
  pub one : load k.task + id + g + v ≤ 1
  pub sleeps : k.is_runing ≡ true → id + g + s + v ≡ asleep k.pc
  pub free : k.is_runing ≡ true → is_busy k.pc ≡ true → load k.task ≡ 0
  pub woken : k.is_runing ≡ true → load k.task ≤ s + is_looking k.pc

-- A turn of the worker itself: it enters `idleWorker` when it parks.
pub Turn-Fit :
    {g g' : Lists} {k k' : Worker} {i : ℕ} (a b c d : ℕ)
    → Turn g k i g' k'
    → Fit a b c d k
    → a ≡ tally (idle_as i) g.idle_worker
    → Fit (tally (idle_as i) g'.idle_worker) b c d k'
Turn-Fit a b c d (takes p r t) f e = ground (arith, f.sleeps, f.free, f.woken)
Turn-Fit a b c d (finds_none p r t) f e = ground (arith, f.sleeps, f.free, f.woken)
Turn-Fit a b c d (leaves p r) f e = ground (arith, f.sleeps, f.free, f.woken)
Turn-Fit a b c d (pops p q) f e = ground (arith, f.sleeps, f.free, f.woken)
Turn-Fit a b c d (misses p q) f e = ground (arith, f.sleeps, f.free, f.woken)
Turn-Fit a b c d (runs p) f e = ground (arith, f.sleeps, f.free, f.woken)
Turn-Fit {g} {g'} {k} {k'} {i} a b c d (parks p r) f e = ground (
  arith,
  f.sleeps r,
  f.free r,
  f.woken r,
  tally-append (idle_as i) g.idle_worker (i ∷ []),
  ==_refl i,
)
Turn-Fit a b c d (quits p r) f e = ground (arith, f.sleeps, f.free, f.woken)
Turn-Fit a b c d (waits p) f e = ground (arith, f.sleeps, f.free, f.woken)

-- Tasks given and signals do to the worker that they are for; `b` is whether that is `w`.
give-Fit :
    (b : Bool) (id g s v g' s' v' t : ℕ) (k : Worker)
    → Fit id g s v k
    → g' + one_if b ≡ g
    → s' ≡ s + one_if b
    → v' ≡ v
    → Fit id g' s' v' (if b then give_task k t else k)
give-Fit true id g s v g' s' v' t k f p q r = ground (arith, f.sleeps, f.free, f.woken)
give-Fit false id g s v g' s' v' t k f p q r = ground (arith, f.sleeps, f.free, f.woken)

signal-Fit :
    (b : Bool) (id g s v g' s' v' : ℕ) (k : Worker)
    → Fit id g s v k
    → (b ≡ true → k.pc ≢ parked)
    → g' ≡ g
    → s' + one_if b ≡ s
    → v' ≡ v
    → Fit id g' s' v' (if b then wake k else k)
signal-Fit true id g s v g' s' v' k f n p q r = ground (arith, f.sleeps, f.free, f.woken, n refl)
signal-Fit false id g s v g' s' v' k f n p q r = ground (arith, f.sleeps, f.free, f.woken)

notify-Fit :
    (b : Bool) (id g s v g' s' v' : ℕ) (k : Worker)
    → Fit id g s v k
    → (b ≡ true → k.pc ≢ parked)
    → g' ≡ g
    → s' ≡ s
    → v' + one_if b ≡ v
    → Fit id g' s' v' (if b then wake k else k)
notify-Fit true id g s v g' s' v' k f n p q r = ground (arith, f.sleeps, f.free, f.woken, n refl)
notify-Fit false id g s v g' s' v' k f n p q r = ground (arith, f.sleeps, f.free, f.woken)

set_worker-if :
    (ws : Workers) (i w : ℕ) (f : Worker → Worker)
    → set_worker ws i (f (ws i)) w ≡ (if i == w then f (ws w) else ws w)
set_worker-if ws i w f = elim (Bool-cases (i == w)) [
  | inl e ↦ rw (e, (==_iff i w).0 e, ==_refl w) refl
  | inr e ↦ rw (e, other e) refl
]
  where
    other : (i == w) ≡ false → (w == i) ≡ false
    other e = ground arith

-- A step of a call of `Post`, for any worker `w`; the numbers are those of the calls after it.
pub Act-Fit :
    {l l' : Lists} {ws ws' : Workers} {p q : Phase} (w g s v g' s' v' : ℕ)
    → Act l ws p l' ws' q
    → Fit (tally (idle_as w) l.idle_worker) g s v (ws w)
    → g' + giving_to w p ≡ g + giving_to w q
    → s' + signalling_to w p ≡ s + signalling_to w q
    → v' + notifying_to w p ≡ v + notifying_to w q
    → Fit (tally (idle_as w) l'.idle_worker) g' s' v' (ws' w)
Act-Fit w g s v g' s' v' (finds_idle e) f x y z = ground (arith, e, f.sleeps, f.free, f.woken)
Act-Fit w g s v g' s' v' (no_idle e) f x y z = ground (arith, f.sleeps, f.free, f.woken)
Act-Fit {ws = ws} w g s v g' s' v' (gives {t = t} {i = i}) f x y z =
    rw (set_worker-if ws i w (λ k. give_task k t))
      (give-Fit (i == w) _ g s v g' s' v' t (ws w) f (omega arith) (omega arith) (omega arith))
Act-Fit {ws = ws} w g s v g' s' v' (signals {i = i} n) f x y z = rw (set_worker-if ws i w wake) (
    signal-Fit (i == w) _ g s v g' s' v' (ws w) f
      (λ e. subst (λ j. (ws j).pc ≢ parked) ((==_iff i w).0 e) n) (omega arith) (omega arith)
      (omega arith))
Act-Fit w g s v g' s' v' pushes f x y z = ground (arith, f.sleeps, f.free, f.woken)
Act-Fit w g s v g' s' v' (sweeps e) f x y z = ground (arith, e, f.sleeps, f.free, f.woken)
Act-Fit {ws = ws} w g s v g' s' v' (notifies {i = i} n) f x y z = rw (set_worker-if ws i w wake) (
    notify-Fit (i == w) _ g s v g' s' v' (ws w) f
      (λ e. subst (λ j. (ws j).pc ≢ parked) ((==_iff i w).0 e) n) (omega arith) (omega arith)
      (omega arith))
Act-Fit w g s v g' s' v' (ends e) f x y z = ground (arith, f.sleeps, f.free, f.woken)

stop-Fit :
    (b : Bool) (id g s v : ℕ) (k : Worker)
    → Fit id g s v k
    → Fit id g s v (if b then record (wake k) { is_runing = false } else k)
stop-Fit true id g s v k f = ground (arith, f.sleeps, f.free, f.woken)
stop-Fit false id g s v k f = f

-- In a state every worker fits.
abbrev pub AllFit : State → Type 0
AllFit s =
    (w : ℕ)
    → Fit (tally (idle_as w) s.lists.idle_worker) (tally (giving_to w) s.posters)
        (tally (signalling_to w) s.posters) (tally (notifying_to w) s.posters) (s.workers w)

-- A turn of another worker leaves alone how often `w` is in `idleWorker`.
Turn-other :
    {g g' : Lists} {k k' : Worker} {i : ℕ} (w : ℕ)
    → Turn g k i g' k'
    → (w == i) ≡ false
    → tally (idle_as w) g'.idle_worker ≡ tally (idle_as w) g.idle_worker
Turn-other w (takes p r t) h = refl
Turn-other w (finds_none p r t) h = refl
Turn-other w (leaves p r) h = refl
Turn-other w (pops p q) h = refl
Turn-other w (misses p q) h = refl
Turn-other w (runs p) h = refl
Turn-other {g} {i = i} w (parks p r) h =
    ground (arith, tally-append (idle_as w) g.idle_worker (i ∷ []))
Turn-other w (quits p r) h = refl
Turn-other w (waits p) h = refl

pub Step-AllFit : {n : ℕ} {s t : State} → Step false n s t → AllFit s → AllFit t
Step-AllFit {s = s} (works i {g} {w = k} lt u) f w = elim (Bool-cases (w == i)) [
  | inl e ↦ rw (e, (==_iff w i).0 e) (Turn-Fit _ _ _ _ u (f i) refl)
  | inr e ↦ rw (e, Turn-other w u e) (f w)
]
Step-AllFit {s = s} (acts xs ys {p} {q} e a) f w =
    Act-Fit w _ _ _ _ _ _ a (f w) (rw e (tally-replace (giving_to w) xs ys p q))
      (rw e (tally-replace (signalling_to w) xs ys p q))
      (rw e (tally-replace (notifying_to w) xs ys p q))
Step-AllFit (posts t) f w = let h = f w in ground (arith, h.sleeps, h.free, h.woken)
Step-AllFit {s = s} (stops i lt h) f w =
    rw (set_worker-if s.workers i w (λ k. record (wake k) { is_runing = false }))
      (stop-Fit (i == w) _ _ _ _ (s.workers w) (f w))
Step-AllFit (rouses i lt e p) f w = absurd cc

pub Reach-AllFit : {n : ℕ} {s : State} → Reach false n s → AllFit s
Reach-AllFit fresh w = record {
  one = omega arith;
  sleeps = λ r. refl;
  free = λ r b. refl;
  woken = λ r. omega arith;
}
Reach-AllFit (later r st) w = Step-AllFit st (Reach-AllFit r) w

-- The worker that a task is given to has none.
pub gives-free :
    (s : State) (f : AllFit s) (xs ys : List Phase) (i t : ℕ)
    → s.posters ≡ xs ++ (giving i t ∷ ys)
    → (s.workers i).task ≡ none
gives-free s f xs ys i t e = none-of (s.workers i).task (
    omega (
      arith,
      (f i).one,
      ap (tally (giving_to i)) e,
      tally-append (giving_to i) xs (giving i t ∷ ys),
      ap one_if (==_refl i),
    ))
  where
    none-of : (o : Option ℕ) → load o ≡ 0 → o ≡ none
    none-of none h = refl
    none-of (some t) h = absurd (omega (arith, h))

Act-holds :
    (s : State) (f : AllFit s) (xs ys : List Phase) {p q : Phase} {g : Lists} {ws : Workers}
    → s.posters ≡ xs ++ (p ∷ ys)
    → s.lists.has_failed ≡ false
    → Act s.lists s.workers p g ws q
    → g.has_failed ≡ false
Act-holds s f xs ys e h (finds_idle k) = h
Act-holds s f xs ys e h (no_idle k) = h
Act-holds s f xs ys e h (gives {t = t} {i = i}) = rw (h, gives-free s f xs ys i t e)
Act-holds s f xs ys e h (signals n) = h
Act-holds s f xs ys e h pushes = h
Act-holds s f xs ys e h (sweeps k) = h
Act-holds s f xs ys e h (notifies n) = h
Act-holds s f xs ys e h (ends k) = h

Turn-holds :
    {g g' : Lists} {k k' : Worker} {i : ℕ}
    → Turn g k i g' k'
    → g.has_failed ≡ false
    → g'.has_failed ≡ false
Turn-holds (takes p r t) h = h
Turn-holds (finds_none p r t) h = h
Turn-holds (leaves p r) h = h
Turn-holds (pops p q) h = h
Turn-holds (misses p q) h = h
Turn-holds (runs p) h = h
Turn-holds (parks p r) h = h
Turn-holds (quits p r) h = h
Turn-holds (waits p) h = h

pub Reach-holds : {n : ℕ} {s : State} → Reach false n s → s.lists.has_failed ≡ false
Reach-holds fresh = refl
Reach-holds (later r (works i lt u)) = Turn-holds u (Reach-holds r)
Reach-holds (later r (acts xs ys e a)) = Act-holds _ (Reach-AllFit r) xs ys e (Reach-holds r) a
Reach-holds (later r (posts t)) = Reach-holds r
Reach-holds (later r (stops i lt h)) = Reach-holds r
Reach-holds (later r (rouses i lt e p)) = absurd cc

-- Where `cv.wait` returns on a signal only: in every state that can be reached the `assert` of
-- `RunTask` has not failed, and a worker that was not stopped and has been given a task is about to
-- look at it, or some call of `Post` is about to signal that worker.
pub handed_over :
    {n : ℕ} {s : State}
    → Reach false n s
    → (s.lists.has_failed ≡ false)
      × ((w t : ℕ)
          → (s.workers w).is_runing ≡ true
          → (s.workers w).task ≡ some t
          → 0 < tally (signalling_to w) s.posters + is_looking (s.workers w).pc)
handed_over r = (Reach-holds r, λ w t run e. omega (arith, (Reach-AllFit r w).woken run, ap load e))
