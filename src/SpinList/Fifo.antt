-- ===== src/SpinList/Fifo.antt =====
-- About calls of `push` and `pop` in any order, against a queue.
use mtrpc.Base.{ℕ, ◌≡◌, refl, ap, ap₂, List, [], ◌∷◌, ◌++◌, Option, none, some}
use mtrpc.SpinList.{Heap, SpinList, spin_list, push, pop}
use mtrpc.SpinList.Queue.{IsQueue, emptied, push-IsQueue, pop-nil, pop-cons, empty_ends}

-- A call of `push`, or of `pop`.
pub data Op (A : Type 0) : Type 0 where
  pushes : A → Op A
  pops : Op A

nil-cons : {A : Type 0} {x : A} {xs : List A} → (x ∷ xs) ≡ [] → ⊥
nil-cons h = absurd cc

module _ {A : Type 0} where
  -- What the calls of `pop` give.
  abbrev pub run_list : Heap A → SpinList → List (Op A) → List (Option A)
  run_list h l [] = []
  run_list h l (pushes t ∷ ops) = run_list (push h l t).0 (push h l t).1 ops
  run_list h l (pops ∷ ops) = (pop h l).2 ∷ run_list (pop h l).0 (pop h l).1 ops

  -- The queue: its values, the oldest first.
  abbrev pub run_queue : List A → List (Op A) → List (Option A)
  run_queue xs [] = []
  run_queue xs (pushes t ∷ ops) = run_queue (xs ++ t ∷ []) ops
  run_queue [] (pops ∷ ops) = none ∷ run_queue [] ops
  run_queue (x ∷ xs) (pops ∷ ops) = some x ∷ run_queue xs ops

  run_list-queue :
      (ops : List (Op A)) (h : Heap A) (l : SpinList) (cs : List ℕ) (xs : List A)
      → IsQueue h l cs xs
      → run_list h l ops ≡ run_queue xs ops
  run_list-queue [] h l cs xs q = refl
  run_list-queue (pushes t ∷ ops) h l cs xs q =
      run_list-queue ops (push h l t).0 (push h l t).1 _ _ (push-IsQueue cs h l t q)
  run_list-queue (pops ∷ ops) h l cs [] q =
      rw (pop-nil q) (ap (λ r. none ∷ r) (run_list-queue ops h l cs [] q))
  run_list-queue (pops ∷ ops) h l [] (x ∷ xs) q = absurd (nil-cons (empty_ends q.segment).0)
  run_list-queue (pops ∷ ops) h l (c ∷ cs) (x ∷ xs) q =
      let (p, q') = pop-cons q in
      ap₂ (λ o r. o ∷ r) p (run_list-queue ops (pop h l).0 (pop h l).1 cs xs q')

  -- Any calls of `push` and `pop` on a new list, whatever the heap: each `pop` gives what a first-in
  -- first-out queue would, and nothing where that is empty.
  pub fifo : (h : Heap A) (ops : List (Op A)) → run_list h spin_list ops ≡ run_queue [] ops
  fifo h ops = run_list-queue ops h spin_list [] [] (emptied spin_list refl)
