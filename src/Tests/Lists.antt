-- ===== src/Tests/Lists.antt =====
-- Runs of the doubly linked list.
use mtrpc.Base.{ℕ, ◌+◌, ◌≡◌, ◌≤◌, refl, arith, false, [], ◌∷◌, none, some}
use mtrpc.SpinList.{Heap, SpinList, spin_list, push, pop, merge}
use mtrpc.SpinList.Segment.{times, empty, link}
use mtrpc.SpinList.Queue.{IsQueue, emptied, push-IsQueue, merge_behind}
use mtrpc.SpinList.Fifo.{pushes, pops, run_list, run_queue, fifo}

-- A heap with no nodes.
abbrev no_nodes : Heap ℕ
no_nodes = record { value = λ i. 0; next = λ i. none; pre = λ i. none; live = λ i. false; top = 0 }

run_test :
    run_list no_nodes spin_list
      (pushes 7 ∷ pushes 8 ∷ pops ∷ pushes 9 ∷ pops ∷ pops ∷ pops ∷ pushes 6 ∷ pops ∷ [])
    ≡ some 7 ∷ some 8 ∷ some 9 ∷ none ∷ some 6 ∷ []
unfolding push pop
run_test = refl

fifo_example :
    run_list no_nodes spin_list (pushes 7 ∷ pushes 8 ∷ pops ∷ pops ∷ pops ∷ [])
    ≡ run_queue [] (pushes 7 ∷ pushes 8 ∷ pops ∷ pops ∷ pops ∷ [])
fifo_example = fifo no_nodes (pushes 7 ∷ pushes 8 ∷ pops ∷ pops ∷ pops ∷ [])

-- Two lists with the values 7 and 8.
abbrev one : Heap ℕ × SpinList
one = push no_nodes spin_list 7

abbrev other : Heap ℕ × SpinList
other = push one.0 spin_list 8

one-IsQueue : IsQueue one.0 one.1 (0 ∷ []) (7 ∷ [])
one-IsQueue = push-IsQueue [] no_nodes spin_list 7 (emptied spin_list refl)

first-IsQueue : IsQueue other.0 one.1 (0 ∷ []) (7 ∷ [])
unfolding push
first-IsQueue = record {
  segment = link 0 refl refl refl refl empty;
  once = one-IsQueue.once;
  below = λ c i. ground (arith, i);
  no_cache = refl;
}

second-IsQueue : IsQueue other.0 other.1 (1 ∷ []) (8 ∷ [])
unfolding push
second-IsQueue = push-IsQueue [] one.0 spin_list 8 (emptied spin_list refl)

both_differ : (c : ℕ) → times c (0 ∷ []) + times c (1 ∷ []) ≤ 1
both_differ c = ground arith

merge_behind_example :
    (k : Heap ℕ) × (l : SpinList) × (m : SpinList) × (merge other.0 one.1 other.1 ≡ some (k, l, m))
    × IsQueue k l (0 ∷ 1 ∷ []) (7 ∷ 8 ∷ [])
    × IsQueue k m [] []
merge_behind_example = merge_behind first-IsQueue second-IsQueue both_differ
