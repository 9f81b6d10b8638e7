-- ===== src/Service/History.antt =====
-- The ring of slots against the history that it stands for: the slots by their age.
use mtrpc.Base.{
  ℕ, zero, suc, ◌+◌, ◌-◌, ◌%◌, ◌≤◌, ◌<◌, ◌≡◌, refl, ap, sym, ◌∙◌, arith, Bool, false, List, [], ◌∷◌,
  if◌then◌else◌, ◌==◌, ==_refl,
}
use mtrpc.Service.Stats.{
  stat_slot_count, StatSlot, zero_slot, MethodBoard, method_board, count_call, set_slot,
  report_process_end, next_slot, add_slot, index_before, latest_from, latest_stats,
}

-- The slots by their age: 0 is the one that is being counted in.
abbrev pub Ages : Type 0
Ages = ℕ → StatSlot

-- What a board was told.
pub data Report : Type 0 where
  ends : Bool → ℕ → Report
  turns : Report

abbrev pub told : MethodBoard → Report → MethodBoard
told b (ends succeed t) = report_process_end b succeed t
told b turns = next_slot b

unfoldable pub aged : Ages → Report → Ages
aged h (ends succeed t) zero = count_call (h 0) succeed t
aged h (ends succeed t) (suc j) = h (suc j)
aged h turns zero = zero_slot
aged h turns (suc j) = h j

abbrev pub told_all : MethodBoard → List Report → MethodBoard
told_all b [] = b
told_all b (r ∷ rs) = told_all (told b r) rs

abbrev pub aged_all : Ages → List Report → Ages
aged_all h [] = h
aged_all h (r ∷ rs) = aged_all (aged h r) rs

-- The sum over `n` slots, from age `j` on.
abbrev pub collect : ℕ → Ages → ℕ → StatSlot → StatSlot
collect zero h j out = out
collect (suc n) h j out = collect n h (suc j) (add_slot out (h j))

-- The place of the slot of age `j`.
abbrev pub back : ℕ → ℕ → ℕ
back i j = (i + stat_slot_count - j) % stat_slot_count

pub record Stands (b : MethodBoard) (h : Ages) : Type 0 where
  pub index_lt : b.slot_index < stat_slot_count
  pub slot_is : (j : ℕ) → j < stat_slot_count → b.slots (back b.slot_index j) ≡ h j

back-before :
    (i j : ℕ)
    → i < stat_slot_count
    → j + 1 < stat_slot_count
    → index_before (back i j) ≡ back i (suc j)
back-before i j hi hj = ground arith

latest_from-collect :
    (n : ℕ) (b : MethodBoard) (h : Ages) (j : ℕ) (out : StatSlot)
    → Stands b h
    → j + n ≤ stat_slot_count
    → 0 < n
    → latest_from n b (back b.slot_index j) out ≡ collect n h j out
unfolding latest_from
latest_from-collect zero b h j out v l p = absurd (omega arith)
latest_from-collect (suc zero) b h j out v l p = ap (add_slot out) (v.slot_is j (omega arith))
latest_from-collect (suc (suc n)) b h j out v l p =
    rw (back-before b.slot_index j v.index_lt (omega arith), v.slot_is j (omega arith))
      (latest_from-collect (suc n) b h (suc j) (add_slot out (h j)) v (omega arith) (omega arith))

back-zero : (i : ℕ) → i < stat_slot_count → back i 0 ≡ i
back-zero i h = omega arith

back-suc : (i j : ℕ) → i < stat_slot_count → suc j < stat_slot_count → (back i (suc j) == i) ≡ false
back-suc i j hi hj = ground arith

-- The slot that is counted in, and the others, after a change of the former.
set_slot-back :
    (f : ℕ → StatSlot) (i j : ℕ) (s : StatSlot)
    → i < stat_slot_count
    → suc j < stat_slot_count
    → set_slot f i s (back i (suc j)) ≡ f (back i (suc j))
set_slot-back f i j s hi hj = rw (back-suc i j hi hj) refl

set_slot-zero :
    (f : ℕ → StatSlot) (i : ℕ) (s : StatSlot) → i < stat_slot_count → set_slot f i s (back i 0) ≡ s
set_slot-zero f i s h = rw (back-zero i h) (rw (==_refl i) refl)

ends-Stands :
    (b : MethodBoard) (h : Ages) (succeed : Bool) (t : ℕ)
    → Stands b h
    → Stands (report_process_end b succeed t) (aged h (ends succeed t))
unfolding report_process_end aged
ends-Stands b h succeed t v = record { index_lt = v.index_lt; slot_is = slot }
  where
    slot :
        (j : ℕ)
        → j < stat_slot_count
        → set_slot b.slots b.slot_index
            (count_call (b.slots b.slot_index) succeed t)
            (back b.slot_index j)
          ≡ aged h (ends succeed t) j
    slot zero l =
        set_slot-zero b.slots b.slot_index (count_call (b.slots b.slot_index) succeed t) v.index_lt
        ∙ ap (λ i. count_call (b.slots i) succeed t) (sym (back-zero b.slot_index v.index_lt))
        ∙ ap (λ s. count_call s succeed t) (v.slot_is 0 l)
    slot (suc j) l = set_slot-back b.slots b.slot_index j _ v.index_lt l ∙ v.slot_is (suc j) l

abbrev next_index : ℕ → ℕ
next_index i = if i + 1 == stat_slot_count then 0 else i + 1

next_index_lt : (i : ℕ) → i < stat_slot_count → next_index i < stat_slot_count
next_index_lt i h = ground arith

back-next :
    (i j : ℕ)
    → i < stat_slot_count
    → suc j < stat_slot_count
    → back (next_index i) (suc j) ≡ back i j
back-next i j hi hj = ground arith

turns-Stands : (b : MethodBoard) (h : Ages) → Stands b h → Stands (next_slot b) (aged h turns)
unfolding next_slot aged
turns-Stands b h v = record { index_lt = next_index_lt b.slot_index v.index_lt; slot_is = slot }
  where
    slot :
        (j : ℕ)
        → j < stat_slot_count
        → set_slot b.slots (next_index b.slot_index) zero_slot (back (next_index b.slot_index) j)
          ≡ aged h turns j
    slot zero l =
        set_slot-zero b.slots (next_index b.slot_index) zero_slot
          (next_index_lt b.slot_index v.index_lt)
    slot (suc j) l =
        set_slot-back b.slots (next_index b.slot_index) j zero_slot
          (next_index_lt b.slot_index v.index_lt) l
        ∙ ap b.slots (back-next b.slot_index j v.index_lt l)
        ∙ v.slot_is j (omega arith)

told_all-Stands :
    (rs : List Report) (b : MethodBoard) (h : Ages)
    → Stands b h
    → Stands (told_all b rs) (aged_all h rs)
told_all-Stands [] b h v = v
told_all-Stands (ends succeed t ∷ rs) b h v = told_all-Stands rs _ _ (ends-Stands b h succeed t v)
told_all-Stands (turns ∷ rs) b h v = told_all-Stands rs _ _ (turns-Stands b h v)

-- Whatever a new board was told, `LatestStats` of up to 601 slots adds up the slots that were
-- finished last, as a history of all slots has them: the slot that is being counted in is left out,
-- and no slot is taken for an older one.
pub latest_stats-collect :
    (rs : List Report) (n : ℕ)
    → 0 < n
    → n < stat_slot_count
    → latest_stats (told_all method_board rs) n
      ≡ collect n (aged_all (λ j. zero_slot) rs) 1 zero_slot
unfolding latest_stats
latest_stats-collect rs n p l =
    let start : Stands method_board (λ j. zero_slot) = record {
      index_lt = omega arith;
      slot_is = λ j h. refl;
    } in
    let v = told_all-Stands rs method_board (λ j. zero_slot) start in
    ap (λ i. latest_from n (told_all method_board rs) i zero_slot)
      (before (told_all method_board rs).slot_index v.index_lt)
    ∙ latest_from-collect n (told_all method_board rs) _ 1 zero_slot v (omega arith) p
  where
    before : (i : ℕ) → i < stat_slot_count → index_before i ≡ back i 1
    before i h = ground arith
