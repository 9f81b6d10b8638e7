-- ===== src/Statistics/Counters.antt =====
-- What the counters count.
use mtrpc.Base.{
  ℕ, ◌+◌, ◌%◌, ◌^◌, ◌≡◌, refl, ap, sym, ◌∙◌, arith, List, [], ◌∷◌, Option, none, some,
  if◌then◌else◌, ℤ, Bool-cases, inl, inr,
}
use mtrpc.Text.{Bytes, bytes_eq, find}
use mtrpc.Text.Map.{bytes_eq_iff, bytes_eq_refl, find-assign}
use mtrpc.Statistics.{
  Counters, Counts, to_uint64, register_counter, add_found, add_counter, add_sub_counter,
}

-- A call of `addCounter`, or of `addSubCounter`.
pub data Call : Type 0 where
  adds adds_sub : Bytes → ℤ → Call

abbrev pub run : Counts → List Call → Counts
run s [] = s
run s (adds j v ∷ cs) = run (add_counter s j v) cs
run s (adds_sub j v ∷ cs) = run (add_sub_counter s j v) cs

-- The sum of the values for a name, of the one kind and of the other.
abbrev pub if_same : Bytes → Bytes → ℤ → ℕ
if_same j k v = if bytes_eq j k then to_uint64 v else 0

abbrev pub added : Bytes → List Call → ℕ
added k [] = 0
added k (adds j v ∷ cs) = if_same j k v + added k cs
added k (adds_sub j v ∷ cs) = added k cs

abbrev pub sub_added : Bytes → List Call → ℕ
sub_added k [] = 0
sub_added k (adds j v ∷ cs) = sub_added k cs
sub_added k (adds_sub j v ∷ cs) = if_same j k v + sub_added k cs

mod-add : (x y : ℕ) → (x % 2 ^ 64 + y) % 2 ^ 64 ≡ (x + y) % 2 ^ 64
mod-add x y = omega arith

none-some : {c : ℕ} → none ≡ some c → ⊥
none-some h = cc

some_inj : {c d : ℕ} → some c ≡ some d → c ≡ d
some_inj h = ground (arith, h)

-- A name that has the value `x`, up to wrap-around.
add_found-find_as :
    (m : Counters) (j k : Bytes) (v : ℤ) (x : ℕ) (o : Option ℕ)
    → find m j ≡ o
    → find m k ≡ some (x % 2 ^ 64)
    → find (add_found m j (to_uint64 v) o) k ≡ some ((x + if_same j k v) % 2 ^ 64)
add_found-find_as m j k v x none e h = elim (Bool-cases (bytes_eq j k)) [
  | inl b ↦ absurd (none-some (sym e ∙ ap (find m) ((bytes_eq_iff j k).0 b) ∙ h))
  | inr b ↦ rw b (h ∙ ap some (omega arith))
]
add_found-find_as m j k v x (some c) e h = elim (Bool-cases (bytes_eq j k)) [
  | inl b ↦
      let d : c ≡ x % 2 ^ 64 = some_inj (sym e ∙ ap (find m) ((bytes_eq_iff j k).0 b) ∙ h) in
      find-assign m j k ((c + to_uint64 v) % 2 ^ 64)
      ∙ rw b (ap some (ap (λ y. (y + to_uint64 v) % 2 ^ 64) d ∙ mod-add x (to_uint64 v)))
  | inr b ↦ find-assign m j k ((c + to_uint64 v) % 2 ^ 64) ∙ rw b (h ∙ ap some (omega arith))
]

run-find :
    (cs : List Call) (s : Counts) (k : Bytes) (x y : ℕ)
    → find s.countermap0 k ≡ some (x % 2 ^ 64)
    → find s.countermap1 k ≡ some (y % 2 ^ 64)
    → (find (run s cs).countermap0 k ≡ some ((x + added k cs) % 2 ^ 64))
      × (find (run s cs).countermap1 k ≡ some ((y + sub_added k cs) % 2 ^ 64))
unfolding add_counter add_sub_counter
run-find [] s k x y h g = (h ∙ ap some (omega arith), g ∙ ap some (omega arith))
run-find (adds j v ∷ cs) s k x y h g =
    let (p, q) =
      run-find cs (add_counter s j v) k (x + if_same j k v) y
        (add_found-find_as s.countermap0 j k v x (find s.countermap0 j) refl h) g in
    (p ∙ ap some (ap (λ z. z % 2 ^ 64) (omega arith)), q)
run-find (adds_sub j v ∷ cs) s k x y h g =
    let (p, q) =
      run-find cs (add_sub_counter s j v) k x (y + if_same j k v) h
        (add_found-find_as s.countermap1 j k v y (find s.countermap1 j) refl g) in
    (p, q ∙ ap some (ap (λ z. z % 2 ^ 64) (omega arith)))

-- After a name was registered, whatever counters there were before and whatever calls of
-- `addCounter` and `addSubCounter` follow, for any names: its two counters are the sums of the
-- values that the calls of each kind had for this name, modulo 2^64.
pub counted :
    (s : Counts) (k : Bytes) (cs : List Call)
    → (find (run (register_counter s k) cs).countermap0 k ≡ some (added k cs % 2 ^ 64))
      × (find (run (register_counter s k) cs).countermap1 k ≡ some (sub_added k cs % 2 ^ 64))
unfolding register_counter
counted s k cs =
    let (p, q) =
      run-find cs (register_counter s k) k 0 0
        (find-assign s.countermap0 k k 0 ∙ rw (bytes_eq_refl k) refl)
        (find-assign s.countermap1 k k 0 ∙ rw (bytes_eq_refl k) refl) in
    (p ∙ ap (λ z. some (z % 2 ^ 64)) (omega arith), q ∙ ap (λ z. some (z % 2 ^ 64)) (omega arith))
