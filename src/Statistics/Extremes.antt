-- ===== src/Statistics/Extremes.antt =====
-- The smallest and the largest value.
use mtrpc.Base.{ℕ, ◌≡◌, refl, false, List, [], ◌∷◌, ltb, Bool-cases, inl, inr}
use mtrpc.Statistics.{Floats, Status, zeros, state}

abbrev pub states : {F : Type 0} → Floats F → Status F → List ℕ → Status F
states f s [] = s
states f s (v ∷ vs) = states f (state f s v) vs

state-min :
    {F : Type 0} (f : Floats F) (s : Status F) (v : ℕ)
    → f.lt_float (f.of_unsigned v) f.zero_float ≡ false
    → s.minvalue ≡ f.zero_float
    → (state f s v).minvalue ≡ f.zero_float
unfolding state
state-min f s v p h = elim (Bool-cases (ltb 200000000 v)) [
  | inl b ↦ rw b h
  | inr b ↦ rw b (rw h (rw p refl))
]

states-min :
    {F : Type 0} (f : Floats F) (vs : List ℕ) (s : Status F)
    → ((v : ℕ) → f.lt_float (f.of_unsigned v) f.zero_float ≡ false)
    → s.minvalue ≡ f.zero_float
    → (states f s vs).minvalue ≡ f.zero_float
states-min f [] s p h = h
states-min f (v ∷ vs) s p h = states-min f vs (state f s v) p (state-min f s v (p v) h)

-- Where no `unsigned` is less than 0 as a float, the smallest value of a name stays 0 from
-- `registerStatus` or `Clear` on, whatever values are stated.
pub minimum_stuck :
    {F : Type 0} (f : Floats F) (vs : List ℕ)
    → ((v : ℕ) → f.lt_float (f.of_unsigned v) f.zero_float ≡ false)
    → (states f (zeros f) vs).minvalue ≡ f.zero_float
minimum_stuck f vs p = states-min f vs (zeros f) p refl
