-- ===== src/Text/Map.antt =====
-- The laws of byte comparison and of std::map.
use mtrpc.Base.{◌≡◌, ◌↔◌, refl, true, List, [], ◌∷◌, arith, if◌then◌else◌, some}
use mtrpc.Text.{Bytes, bytes_eq, find, assign}

pub bytes_eq_iff : (a b : Bytes) → (bytes_eq a b ≡ true) ↔ (a ≡ b)
unfolding bytes_eq
bytes_eq_iff (x ∷ a) (y ∷ b) = ground (arith, bytes_eq_iff a b)
bytes_eq_iff _ _ = ground arith

pub bytes_eq_refl : (a : Bytes) → bytes_eq a a ≡ true
bytes_eq_refl a = (bytes_eq_iff a a).1 refl

module _ {ℓ} {V : Type ℓ} where
  -- After `m[k] = v`, key `k` has value `v` and every other key has the value that it had.
  pub find-assign :
      (m : List (Bytes × V)) (k j : Bytes) (v : V)
      → find (assign m k v) j ≡ (if bytes_eq k j then some v else find m j)
  unfolding find assign
  find-assign [] k j v = refl
  find-assign ((i, w) ∷ m) k j v =
      ground (arith, bytes_eq_iff i k, bytes_eq_iff i j, bytes_eq_iff k j, find-assign m k j v)
