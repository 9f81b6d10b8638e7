-- ===== src/Server/Resolve.antt =====
-- The name of a method, and the method that a server finds under it.
use mtrpc.Base.{
  ℕ, suc, ◌≡◌, ◌↔◌, ◌⊎◌, refl, ap, ap₂, ◌∙◌, arith, Bool, true, false, not, [], ◌∷◌, ◌++◌, Option,
  none, some, ◌==◌, take, drop, inl, inr, length, ==_refl, ==_iff,
}
use mtrpc.Text.{Bytes, find}
use mtrpc.Text.Map.{bytes_eq_refl}
use mtrpc.Service.Pool.{Service, ServicePool, register_as, register_service, find_service}
use mtrpc.Service.Lookup.{IsValid, is_there, find_service-register_service}
use mtrpc.Server.{
  found_last, rfind, split_at, parse_method_full_name, with_method, handler_get_service_and_method,
}

-- A dot after the part `a`, and none behind it.
rfind-append : (a b : Bytes) (c : ℕ) → rfind b c ≡ none → rfind (a ++ c ∷ b) c ≡ some (length a)
rfind-append [] b c h = ap₂ found_last h (==_refl c)
rfind-append (x ∷ a) b c h = ap (λ o. found_last o (x == c)) (rfind-append a b c h)

take-length : (a b : Bytes) → take (length a) (a ++ b) ≡ a
take-length [] b = refl
take-length (x ∷ a) b = ap (λ s. x ∷ s) (take-length a b)

drop-length : (a b : Bytes) (c : ℕ) → drop (suc (length a)) (a ++ c ∷ b) ≡ b
drop-length [] b c = refl
drop-length (x ∷ a) b c = drop-length a b c

found_last-cases :
    (o : Option ℕ) (b : Bool) (i : ℕ)
    → found_last o b ≡ some i
    → ((j : ℕ) × (o ≡ some j) × (i ≡ suc j)) ⊎ ((o ≡ none) × (b ≡ true) × (i ≡ 0))
found_last-cases (some j) b i h = inl (j, refl, ground (arith, h))
found_last-cases none true i h = inr (refl, refl, ground (arith, h))
found_last-cases none false i h = absurd cc

-- Where there is a last dot, it splits the string.
rfind-split :
    (s : Bytes) (c i : ℕ)
    → rfind s c ≡ some i
    → (s ≡ take i s ++ c ∷ drop (suc i) s) × (rfind (drop (suc i) s) c ≡ none)
rfind-split [] c i h = absurd cc
rfind-split (x ∷ s) c i h = elim (found_last-cases (rfind s c) (x == c) i h) [
  | inl q ↦ let (j, e, f) = q in let (a, b) = rfind-split s c j e in rw f (ap (λ t. x ∷ t) a, b)
  | inr q ↦ let (e, b, f) = q in rw f (ap (λ y. y ∷ s) ((==_iff x c).0 b), e)
]

split_at-some :
    (s : Bytes) (o : Option ℕ) (a b : Bytes)
    → split_at s o ≡ some (a, b)
    → (i : ℕ) × (o ≡ some i) × (a ≡ take i s) × (b ≡ drop (suc i) s)
split_at-some s none a b h = absurd cc
split_at-some s (some i) a b h = (i, refl, ground (arith, h), ground (arith, h))

-- `ParseMethodFullName` gives two names exactly where the string is the first, a dot and the second,
-- and the second has no dot.
pub parse_iff :
    (s a b : Bytes)
    → (parse_method_full_name s ≡ some (a, b)) ↔ ((s ≡ a ++ b'.' ∷ b) × (rfind b b'.' ≡ none))
unfolding parse_method_full_name
parse_iff s a b = (
  (λ h.
      let (i, e, p, q) = split_at-some s (rfind s b'.') a b h in
      let (m, n) = rfind-split s b'.' i e in (rw p (rw q m), rw q n)),
  (λ h. rw (h.0) (
      ap (split_at (a ++ b'.' ∷ b)) (rfind-append a b b'.' h.1)
      ∙ ap₂ (λ x y. some (x, y)) (take-length a (b'.' ∷ b)) (drop-length a b b'.'))),
)

registered_board :
    (hash : Bytes → ℕ) (s : ServicePool) (svc : Service) (own : Bool) (o : Option ℕ)
    → (register_as hash s svc own o).1 ≡ true
    → ((register_as hash s svc own o).0.boards s.count).service ≡ svc.number
unfolding register_as
registered_board hash s svc own (some p) h = absurd cc
registered_board hash s svc own none h = rw (==_refl s.count) refl

module _ (murmurhash : Bytes → ℕ) (find_method_by_name : ℕ → Bytes → Option ℕ) where
  -- After a service was registered under a name that was free, the handler finds under that name, a
  -- dot and a name without dots the new service, and of its methods what `FindMethodByName` finds
  -- under the second name; it returns true exactly where that is a method.
  pub resolves_registered :
      (s : ServicePool) (svc : Service) (own : Bool) (m : Bytes)
      → IsValid s
      → find_service murmurhash s svc.full_name ≡ none
      → rfind m b'.' ≡ none
      → handler_get_service_and_method murmurhash find_method_by_name
          (register_service murmurhash s svc own).0
          (svc.full_name ++ b'.' ∷ m)
        ≡ with_method svc.number (find_method_by_name svc.number m)
  unfolding handler_get_service_and_method
  resolves_registered s svc own m v n d =
      let (w, b, f) = find_service-register_service murmurhash s svc own svc.full_name v in
      let g = (parse_iff (svc.full_name ++ b'.' ∷ m) svc.full_name m).1 (refl, d) in
      let t : (register_service murmurhash s svc own).1 ≡ true = b ∙ ap (λ o. not (is_there o)) n in
      let k : find_service murmurhash (register_service murmurhash s svc own).0 svc.full_name
          ≡ some s.count =
        ground (arith, f, t, bytes_eq_refl svc.full_name) in
      rw g (
        rw k (
          ap (λ i. with_method i (find_method_by_name i m))
            (registered_board murmurhash s svc own (find s.service_map svc.full_name) t)))
