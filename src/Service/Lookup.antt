-- ===== src/Service/Lookup.antt =====
-- `RegisterService` against `FindService`, through the cache and without it.
use mtrpc.Base.{
  ℕ, ◌+◌, ◌≡◌, ◌<◌, ◌⊎◌, refl, ap, sym, ◌∙◌, arith, Bool, true, false, not, ◌&&◌, Option, none,
  some, Bool-cases, inl, inr, if◌then◌else◌, ◌==◌, ==_refl,
}
use mtrpc.Text.{Bytes, bytes_eq, find, assign}
use mtrpc.Text.Map.{bytes_eq_iff, bytes_eq_refl, find-assign}
use mtrpc.Service.Pool.{
  ServiceBoard, Service, ServicePool, service_board, set_at, cache_index, fill_cache, fill_as,
  register_as, register_service, find_via, find_service,
}

-- The map leads to boards of the name that is looked up, and the cache to boards of the map.
pub record IsValid (s : ServicePool) : Type 0 where
  pub mapped :
      (m : Bytes) (p : ℕ)
      → find s.service_map m ≡ some p
      → (p < s.count) × ((s.boards p).service_name ≡ m)
  pub cached :
      (i p : ℕ) → s.cache i ≡ some p → find s.service_map (s.boards p).service_name ≡ some p

find_via-find :
    (s : ServicePool) (m : Bytes) (o : Option ℕ)
    → ((p : ℕ) → o ≡ some p → find s.service_map (s.boards p).service_name ≡ some p)
    → find_via s m o ≡ find s.service_map m
unfolding find_via
find_via-find s m none h = refl
find_via-find s m (some p) h = elim (Bool-cases (bytes_eq (s.boards p).service_name m)) [
  | inl t ↦
      rw t
        (sym (h p refl) ∙ ap (find s.service_map) ((bytes_eq_iff (s.boards p).service_name m).0 t))
  | inr t ↦ rw t refl
]

set_at_old : {A : Type 0} (f : ℕ → A) (i : ℕ) (a : A) (j : ℕ) → j < i → set_at f i a j ≡ f j
set_at_old f i a j h = ground arith

set_at_new : {A : Type 0} (f : ℕ → A) (i : ℕ) (a : A) → set_at f i a i ≡ a
set_at_new f i a = rw (==_refl i) refl

-- What stands in the cache after a board was added: what stood there, or the board.
fill_as-cases :
    (f : ℕ → Option ℕ) (c p : ℕ) (o : Option ℕ) (i q : ℕ)
    → fill_as f c p o i ≡ some q
    → (f i ≡ some q) ⊎ (q ≡ p)
unfolding fill_as
fill_as-cases f c p (some r) i q k = inl k
fill_as-cases f c p none i q k = elim (Bool-cases (i == c)) [
  | inl t ↦ inr (ground (arith, k, t))
  | inr t ↦ inl (ground (arith, k, t))
]

none-some : {q : ℕ} → none ≡ some q → ⊥
none-some k = cc

abbrev pub is_there : Option ℕ → Bool
is_there none = false
is_there (some p) = true

module _ (murmurhash : Bytes → ℕ) where
  -- The cache does not show.
  find_service-find :
      (s : ServicePool) (m : Bytes) → IsValid s → find_service murmurhash s m ≡ find s.service_map m
  find_service-find s m v =
      find_via-find s m (s.cache (cache_index murmurhash m)) (λ p e. v.cached _ p e)

  -- The pool with one service more.
  abbrev added : ServicePool → Service → Bool → ServicePool
  added s svc own = (register_as murmurhash s svc own none).0

  added-IsValid :
      (s : ServicePool) (svc : Service) (own : Bool)
      → find s.service_map svc.full_name ≡ none
      → IsValid s
      → IsValid (added s svc own)
  unfolding register_as
  added-IsValid s svc own e v = record { mapped = maps; cached = caches }
    where
      bs : ℕ → ServiceBoard
      bs = set_at s.boards s.count (service_board svc own)

      maps :
          (m : Bytes) (p : ℕ)
          → find (assign s.service_map svc.full_name s.count) m ≡ some p
          → (p < s.count + 1) × ((bs p).service_name ≡ m)
      maps m p h =
          by_name (bytes_eq svc.full_name m) refl
            (sym (find-assign s.service_map svc.full_name m s.count) ∙ h)
        where
          by_name :
              (b : Bool)
              → bytes_eq svc.full_name m ≡ b
              → (if b then some s.count else find s.service_map m) ≡ some p
              → (p < s.count + 1) × ((bs p).service_name ≡ m)
          by_name true t k =
              let q : s.count ≡ p = cc in
              (
                omega (arith, q),
                ap (λ x. (bs x).service_name) (sym q)
                    ∙ ap ServiceBoard.service_name
                        (set_at_new s.boards s.count (service_board svc own))
                    ∙ (bytes_eq_iff svc.full_name m).0 t,
              )
          by_name false t k =
              let (l, n) = v.mapped m p k in
              (
                omega (arith, l),
                ap ServiceBoard.service_name
                      (set_at_old s.boards s.count (service_board svc own) p l)
                    ∙ n,
              )

      caches :
          (i p : ℕ)
          → fill_cache murmurhash s.cache svc.full_name s.count i ≡ some p
          → find (assign s.service_map svc.full_name s.count) (bs p).service_name ≡ some p
      caches i p h =
          elim (fill_as-cases s.cache (cache_index murmurhash svc.full_name) s.count _ i p h) [
            | inl k ↦ old (v.cached i p k)
            | inr q ↦ new q
          ]
        where
          old :
              find s.service_map (s.boards p).service_name ≡ some p
              → find (assign s.service_map svc.full_name s.count) (bs p).service_name ≡ some p
          old f =
              let l = (v.mapped (s.boards p).service_name p f).0 in
              ap (λ b. find (assign s.service_map svc.full_name s.count) (b.service_name))
                (set_at_old s.boards s.count (service_board svc own) p l)
              ∙ find-assign s.service_map svc.full_name (s.boards p).service_name s.count
              ∙ other (bytes_eq svc.full_name (s.boards p).service_name) refl f
            where
              other :
                  (b : Bool)
                  → bytes_eq svc.full_name (s.boards p).service_name ≡ b
                  → find s.service_map (s.boards p).service_name ≡ some p
                  → (if b then some s.count else find s.service_map (s.boards p).service_name)
                    ≡ some p
              other false t f = f
              other true t f =
                  let n = (bytes_eq_iff svc.full_name (s.boards p).service_name).0 t in
                  absurd (none-some (sym e ∙ ap (find s.service_map) n ∙ f))

          new :
              p ≡ s.count
              → find (assign s.service_map svc.full_name s.count) (bs p).service_name ≡ some p
          new q =
              ap (λ x. find (assign s.service_map svc.full_name s.count) ((bs x).service_name)) q
              ∙ ap (λ b. find (assign s.service_map svc.full_name s.count) (b.service_name))
                  (set_at_new s.boards s.count (service_board svc own))
              ∙ find-assign s.service_map svc.full_name svc.full_name s.count
              ∙ rw (bytes_eq_refl svc.full_name) (ap some (sym q))

  register_as-find :
      (s : ServicePool) (svc : Service) (own : Bool) (o : Option ℕ)
      → find s.service_map svc.full_name ≡ o
      → IsValid s
      → IsValid (register_as murmurhash s svc own o).0
        × ((register_as murmurhash s svc own o).1 ≡ not (is_there o))
        × ((m : Bytes)
            → find (register_as murmurhash s svc own o).0.service_map m ≡ (
                if not (is_there o) && bytes_eq svc.full_name m
                then some s.count
                else find s.service_map m))
  unfolding register_as
  register_as-find s svc own (some p) e v = (v, refl, λ m. refl)
  register_as-find s svc own none e v =
      (added-IsValid s svc own e v, refl, λ m. find-assign s.service_map svc.full_name m s.count)

  -- `RegisterService` keeps the map and the cache in order. It returns true exactly where
  -- `FindService` found nothing under the service's name; then `FindService` finds the new board
  -- under that name. Under every other name, and where it returned false under every name,
  -- `FindService` finds what it found before.
  pub find_service-register_service :
      (s : ServicePool) (svc : Service) (own : Bool) (m : Bytes)
      → IsValid s
      → IsValid (register_service murmurhash s svc own).0
        × ((register_service murmurhash s svc own).1
            ≡ not (is_there (find_service murmurhash s svc.full_name)))
        × (find_service murmurhash (register_service murmurhash s svc own).0 m ≡ (
            if (register_service murmurhash s svc own).1 && bytes_eq svc.full_name m
            then some s.count
            else find_service murmurhash s m))
  find_service-register_service s svc own m v =
      let (w, b, f) = register_as-find s svc own (find s.service_map svc.full_name) refl v in
      rw
        (
          find_service-find s svc.full_name v,
          find_service-find s m v,
          find_service-find (register_service murmurhash s svc own).0 m w,
          b,
        )
        (w, refl, f m)
