-- ===== src/Tests/Pollers.antt =====
-- Timers of a poller, with a tree that is the list of its nodes' keys.
use mtrpc.Base.{
  ℕ, zero, suc, ◌+◌, ◌≡◌, ◌≤◌, ◌<◌, refl, ap, ◌∙◌, arith, true, false, List, [], ◌∷◌, Option, none,
  some, pos, if◌then◌else◌, ◌==◌, ltb, leb, ◌&&◌, Bool, tally, Bool-cases, inl, inr,
}
use mtrpc.Poller.{RbTree, Epoller, set_read_time_out, set_write_time_out, process_time_out, fire}
use mtrpc.Poller.Calls.{set_key, held, Calls, fresh, sets_read, sets_write, timers_counted}
use mtrpc.Poller.Fired.{is_event, fires, drop_due, fired_exactly}
use mtrpc.Poller.Wait.{IsFirst, millis, Either, InTree, waits_until_first}

abbrev Keys : Type 0
Keys = List (Option ℕ)

abbrev find : Keys → ℕ → Option ℕ
find [] i = none
find (o ∷ t) zero = o
find (o ∷ t) (suc i) = find t i

abbrev put : Keys → ℕ → Option ℕ → Keys
put [] zero o = o ∷ []
put [] (suc i) o = none ∷ put [] i o
put (p ∷ t) zero o = o ∷ t
put (p ∷ t) (suc i) o = p ∷ put t i o

abbrev count : Keys → ℕ
count [] = 0
count (none ∷ t) = count t
count (some k ∷ t) = suc (count t)

find-put_nil : (i j : ℕ) (o : Option ℕ) → find (put [] i o) j ≡ (if j == i then o else none)
find-put_nil zero zero o = refl
find-put_nil zero (suc j) o = ground arith
find-put_nil (suc i) zero o = ground arith
find-put_nil (suc i) (suc j) o = ground (arith, find-put_nil i j o)

find-put :
    (t : Keys) (i j : ℕ) (o : Option ℕ) → find (put t i o) j ≡ (if j == i then o else find t j)
find-put [] i j o = find-put_nil i j o
find-put (p ∷ t) zero zero o = refl
find-put (p ∷ t) zero (suc j) o = ground arith
find-put (p ∷ t) (suc i) zero o = ground arith
find-put (p ∷ t) (suc i) (suc j) o = ground (arith, find-put t i j o)

count-put : (t : Keys) (k i : ℕ) → find t i ≡ some k → count (put t i none) < count t
count-put [] k i h = absurd cc
count-put (none ∷ t) k zero h = absurd cc
count-put (some l ∷ t) k zero h = omega arith
count-put (none ∷ t) k (suc i) h = count-put t k i h
count-put (some l ∷ t) k (suc i) h = omega (arith, count-put t k i h)

-- The first of two nodes with their keys.
abbrev nearer : Option ℕ → Option (ℕ × ℕ) → Option (ℕ × ℕ)
nearer none none = none
nearer none (some q) = some (suc q.0, q.1)
nearer (some k) none = some (0, k)
nearer (some k) (some q) = if ltb q.1 k then some (suc q.0, q.1) else some (0, k)

abbrev nearest : Keys → Option (ℕ × ℕ)
nearest [] = none
nearest (o ∷ t) = nearer o (nearest t)

-- What the nearest node is.
data IsNearest (t : Keys) : Option (ℕ × ℕ) → Type 0 where
  nothing : ((i : ℕ) → find t i ≡ none) → IsNearest t none
  node :
      (i k : ℕ)
      → find t i ≡ some k
      → ((j l : ℕ) → find t j ≡ some l → k ≤ l)
      → IsNearest t (some (i, k))

least_cons :
    (o : Option ℕ) (t : Keys) (k : ℕ)
    → ((l : ℕ) → o ≡ some l → k ≤ l)
    → ((j l : ℕ) → find t j ≡ some l → k ≤ l)
    → (j l : ℕ) → find (o ∷ t) j ≡ some l
    → k ≤ l
least_cons o t k f g zero l h = f l h
least_cons o t k f g (suc j) l h = g j l h

none_cons : (t : Keys) → ((i : ℕ) → find t i ≡ none) → (i : ℕ) → find (none ∷ t) i ≡ none
none_cons t f zero = refl
none_cons t f (suc i) = f i

nearer-IsNearest :
    (o : Option ℕ) (t : Keys) {q : Option (ℕ × ℕ)} → IsNearest t q → IsNearest (o ∷ t) (nearer o q)
nearer-IsNearest none t (nothing f) = nothing (none_cons t f)
nearer-IsNearest none t (node i k h l) = node (suc i) k h (least_cons none t k (λ x e. absurd cc) l)
nearer-IsNearest (some m) t (nothing f) =
    node 0 m refl
      (least_cons (some m) t m (λ x e. ground (arith, e)) (λ j x e. ground (arith, e, f j)))
nearer-IsNearest (some m) t (node i k h l) = elim (Bool-cases (ltb k m)) [
  | inl b ↦ rw b (node (suc i) k h (least_cons (some m) t k (λ x e. ground (arith, e, b)) l))
  | inr b ↦ rw b (
      node 0 m refl
        (least_cons (some m) t m (λ x e. ground (arith, e)) (λ j x e. ground (arith, b, l j x e))))
]

nearest-IsNearest : (t : Keys) → IsNearest t (nearest t)
nearest-IsNearest [] = nothing (λ i. refl)
nearest-IsNearest (o ∷ t) = nearer-IsNearest o t (nearest-IsNearest t)

abbrev fst_of : Option (ℕ × ℕ) → Option ℕ
fst_of none = none
fst_of (some q) = some q.0

IsNearest-none :
    (t : Keys) {q : Option (ℕ × ℕ)} → IsNearest t q → (i : ℕ) → fst_of q ≡ none → find t i ≡ none
IsNearest-none t (nothing f) i h = f i
IsNearest-none t (node j k g l) i h = absurd cc

IsNearest-some :
    (t : Keys) {q : Option (ℕ × ℕ)}
    → IsNearest t q
    → (i : ℕ) → fst_of q ≡ some i
    → (k : ℕ) × (find t i ≡ some k) × ((j l : ℕ) → find t j ≡ some l → k ≤ l)
IsNearest-some t (nothing f) i h = absurd cc
IsNearest-some t (node j k g l) i h = let e : i ≡ j = ground (arith, h) in (k, ap (find t) e ∙ g, l)

-- The tree that is this list.
abbrev keys : RbTree Keys
keys = record {
  empty = [];
  insert = λ t k i. put t i (some k);
  delete = λ t i. put t i none;
  min = λ t. fst_of (nearest t);
  key_in = find;
  size = count;
  key_in-empty = λ i. refl;
  key_in-insert = λ t k i j h. find-put t i j (some k);
  key_in-delete = λ t k i j h. find-put t i j none;
  size-delete = count-put;
  min-none = λ t. IsNearest-none t (nearest-IsNearest t);
  min-some = λ t. IsNearest-some t (nearest-IsNearest t);
}

-- Event 2 is to read until 107 and to write until 120, event 1 to read until 130.
abbrev refs : ℕ → ℕ
refs e = 1

abbrev called : (p : Epoller Keys) × Calls keys refs p
called = (
  _,
  sets_read 105 2 2 (omega arith) (
      sets_read 100 1 30 (omega arith)
        (sets_write 100 2 20 (omega arith) (sets_read 100 2 9 (omega arith) (fresh refs)))),
)

fired_test : (process_time_out keys 110 called.0).read_fired ≡ 2 ∷ []
unfolding process_time_out fire set_read_time_out set_write_time_out
fired_test = refl

wait_test : (process_time_out keys 110 called.0).waittime ≡ pos 10000
unfolding process_time_out fire set_read_time_out set_write_time_out
wait_test = refl

counted_test : called.0.ref_count 2 ≡ 3
unfolding set_read_time_out set_write_time_out
counted_test = refl

timers_counted_example :
    (called.0.rtimer.has_failed ≡ false)
    × (called.0.wtimer.has_failed ≡ false)
    × ((e : ℕ)
        → (find called.0.rtimer.tree e ≡ set_key (called.0.rtimer.key e))
          × (find called.0.wtimer.tree e ≡ set_key (called.0.wtimer.key e))
          × (called.0.ref_count e
              ≡ refs e + held (called.0.rtimer.key e) + held (called.0.wtimer.key e)))
timers_counted_example = timers_counted keys called.1

fired_exactly_example :
    (tally (is_event 2) (process_time_out keys 110 called.0).read_fired
      ≡ fires 110 (set_key (called.0.rtimer.key 2)))
    × (tally (is_event 2) (process_time_out keys 110 called.0).write_fired
        ≡ fires 110 (set_key (called.0.wtimer.key 2)))
    × (find (process_time_out keys 110 called.0).poller.rtimer.tree 2
        ≡ drop_due 110 (set_key (called.0.rtimer.key 2)))
    × (find (process_time_out keys 110 called.0).poller.wtimer.tree 2
        ≡ drop_due 110 (set_key (called.0.wtimer.key 2)))
fired_exactly_example = fired_exactly keys 110 2 called.1

abbrev waited : Epoller Keys
waited = (process_time_out keys 110 called.0).poller

-- Keys up to `b`.
abbrev all_to : ℕ → Keys → Bool
all_to b [] = true
all_to b (none ∷ t) = all_to b t
all_to b (some k ∷ t) = leb k b && all_to b t

find-le : (b : ℕ) (t : Keys) (e k : ℕ) → all_to b t ≡ true → find t e ≡ some k → k ≤ b
find-le b [] e k a h = absurd cc
find-le b (none ∷ t) zero k a h = absurd cc
find-le b (none ∷ t) (suc e) k a h = find-le b t e k a h
find-le b (some l ∷ t) zero k a h = ground (arith, a, h)
find-le b (some l ∷ t) (suc e) k a h = find-le b t e k (ground (arith, a)) h

near_110 :
    (e k : ℕ)
    → Either (InTree keys waited.rtimer) (InTree keys waited.wtimer) e k
    → k ≤ 110 + 2147483
unfolding process_time_out fire set_read_time_out set_write_time_out
near_110 e k (inl h) = find-le 2147593 waited.rtimer.tree e k refl h
near_110 e k (inr h) = find-le 2147593 waited.wtimer.tree e k refl h

waits_until_first_example :
    (s : Option ℕ) × ((process_time_out keys 110 called.0).waittime ≡ millis s)
    × IsFirst 110 (Either (InTree keys waited.rtimer) (InTree keys waited.wtimer)) s
waits_until_first_example = waits_until_first keys 110 called.1 (omega arith) near_110
