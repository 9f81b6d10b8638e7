-- ===== src/Poller/Wait.antt =====
-- What `ProcessTimeOut` returns: how long `epoll_wait` may wait.
use mtrpc.Base.{
  ℕ, ◌+◌, ◌-◌, ◌≡◌, ◌≤◌, ◌<◌, ◌⊎◌, refl, sym, ap, ◌∙◌, arith, true, false, if◌then◌else◌, Option,
  none, some, inl, inr, ltb, leb, leb-true, Option-cases, Bool-cases, List, ◌*◌, ℤ, pos, negsuc,
}
use mtrpc.Poller.{
  RbTree, Timers, Epoller, or_minus_one, wait_for, wait_both, smaller, to_ms, process_time_out,
  at_least_one,
}
use mtrpc.Text.{to_int32}
use mtrpc.Poller.Calls.{IsKept, Calls, Calls-IsWell}
use mtrpc.Poller.Fired.{IsFired, process-IsFired}

-- The seconds from `now` to the first of the times that some event is to be fired at, by `AtTime`,
-- which are after `now`; none where there is no such time.
pub data IsFirst (now : ℕ) (AtTime : ℕ → ℕ → Type 0) : Option ℕ → Type 0 where
  no_timer : ((e k : ℕ) → AtTime e k → ⊥) → IsFirst now AtTime none
  first :
      (e n : ℕ)
      → 0 < n
      → AtTime e (now + n)
      → ((j l : ℕ) → AtTime j l → now + n ≤ l)
      → IsFirst now AtTime (some n)

abbrev pub Either : (ℕ → ℕ → Type 0) → (ℕ → ℕ → Type 0) → ℕ → ℕ → Type 0
Either A B e k = A e k ⊎ B e k

least_both :
    (A B : ℕ → ℕ → Type 0) (z : ℕ)
    → ((j l : ℕ) → A j l → z ≤ l)
    → ((j l : ℕ) → B j l → z ≤ l)
    → (j l : ℕ) → Either A B j l
    → z ≤ l
least_both A B z f g j l (inl a) = f j l a
least_both A B z f g j l (inr b) = g j l b

none_both :
    (A B : ℕ → ℕ → Type 0)
    → ((j l : ℕ) → A j l → ⊥)
    → ((j l : ℕ) → B j l → ⊥)
    → (j l : ℕ) → Either A B j l
    → ⊥
none_both A B f g j l (inl a) = f j l a
none_both A B f g j l (inr b) = g j l b

-- A time to wait as the source has it, in seconds and in milliseconds.
abbrev pub as_int : Option ℕ → Option ℤ
as_int none = none
as_int (some n) = some (pos n)

abbrev pub millis : Option ℕ → ℤ
millis none = negsuc 0
millis (some n) = pos (n * 1000)

to_int32-small : (n : ℕ) → n < 2147483648 → to_int32 n ≡ pos n
to_int32-small n h = ground (arith, h)

at_least_one-pos : (n : ℕ) → 0 < n → at_least_one (pos n) ≡ pos n
at_least_one-pos n h = ground (arith, h)

smaller-lt : (n m : ℕ) → ltb n m ≡ true → smaller (pos n) (pos m) ≡ pos n
smaller-lt n m b =
    let c : ltb (n + 0) (m + 0) ≡ true = ground (arith, b) in ap (λ c. if c then pos n else pos m) c

smaller-ge : (n m : ℕ) → ltb n m ≡ false → smaller (pos n) (pos m) ≡ pos m
smaller-ge n m b =
    let c : ltb (n + 0) (m + 0) ≡ false = ground (arith, b) in
    ap (λ c. if c then pos n else pos m) c

wait_both-IsFirst :
    (now : ℕ) (A B : ℕ → ℕ → Type 0) (a b : Option ℕ)
    → IsFirst now A a
    → IsFirst now B b
    → (s : Option ℕ) × (wait_both (or_minus_one (as_int a)) (as_int b) ≡ or_minus_one (as_int s))
      × IsFirst now (Either B A) s
wait_both-IsFirst now A B _ _ (no_timer f) (no_timer g) = (none, refl, no_timer (none_both B A g f))
wait_both-IsFirst now A B _ _ (first e n p h l) (no_timer g) =
    (some n, refl, first e n p (inr h) (least_both B A (now + n) (λ j x y. absurd (g j x y)) l))
wait_both-IsFirst now A B _ _ (no_timer f) (first e n p h l) = (
  some n,
  at_least_one-pos n p,
  first e n p (inl h) (least_both B A (now + n) l (λ j x y. absurd (f j x y))),
)
wait_both-IsFirst now A B _ _ (first e n p h l) (first f m q k g) = elim (Bool-cases (ltb n m)) [
  | inl b ↦
      let c : n ≤ m = ground (arith, b) in
      (
        some n,
        ap at_least_one (smaller-lt n m b) ∙ at_least_one-pos n p,
        first e n p (inr h) (least_both B A (now + n) (λ j x y. omega (arith, c, g j x y)) l),
      )
  | inr b ↦
      let c : m ≤ n = ground (arith, b) in
      (
        some m,
        ap at_least_one (smaller-ge n m b) ∙ at_least_one-pos m q,
        first f m q (inl k) (least_both B A (now + m) g (λ j x y. omega (arith, c, l j x y))),
      )
]

module _ {T : Type 0} (r : RbTree T) where
  abbrev pub InTree : Timers T → ℕ → ℕ → Type 0
  InTree m e k = r.key_in m.tree e ≡ some k

  -- The keys of the tree are after `now`.
  IsAhead : ℕ → Timers T → Type 0
  IsAhead now m = (e k : ℕ) → InTree m e k → (m.key e ≡ k) × (now < k)

  Fired-IsAhead :
      (now : ℕ) (m m' : Timers T) (es : List ℕ)
      → IsKept r m
      → IsFired r now m m' es
      → IsAhead now m'
  unfolding IsAhead
  Fired-IsAhead now m m' es v i e k h =
      ground (arith, h, i.left e, v.keys e, ap (λ f. f e) i.same_key)

  wait_for-IsFirst :
      (now : ℕ) (m : Timers T)
      → 0 < now
      → IsAhead now m
      → ((e k : ℕ) → InTree m e k → k ≤ now + 2147483)
      → (s : Option ℕ) × (wait_for r now m ≡ as_int s) × IsFirst now (InTree m) s
  unfolding IsAhead
  wait_for-IsFirst now m h v near = elim (Option-cases (r.min m.tree)) [
    | inl n ↦
        let b : leb now 0 ≡ false = ground (arith, h) in
        (none, rw n (rw b refl), no_timer (λ e k g. ground (arith, g, r.min-none m.tree e n)))
    | inr s ↦
        let (i, s') = s in
        let (k, g, least) = r.min-some m.tree i s' in
        let (a, l) = v i k g in
        let p : now + (k - now) ≡ k = omega (arith, l) in
        (
          some (k - now),
          rw s' (
              rw a (
                rw (leb-true now k (omega (arith, l)))
                  (ap some (to_int32-small (k - now) (omega (arith, near i k g)))))),
          first i (k - now) (omega (arith, l)) (g ∙ ap some (sym p))
              (λ j x q. omega (arith, p, least j x q)),
        )
  ]

  to_ms-IsFirst :
      (now : ℕ) (C : ℕ → ℕ → Type 0) (s : Option ℕ)
      → IsFirst now C s
      → ((e k : ℕ) → C e k → k ≤ now + 2147483)
      → to_ms (or_minus_one (as_int s)) ≡ millis s
  to_ms-IsFirst now C _ (no_timer f) near = refl
  to_ms-IsFirst now C _ (first e n p h l) near =
      to_int32-small (n * 1000) (omega (arith, near e (now + n) h))

  -- After any calls that set and delete time-outs, at a time `now` after 0, where `ProcessTimeOut`
  -- leaves no timer that is more than 2147483 seconds ahead: it returns -1 where it leaves no timer,
  -- and else a thousand times the seconds from `now` to the first of the timers that it leaves, of
  -- reading and of writing, which is never 0.
  pub waits_until_first :
      {o : ℕ → ℕ} {p : Epoller T} (now : ℕ)
      → Calls r o p
      → 0 < now
      → let q = process_time_out r now p in
        let Left = Either (InTree q.poller.rtimer) (InTree q.poller.wtimer) in
        ((e k : ℕ) → Left e k → k ≤ now + 2147483)
        → (s : Option ℕ) × (q.waittime ≡ millis s) × IsFirst now Left s
  unfolding process_time_out
  waits_until_first {p = p} now c h near =
      let q = process_time_out r now p in
      let w = Calls-IsWell r c in
      let (a, b) = process-IsFired r now p w.reads w.writes in
      let (s, es, fs) =
        wait_for-IsFirst now _ h (Fired-IsAhead now _ _ _ w.writes b) (λ e k g. near e k (inr g)) in
      let (t, et, ft) =
        wait_for-IsFirst now _ h (Fired-IsAhead now _ _ _ w.reads a) (λ e k g. near e k (inl g)) in
      let (u, eu, fu) = wait_both-IsFirst now _ _ s t fs ft in
      (
        u,
        ap to_ms (
              ap (λ z. wait_both (or_minus_one z) (wait_for r now q.poller.rtimer)) es
              ∙ ap (wait_both (or_minus_one (as_int s))) et
              ∙ eu)
            ∙ to_ms-IsFirst now _ u fu near,
        fu,
      )
