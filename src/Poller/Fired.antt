-- ===== src/Poller/Fired.antt =====
-- `ProcessTimeOut`: which events it fires, and what becomes of their timers.
use mtrpc.Base.{
  ℕ, zero, suc, ◌≡◌, ◌≤◌, ◌<◌, ◌⊎◌, refl, ap, ◌∙◌, arith, List, [], ◌∷◌, Option, none, some, inl,
  inr, if◌then◌else◌, ◌==◌, ==_iff, leb, Bool-cases, Option-cases, tally,
}
use mtrpc.Poller.{RbTree, Timers, Epoller, is_in, delete_node, due, fire, process_time_out}
use mtrpc.Poller.Calls.{set_key, IsKept, Calls, Calls-IsWell}

-- The timers that are not due, and how often a due one fires.
abbrev pub drop_due : ℕ → Option ℕ → Option ℕ
drop_due now none = none
drop_due now (some k) = if leb k now then none else some k

abbrev pub fires : ℕ → Option ℕ → ℕ
fires now none = 0
fires now (some k) = if leb k now then 1 else 0

abbrev pub is_event : ℕ → ℕ → ℕ
is_event e f = if e == f then 1 else 0

module _ {T : Type 0} (r : RbTree T) where
  -- The nodes of the tree have their keys still, and none of them is 0.
  pub IsUsable : Timers T → Type 0
  IsUsable m = (e k : ℕ) → r.key_in m.tree e ≡ some k → (m.key e ≡ k) × (0 < k)

  pub Kept-IsUsable : (m : Timers T) → IsKept r m → IsUsable m
  unfolding IsUsable
  Kept-IsUsable m v e k h = ground (arith, h, v.keys e)

  -- The first node is due, or none is.
  due-cases :
      (now : ℕ) (m : Timers T)
      → IsUsable m
      → ((due r now m ≡ none) × ((e l : ℕ) → r.key_in m.tree e ≡ some l → now < l))
        ⊎ ((e : ℕ) × (k : ℕ) × (due r now m ≡ some e) × (r.key_in m.tree e ≡ some k) × (k ≤ now))
  unfolding IsUsable
  due-cases now m v = elim (Option-cases (r.min m.tree)) [
    | inl n ↦ inl (rw n refl, λ e l h. absurd (ground (arith, h, r.min-none m.tree e n)))
    | inr s ↦
        let (i, s') = s in
        let (k, h, least) = r.min-some m.tree i s' in
        elim (Bool-cases (leb k now)) [
          | inl b ↦ inr (i, k, rw s' (ground (arith, b, v i k h)), h, ground (arith, b))
          | inr b ↦
              inl (rw s' (ground (arith, b, v i k h)), λ e l g. ground (arith, b, least e l g))
        ]
  ]

  delete_node-IsUsable :
      (m : Timers T) (e k : ℕ)
      → r.key_in m.tree e ≡ some k
      → IsUsable m
      → IsUsable (delete_node r m e)
  unfolding IsUsable
  delete_node-IsUsable m e k h v j l g = ground (arith, g, r.key_in-delete m.tree k e j h, v j l)

  pub record IsFired (now : ℕ) (m m' : Timers T) (es : List ℕ) : Type 0 where
    pub left : (e : ℕ) → r.key_in m'.tree e ≡ drop_due now (r.key_in m.tree e)
    pub fired : (e : ℕ) → tally (is_event e) es ≡ fires now (r.key_in m.tree e)
    pub same_key : m'.key ≡ m.key
    pub same_failed : m'.has_failed ≡ m.has_failed

  none_due :
      (now : ℕ) (o : Option ℕ)
      → ((l : ℕ) → o ≡ some l → now < l)
      → (o ≡ drop_due now o) × (0 ≡ fires now o)
  none_due now none h = (refl, refl)
  none_due now (some k) h = (ground (arith, h k refl), ground (arith, h k refl))

  none-IsFired :
      (now : ℕ) (m : Timers T)
      → ((e l : ℕ) → r.key_in m.tree e ≡ some l → now < l)
      → IsFired now m m []
  none-IsFired now m h = record {
    left = λ e. (none_due now (r.key_in m.tree e) (h e)).0;
    fired = λ e. (none_due now (r.key_in m.tree e) (h e)).1;
    same_key = refl;
    same_failed = refl;
  }

  next-IsFired :
      (now e k : ℕ) (m m' : Timers T) (es : List ℕ)
      → r.key_in m.tree e ≡ some k
      → k ≤ now
      → IsFired now (delete_node r m e) m' es
      → IsFired now m m' (e ∷ es)
  next-IsFired now e k m m' es h l i = record {
    left = λ j. elim (Bool-cases (j == e)) [
      | inl b ↦
          rw ((==_iff j e).0 b) (ground (arith, h, l, i.left e, r.key_in-delete m.tree k e e h))
      | inr b ↦ ground (arith, b, i.left j, r.key_in-delete m.tree k e j h)
    ];
    fired = λ j. elim (Bool-cases (j == e)) [
      | inl b ↦ ground (
        arith,
        b,
        l,
        i.fired j,
        r.key_in-delete m.tree k e j h,
        ap (r.key_in m.tree) ((==_iff j e).0 b) ∙ h,
      )
      | inr b ↦ ground (arith, b, i.fired j, r.key_in-delete m.tree k e j h)
    ];
    same_key = i.same_key;
    same_failed = ground (arith, i.same_failed, ap is_in h);
  }

  fire-IsFired :
      (n now : ℕ) (m : Timers T)
      → IsUsable m
      → r.size m.tree ≤ n
      → IsFired now m (fire r n now m).0 (fire r n now m).1
  unfolding fire
  fire-IsFired zero now m v h =
      none-IsFired now m (λ e l g. absurd (omega (arith, h, r.size-delete m.tree l e g)))
  fire-IsFired (suc n) now m v h = elim (due-cases now m v) [
    | inl q ↦ rw q.0 (none-IsFired now m q.1)
    | inr q ↦
        let (e, k, a, b, c) = q in
        let i =
          fire-IsFired n now (delete_node r m e) (delete_node-IsUsable m e k b v)
            (omega (arith, r.size-delete m.tree k e b)) in
        rw a (next-IsFired now e k m _ _ b c i)
  ]

  pub process-IsFired :
      (now : ℕ) (p : Epoller T)
      → IsKept r p.rtimer
      → IsKept r p.wtimer
      → let q = process_time_out r now p in
        IsFired now p.rtimer q.poller.rtimer q.read_fired
        × IsFired now p.wtimer q.poller.wtimer q.write_fired
  unfolding process_time_out
  process-IsFired now p a b = (
    fire-IsFired (r.size p.rtimer.tree) now p.rtimer (Kept-IsUsable p.rtimer a) (omega arith),
    fire-IsFired (r.size p.wtimer.tree) now p.wtimer (Kept-IsUsable p.wtimer b) (omega arith),
  )

  -- After any calls that set and delete time-outs, `ProcessTimeOut` at the time `now` fires each
  -- event exactly once for each of its timers whose key is set and not after `now`, and no other; the
  -- trees are left with exactly the other timers.
  pub fired_exactly :
      {o : ℕ → ℕ} {p : Epoller T} (now e : ℕ)
      → Calls r o p
      → let q = process_time_out r now p in
        (tally (is_event e) q.read_fired ≡ fires now (set_key (p.rtimer.key e)))
        × (tally (is_event e) q.write_fired ≡ fires now (set_key (p.wtimer.key e)))
        × (r.key_in q.poller.rtimer.tree e ≡ drop_due now (set_key (p.rtimer.key e)))
        × (r.key_in q.poller.wtimer.tree e ≡ drop_due now (set_key (p.wtimer.key e)))
  fired_exactly {p = p} now e c =
      let w = Calls-IsWell r c in
      let (a, b) = process-IsFired now p w.reads w.writes in
      (
        a.fired e ∙ ap (fires now) (w.reads.keys e),
        b.fired e ∙ ap (fires now) (w.writes.keys e),
        a.left e ∙ ap (drop_due now) (w.reads.keys e),
        b.left e ∙ ap (drop_due now) (w.writes.keys e),
      )
