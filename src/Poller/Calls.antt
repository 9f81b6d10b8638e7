-- ===== src/Poller/Calls.antt =====
-- About the calls that set and delete time-outs, in any order: what the trees hold, and the reference
-- counts.
use mtrpc.Base.{
  ℕ, ◌+◌, ◌-◌, ◌≡◌, ◌≢◌, ◌<◌, refl, ap, ◌∙◌, arith, false, Option, none, some, inl, inr,
  if◌then◌else◌, ◌==◌, ==_iff, Bool-cases,
}
use mtrpc.Poller.{
  RbTree, Timers, Epoller, update, is_in, no_timers, epoller, delete_node, insert_node,
  set_time_out, del_time_out, set_refs, del_refs, set_read_time_out, set_write_time_out,
  del_read_time_out, del_write_time_out, del_event,
}

-- A key that is set.
abbrev pub set_key : ℕ → Option ℕ
set_key k = if k == 0 then none else some k

abbrev pub held : ℕ → ℕ
held k = if k == 0 then 0 else 1

set_key-some : (k : ℕ) → k ≢ 0 → set_key k ≡ some k
set_key-some k h = ground arith

module _ {T : Type 0} (r : RbTree T) where
  -- The tree holds the nodes whose keys are set, at those keys, and is not broken.
  pub record IsKept (m : Timers T) : Type 0 where
    pub keys : (e : ℕ) → r.key_in m.tree e ≡ set_key (m.key e)
    pub sound : m.has_failed ≡ false

  pub no_timers-IsKept : IsKept (no_timers r)
  no_timers-IsKept = record { keys = r.key_in-empty; sound = refl }

  -- All that, but for the event `e`, which is not in the tree.
  pub record IsFree (m : Timers T) (e : ℕ) : Type 0 where
    pub absent : r.key_in m.tree e ≡ none
    pub others : (j : ℕ) → (j == e) ≡ false → r.key_in m.tree j ≡ set_key (m.key j)
    pub fine : m.has_failed ≡ false

  pub delete_node-IsFree :
      (m : Timers T) (e : ℕ) → IsKept m → m.key e ≢ 0 → IsFree (delete_node r m e) e
  delete_node-IsFree m e v h =
      let k : r.key_in m.tree e ≡ some (m.key e) = v.keys e ∙ set_key-some (m.key e) h in
      record {
        absent = ground (arith, r.key_in-delete m.tree (m.key e) e e k);
        others = λ j n. ground (arith, n, r.key_in-delete m.tree (m.key e) e j k, v.keys j);
        fine = ground (arith, v.sound, ap is_in k);
      }

  insert_node-IsKept : (m : Timers T) (k e : ℕ) → 0 < k → IsFree m e → IsKept (insert_node r m k e)
  insert_node-IsKept m k e h v = record {
    keys = λ j. elim (Bool-cases (j == e)) [
      | inl b ↦ rw b (ground (arith, b, r.key_in-insert m.tree k e j v.absent))
      | inr b ↦ rw b (ground (arith, b, r.key_in-insert m.tree k e j v.absent, v.others j b))
    ];
    sound = v.fine;
  }

  vacate-IsFree :
      (m : Timers T) (e : ℕ) → IsKept m → IsFree (if m.key e == 0 then m else delete_node r m e) e
  vacate-IsFree m e v = elim (Bool-cases (m.key e == 0)) [
    | inl b ↦ rw b (record {
      absent = v.keys e ∙ ap set_key ((==_iff (m.key e) 0).0 b);
      others = λ j n. v.keys j;
      fine = v.sound;
    })
    | inr b ↦ rw b (delete_node-IsFree m e v (ground (arith, b)))
  ]

  set_time_out-IsKept :
      (now e sec : ℕ) (m : Timers T) → 0 < now → IsKept m → IsKept (set_time_out r now e sec m)
  set_time_out-IsKept now e sec m h v =
      insert_node-IsKept _ (now + sec) e (omega arith) (vacate-IsFree m e v)

  del_time_out-IsKept : (e : ℕ) (m : Timers T) → IsKept m → IsKept (del_time_out r e m)
  del_time_out-IsKept e m v = elim (Bool-cases (m.key e == 0)) [
    | inl b ↦ rw b v
    | inr b ↦
        let f = delete_node-IsFree m e v (ground (arith, b)) in
        rw b (record {
          keys = λ j. elim (Bool-cases (j == e)) [
            | inl c ↦ rw c (rw ((==_iff j e).0 c) f.absent)
            | inr c ↦ rw c (f.others j c)
          ];
          sound = f.fine;
        })
  ]

  -- The references: `owners` are those that are not a timer's.
  pub record IsWell (owners : ℕ → ℕ) (p : Epoller T) : Type 0 where
    pub reads : IsKept p.rtimer
    pub writes : IsKept p.wtimer
    pub counted : (e : ℕ) → p.ref_count e ≡ owners e + held (p.rtimer.key e) + held (p.wtimer.key e)

  -- Calls at times after 0. `DelEvent` gives back a reference of its caller.
  pub data Calls : (ℕ → ℕ) → Epoller T → Type 0 where
    fresh : (refs : ℕ → ℕ) → Calls refs (epoller r refs)
    sets_read :
        {o : ℕ → ℕ} {p : Epoller T} (now e sec : ℕ)
        → 0 < now
        → Calls o p
        → Calls o (set_read_time_out r now e sec p)
    sets_write :
        {o : ℕ → ℕ} {p : Epoller T} (now e sec : ℕ)
        → 0 < now
        → Calls o p
        → Calls o (set_write_time_out r now e sec p)
    dels_read : {o : ℕ → ℕ} {p : Epoller T} (e : ℕ) → Calls o p → Calls o (del_read_time_out r e p)
    dels_write :
        {o : ℕ → ℕ} {p : Epoller T} (e : ℕ) → Calls o p → Calls o (del_write_time_out r e p)
    dels_event :
        {o : ℕ → ℕ} {p : Epoller T} (e : ℕ)
        → 0 < o e
        → Calls o p
        → Calls (update o e (o e - 1)) (del_event r e p)

  set_refs-key :
      (e j x : ℕ) (now sec : ℕ) (m : Timers T) (f : ℕ → ℕ)
      → 0 < now
      → f j ≡ x + held (m.key j)
      → set_refs r e m f j ≡ x + held ((set_time_out r now e sec m).key j)
  set_refs-key e j x now sec m f h k = elim (Bool-cases (m.key e == 0)) [
    | inl b ↦ rw b (elim (Bool-cases (j == e)) [
      | inl c ↦
          rw ((==_iff j e).0 c)
            (ground (arith, b, k, ap f ((==_iff j e).0 c), ap m.key ((==_iff j e).0 c)))
      | inr c ↦ rw c k
    ])
    | inr b ↦ rw b (elim (Bool-cases (j == e)) [
      | inl c ↦
          rw ((==_iff j e).0 c)
            (ground (arith, b, k, ap f ((==_iff j e).0 c), ap m.key ((==_iff j e).0 c)))
      | inr c ↦ rw c k
    ])
  ]

  del_refs-key :
      (e j x : ℕ) (m : Timers T) (f : ℕ → ℕ)
      → f j ≡ x + held (m.key j)
      → del_refs r e m f j ≡ x + held ((del_time_out r e m).key j)
  del_refs-key e j x m f k = elim (Bool-cases (m.key e == 0)) [
    | inl b ↦ rw b k
    | inr b ↦ rw b (elim (Bool-cases (j == e)) [
      | inl c ↦
          rw ((==_iff j e).0 c)
            (ground (arith, b, k, ap f ((==_iff j e).0 c), ap m.key ((==_iff j e).0 c)))
      | inr c ↦ rw c k
    ])
  ]

  del_read-IsWell :
      {o : ℕ → ℕ} {p : Epoller T} (e : ℕ) → IsWell o p → IsWell o (del_read_time_out r e p)
  unfolding del_read_time_out
  del_read-IsWell {o} {p} e w = record {
    reads = del_time_out-IsKept e p.rtimer w.reads;
    writes = w.writes;
    counted = λ j. omega (
      arith,
      del_refs-key e j (o j + held (p.wtimer.key j)) p.rtimer p.ref_count
          (omega (arith, w.counted j)),
    );
  }

  del_write-IsWell :
      {o : ℕ → ℕ} {p : Epoller T} (e : ℕ) → IsWell o p → IsWell o (del_write_time_out r e p)
  unfolding del_write_time_out
  del_write-IsWell {p = p} e w = record {
    reads = w.reads;
    writes = del_time_out-IsKept e p.wtimer w.writes;
    counted = λ j. del_refs-key e j _ p.wtimer p.ref_count (w.counted j);
  }

  release-counted :
      (o f x : ℕ → ℕ) (e j : ℕ)
      → 0 < o e
      → ((i : ℕ) → f i ≡ o i + x i)
      → update f e (f e - 1) j ≡ update o e (o e - 1) j + x j
  release-counted o f x e j h c = elim (Bool-cases (j == e)) [
    | inl b ↦ rw ((==_iff j e).0 b) (ground (arith, c e))
    | inr b ↦ rw b (c j)
  ]

  release-IsWell :
      {o : ℕ → ℕ} {p : Epoller T} (e : ℕ)
      → 0 < o e
      → IsWell o p
      → IsWell
          (update o e (o e - 1))
          (record p { ref_count = update p.ref_count e (p.ref_count e - 1) })
  release-IsWell {o} {p} e h w = record {
    reads = w.reads;
    writes = w.writes;
    counted = λ j. omega (
      arith,
      release-counted o p.ref_count (λ i. held (p.rtimer.key i) + held (p.wtimer.key i)) e j h
          (λ i. omega (arith, w.counted i)),
    );
  }

  pub Calls-IsWell : {o : ℕ → ℕ} {p : Epoller T} → Calls o p → IsWell o p
  unfolding set_read_time_out set_write_time_out del_event
  Calls-IsWell (fresh refs) = record {
    reads = no_timers-IsKept;
    writes = no_timers-IsKept;
    counted = λ e. omega arith;
  }
  Calls-IsWell {o} (sets_read {p = p} now e sec h c) =
      let w = Calls-IsWell c in
      record {
        reads = set_time_out-IsKept now e sec p.rtimer h w.reads;
        writes = w.writes;
        counted = λ j. omega (
          arith,
          set_refs-key e j (o j + held (p.wtimer.key j)) now sec p.rtimer p.ref_count h
              (omega (arith, w.counted j)),
        );
      }
  Calls-IsWell (sets_write {p = p} now e sec h c) =
      let w = Calls-IsWell c in
      record {
        reads = w.reads;
        writes = set_time_out-IsKept now e sec p.wtimer h w.writes;
        counted = λ j. set_refs-key e j _ now sec p.wtimer p.ref_count h (w.counted j);
      }
  Calls-IsWell (dels_read e c) = del_read-IsWell e (Calls-IsWell c)
  Calls-IsWell (dels_write e c) = del_write-IsWell e (Calls-IsWell c)
  Calls-IsWell (dels_event e h c) =
      release-IsWell e h (del_write-IsWell e (del_read-IsWell e (Calls-IsWell c)))

  -- Whatever the calls of `SetReadTimeOut`, `SetWriteTimeOut`, `DelReadTimeOut`, `DelWriteTimeOut`
  -- and `DelEvent` at times after 0, with no time-out fired in between: no node is deleted that is
  -- not in its tree, each tree has exactly the events whose key is set, at that key, and an event's
  -- reference count is the number of its other owners and of its timers.
  pub timers_counted :
      {o : ℕ → ℕ} {p : Epoller T}
      → Calls o p
      → (p.rtimer.has_failed ≡ false)
        × (p.wtimer.has_failed ≡ false)
        × ((e : ℕ)
            → (r.key_in p.rtimer.tree e ≡ set_key (p.rtimer.key e))
              × (r.key_in p.wtimer.tree e ≡ set_key (p.wtimer.key e))
              × (p.ref_count e ≡ o e + held (p.rtimer.key e) + held (p.wtimer.key e)))
  timers_counted c =
      let w = Calls-IsWell c in
      (w.reads.sound, w.writes.sound, λ e. (w.reads.keys e, w.writes.keys e, w.counted e))
