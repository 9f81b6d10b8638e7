-- ===== src/SpinList/Queue.antt =====
-- About each operation of the list, with the list as a queue of its values.
use mtrpc.Base.{
  ℕ, ◌+◌, ◌≡◌, ◌≤◌, ◌<◌, refl, ap, arith, false, List, [], ◌∷◌, ◌++◌, Option, none, some, ◌==◌,
  ==_refl, ==_iff, Bool-cases, inl, inr, tally-append,
}
use mathlib.Core.Path.{subst, ap₂}
use mtrpc.SpinList.{
  Heap, SpinList, link_head, node_from, pop_tail, link_lists, node_from, new_node, set_next,
  set_pre, push, pop, merge,
}
use mtrpc.SpinList.Segment.{
  is_at, times, not_first, Segment, empty, link, append, set_next-Agrees, set_pre-Agrees,
  delete_node-Agrees, new_node-Agrees, frame, last_in, relink_last, relink_first,
}

apart :
    (j b : ℕ) (cs ds : List ℕ)
    → ((i : ℕ) → times i cs + times i ds ≤ 1)
    → 0 < times j cs
    → 0 < times b ds
    → (j == b) ≡ false
apart j b cs ds o p q = elim (Bool-cases (j == b)) [
  | inr e ↦ e
  | inl e ↦ absurd (omega (arith, o b, q, p, ap (λ x. times x cs) ((==_iff j b).0 e)))
]

below-ne : (c t : ℕ) → c < t → (c == t) ≡ false
below-ne c t l = ground arith

-- A node that is not there yet, behind the others.
once_more :
    (cs : List ℕ) (n : ℕ)
    → ((c : ℕ) → times c cs ≤ 1)
    → ((c : ℕ) → 0 < times c cs → c < n)
    → (c : ℕ) → times c cs + times c (n ∷ []) ≤ 1
once_more cs n o b c = ground (arith, o c, b c)

once_snoc :
    (cs : List ℕ) (n : ℕ)
    → ((c : ℕ) → times c cs ≤ 1)
    → ((c : ℕ) → 0 < times c cs → c < n)
    → (c : ℕ) → times c (cs ++ n ∷ []) ≤ 1
once_snoc cs n o b c = omega (arith, once_more cs n o b c, tally-append (is_at c) cs (n ∷ []))

below_snoc :
    (cs : List ℕ) (n : ℕ)
    → ((c : ℕ) → 0 < times c cs → c < n)
    → (c : ℕ) → 0 < times c (cs ++ n ∷ [])
    → c < n + 1
below_snoc cs n b c i = ground (arith, b c, i, tally-append (is_at c) cs (n ∷ []))

module _ {A : Type 0} where
  -- The list `l` has the nodes `cs`, all different and allocated, and the values `xs`, the oldest
  -- first.
  pub record IsQueue (h : Heap A) (l : SpinList) (cs : List ℕ) (xs : List A) : Type 0 where
    pub segment : Segment h none none cs xs l.tail l.head
    pub once : (c : ℕ) → times c cs ≤ 1
    pub below : (c : ℕ) → 0 < times c cs → c < h.top
    pub no_cache : l.cache ≡ none

  end_some :
      {h : Heap A} {p n s e : Option ℕ} {cs : List ℕ} {xs : List A} {c : ℕ}
      → Segment h p n (c ∷ cs) xs s e
      → (b : ℕ) × (e ≡ some b)
  end_some (link a u v w l empty) = (a, refl)
  end_some (link a u v w l (link c u' v' w' l' f)) = end_some (link c u' v' w' l' f)

  -- Two stretches, one behind the other: what `Merge` does, and `push` with a stretch of one node.
  pub join :
      {h : Heap A} {s m : Option ℕ} {a b : ℕ} {cs ds : List ℕ} {xs ys : List A} {c d : ℕ}
      → Segment h none none (c ∷ cs) xs s (some a)
      → Segment h none none (d ∷ ds) ys (some b) m
      → ((j : ℕ) → times j (c ∷ cs) + times j (d ∷ ds) ≤ 1)
      → Segment
          (set_pre (set_next h b (some a)) a (some b))
          none
          none
          ((c ∷ cs) ++ (d ∷ ds))
          (xs ++ ys)
          s
          m
  join {h} {a = a} {cs = cs} {ds = ds} {c = c} f (link b u v w l g) o =
      let last = last_in a f refl in
      let front = frame f (λ j r.
        set_next-Agrees b (some a) j
          (apart j b (c ∷ cs) (b ∷ ds) o r (ground (arith, ==_refl b)))) in
      let back = relink_first (some a) (link b u v w l g) (omega (arith, o b)) in
      append (relink_last a (some b) front refl (omega (arith, o a))) (
        frame back (λ j r.
          set_pre-Agrees a (some b) j
            (apart j a (b ∷ ds) (c ∷ cs) (λ i. omega (arith, o i)) r last)))

  new_node-frame :
      {n s e : Option ℕ} {cs : List ℕ} {xs : List A} (h : Heap A) (t : A)
      → Segment h none n cs xs s e
      → ((c : ℕ) → 0 < times c cs → c < h.top)
      → Segment (new_node h t) none n cs xs s e
  new_node-frame h t f b = frame f (λ c i. new_node-Agrees t c (below-ne c h.top (b c i)))

  one_node :
      (h : Heap A) (t : A)
      → Segment (new_node h t) none none (h.top ∷ []) (t ∷ []) (some h.top) (some h.top)
  one_node h t =
      let e = ==_refl h.top in
      link h.top (ground (arith, e)) (ground (arith, e)) (ground (arith, e)) (ground (arith, e))
        empty

  push_some-IsQueue :
      {cs : List ℕ} {xs : List A} {c : ℕ} (a : ℕ) (h : Heap A) (l : SpinList) (t : A)
      → IsQueue h l (c ∷ cs) xs
      → l.head ≡ some a
      → let r = link_head (new_node h t) l h.top (some a) in
        IsQueue r.0 r.1 ((c ∷ cs) ++ h.top ∷ []) (xs ++ t ∷ [])
  push_some-IsQueue {cs} {xs} {c} a h l t q i = record {
    segment =
        join
          (subst (λ x. Segment (new_node h t) none none (c ∷ cs) xs l.tail x) i
            (new_node-frame h t q.segment q.below))
          (one_node h t) (once_more (c ∷ cs) h.top q.once q.below);
    once = once_snoc (c ∷ cs) h.top q.once q.below;
    below = below_snoc (c ∷ cs) h.top q.below;
    no_cache = q.no_cache;
  }

  push_none-IsQueue :
      {xs : List A} (h : Heap A) (l : SpinList) (t : A)
      → IsQueue h l [] xs
      → let r = link_head (new_node h t) l h.top none in IsQueue r.0 r.1 (h.top ∷ []) (t ∷ [])
  push_none-IsQueue h l t q = record {
    segment = one_node h t;
    once = once_snoc [] h.top q.once q.below;
    below = below_snoc [] h.top q.below;
    no_cache = q.no_cache;
  }

  -- An empty stretch.
  pub empty_ends :
      {h : Heap A} {p n s e : Option ℕ} {xs : List A}
      → Segment h p n [] xs s e
      → (xs ≡ []) × (s ≡ p) × (e ≡ n)
  empty_ends empty = (refl, refl, refl)

  pub push-IsQueue :
      {xs : List A} (cs : List ℕ) (h : Heap A) (l : SpinList) (t : A)
      → IsQueue h l cs xs
      → IsQueue (push h l t).0 (push h l t).1 (cs ++ h.top ∷ []) (xs ++ t ∷ [])
  unfolding push
  push-IsQueue [] h l t q =
      let (x, s, e) = empty_ends q.segment in
      let f : node_from h l t l.cache ≡ (new_node h t, l, h.top) =
        ap (node_from h l t) q.no_cache in
      rw f (rw e (rw x (push_none-IsQueue h l t q)))
  push-IsQueue (c ∷ cs) h l t q =
      let (a, e) = end_some q.segment in
      let f : node_from h l t l.cache ≡ (new_node h t, l, h.top) =
        ap (node_from h l t) q.no_cache in
      rw f (rw e (push_some-IsQueue a h l t q e))

  nil_ends :
      {h : Heap A} {p n s e : Option ℕ} {cs : List ℕ} → Segment h p n cs [] s e → (s ≡ p) × (e ≡ n)
  nil_ends empty = (refl, refl)

  -- `pop` of a list without values, and of one with a first value.
  pub pop-nil :
      {cs : List ℕ} {h : Heap A} {l : SpinList} → IsQueue h l cs [] → pop h l ≡ (h, l, none)
  unfolding pop
  pop-nil {cs} {h} {l} q = ap (pop_tail h l) (nil_ends q.segment).0

  pop_link :
      {x : A} {xs : List A} {c : ℕ} {cs : List ℕ} {h : Heap A} {o e : Option ℕ} (l : SpinList)
      → Segment h none none (c ∷ cs) (x ∷ xs) o e
      → l.head ≡ e
      → l.cache ≡ none
      → ((b : ℕ) → times b (c ∷ cs) ≤ 1)
      → ((b : ℕ) → 0 < times b (c ∷ cs) → b < h.top)
      → ((pop_tail h l o).2 ≡ some x) × IsQueue (pop_tail h l o).0 (pop_tail h l o).1 cs xs
  pop_link {h = h} l (link c u v w k empty) i n o b = (
    ap some w,
    rw v (record {
      segment = empty;
      once = λ j. omega arith;
      below = λ j p. absurd (omega arith);
      no_cache = n;
    }),
  )
  pop_link {cs = cs} {h = h} l (link c u v w k (link d u' v' w' k' f)) i n o b = (
    ap some w,
    rw v (record {
      segment = rw i (
          frame (relink_first none (link d u' v' w' k' f) (omega (arith, o d)))
            (λ j p. delete_node-Agrees c j (not_first j c cs (o c) p)));
      once = λ j. omega (arith, o j);
      below = λ j p. b j (omega (arith, p));
      no_cache = n;
    }),
  )

  pub pop-cons :
      {x : A} {xs : List A} {c : ℕ} {cs : List ℕ} {h : Heap A} {l : SpinList}
      → IsQueue h l (c ∷ cs) (x ∷ xs)
      → ((pop h l).2 ≡ some x) × IsQueue (pop h l).0 (pop h l).1 cs xs
  unfolding pop
  pop-cons {h = h} {l = l} q = pop_link l q.segment refl q.no_cache q.once q.below

  start_some :
      {h : Heap A} {p n s e : Option ℕ} {cs : List ℕ} {xs : List A} {c : ℕ}
      → Segment h p n (c ∷ cs) xs s e
      → s ≡ some c
  start_some (link a u v w l f) = refl

  pub emptied :
      {h : Heap A} (m : SpinList)
      → m.cache ≡ none
      → IsQueue h (record m { head = none; tail = none }) [] []
  emptied m n = record {
    segment = empty;
    once = λ c. omega arith;
    below = λ c p. absurd (omega arith);
    no_cache = n;
  }

  -- Where `list` is not empty, `Merge` puts all of it behind what the list has, the oldest still
  -- first, and leaves `list` empty.
  pub merge_behind :
      {xs ys : List A} {d : ℕ} {cs ds : List ℕ} {h : Heap A} {l m : SpinList}
      → IsQueue h l cs xs
      → IsQueue h m (d ∷ ds) ys
      → ((c : ℕ) → times c cs + times c (d ∷ ds) ≤ 1)
      → (k : Heap A) × (l' : SpinList) × (m' : SpinList) × (merge h l m ≡ some (k, l', m'))
        × IsQueue k l' (cs ++ d ∷ ds) (xs ++ ys)
        × IsQueue k m' [] []
  unfolding merge
  merge_behind {cs = []} {h} {l} {m} q r o =
      let (x, s, e) = empty_ends q.segment in
      (
        _,
        _,
        _,
        ap (λ i. link_lists h l m i m.tail) e,
        rw x
            (record { segment = r.segment; once = r.once; below = r.below; no_cache = q.no_cache }),
        emptied m r.no_cache,
      )
  merge_behind {xs} {ys} {d} {cs = c ∷ cs} {ds} {h} {l} {m} q r o =
      let (a, e) = end_some q.segment in
      let t = start_some r.segment in
      (
        _,
        _,
        _,
        ap₂ (link_lists h l m) e t,
        record {
          segment =
              join (subst (λ i. Segment h none none (c ∷ cs) xs l.tail i) e q.segment)
                (subst (λ i. Segment h none none (d ∷ ds) ys i m.head) t r.segment) o;
          once = λ j. omega (arith, o j, tally-append (is_at j) (c ∷ cs) (d ∷ ds));
          below = λ j p.
              ground (arith, p, q.below j, r.below j, tally-append (is_at j) (c ∷ cs) (d ∷ ds));
          no_cache = q.no_cache;
        },
        emptied m r.no_cache,
      )

  -- `Merge` of an empty list into one that is not empty goes through NULL.
  pub merge_null :
      {xs : List A} {c : ℕ} {cs : List ℕ} {h : Heap A} {l m : SpinList}
      → IsQueue h l (c ∷ cs) xs
      → IsQueue h m [] []
      → merge h l m ≡ none
  unfolding merge
  merge_null {h = h} {l} {m} q r =
      let (a, e) = end_some q.segment in ap₂ (link_lists h l m) e (nil_ends r.segment).0
