-- ===== src/SpinList/Segment.antt =====
-- Stretches of linked nodes, from the tail on.
use mtrpc.Base.{
  ℕ, ◌≡◌, ◌≤◌, ◌<◌, refl, ap, ◌∙◌, arith, Bool, true, false, List, [], ◌∷◌, ◌++◌, Option, some,
  if◌then◌else◌, ◌==◌, ==_refl, ==_iff, Bool-cases, inl, inr, tally,
}
use mtrpc.SpinList.{Heap, set_next, set_pre, new_node, delete_node}

abbrev pub one_if : Bool → ℕ
one_if b = if b then 1 else 0

abbrev pub is_at : ℕ → ℕ → ℕ
is_at c a = one_if (a == c)

-- How often a node is in a stretch.
abbrev pub times : ℕ → List ℕ → ℕ
times c cs = tally (is_at c) cs

-- A node behind the first is not the first.
pub not_first : (b c : ℕ) (cs : List ℕ) → times c (c ∷ cs) ≤ 1 → 0 < times b cs → (b == c) ≡ false
not_first b c cs d i = elim (Bool-cases (b == c)) [
  | inr e ↦ e
  | inl e ↦
      absurd (omega (arith, d, i, ap (λ x. times x cs) ((==_iff b c).0 e), ap one_if (==_refl c)))
]

module _ {A : Type 0} where
  -- Nodes with their values, each the `next` of the one behind it: `n` is the `next` of the first and
  -- `p` the `pre` of the last; the first and the last are named at the end.
  pub data Segment (h : Heap A) (p : Option ℕ)
      : Option ℕ → List ℕ → List A → Option ℕ → Option ℕ → Type 0 where
    empty : {n : Option ℕ} → Segment h p n [] [] p n
    link :
        {n s e : Option ℕ} {cs : List ℕ} {xs : List A} {x : A} (a : ℕ)
        → h.next a ≡ n
        → h.pre a ≡ s
        → h.value a ≡ x
        → h.live a ≡ true
        → Segment h p (some a) cs xs s e
        → Segment h p n (a ∷ cs) (x ∷ xs) (some a) e

  pub append :
      {h : Heap A} {p q m n s e : Option ℕ} {cs bs : List ℕ} {xs ys : List A}
      → Segment h q n cs xs s m
      → Segment h p m bs ys q e
      → Segment h p n (cs ++ bs) (xs ++ ys) s e
  append empty g = g
  append (link a u v w l f) g = link a u v w l (append f g)

  -- Two heaps that have the same in a node.
  pub record Agrees (h k : Heap A) (c : ℕ) : Type 0 where
    pub same_next : k.next c ≡ h.next c
    pub same_pre : k.pre c ≡ h.pre c
    pub same_value : k.value c ≡ h.value c
    pub same_live : k.live c ≡ h.live c

  pub set_next-Agrees :
      {h : Heap A} (i : ℕ) (o : Option ℕ) (c : ℕ) → (c == i) ≡ false → Agrees h (set_next h i o) c
  set_next-Agrees i o c e = record {
    same_next = ground (arith, e);
    same_pre = refl;
    same_value = refl;
    same_live = refl;
  }

  pub set_pre-Agrees :
      {h : Heap A} (i : ℕ) (o : Option ℕ) (c : ℕ) → (c == i) ≡ false → Agrees h (set_pre h i o) c
  set_pre-Agrees i o c e = record {
    same_next = refl;
    same_pre = ground (arith, e);
    same_value = refl;
    same_live = refl;
  }

  pub delete_node-Agrees : {h : Heap A} (i c : ℕ) → (c == i) ≡ false → Agrees h (delete_node h i) c
  delete_node-Agrees i c e = record {
    same_next = refl;
    same_pre = refl;
    same_value = refl;
    same_live = ground (arith, e);
  }

  pub new_node-Agrees :
      {h : Heap A} (t : A) (c : ℕ) → (c == h.top) ≡ false → Agrees h (new_node h t) c
  new_node-Agrees t c e = record {
    same_next = ground (arith, e);
    same_pre = ground (arith, e);
    same_value = ground (arith, e);
    same_live = ground (arith, e);
  }

  -- A change outside of the stretch keeps it.
  pub frame :
      {h k : Heap A} {p n s e : Option ℕ} {cs : List ℕ} {xs : List A}
      → Segment h p n cs xs s e
      → ((c : ℕ) → 0 < times c cs → Agrees h k c)
      → Segment k p n cs xs s e
  frame empty f = empty
  frame (link {cs = cs} a u v w l g) f =
      let r = f a (ground (arith, ==_refl a)) in
      link a (r.same_next ∙ u) (r.same_pre ∙ v) (r.same_value ∙ w) (r.same_live ∙ l)
        (frame g (λ c i. f c (omega (arith, i))))

  -- The node at the end is in the stretch, where that is not empty.
  pub last_in :
      {h : Heap A} {p n s e : Option ℕ} {cs : List ℕ} {xs : List A} {c : ℕ} (b : ℕ)
      → Segment h p n (c ∷ cs) xs s e
      → e ≡ some b
      → 0 < times b (c ∷ cs)
  last_in b (link a u v w l empty) i = ground (arith, i)
  last_in b (link a u v w l (link c u' v' w' l' f)) i =
      omega (arith, last_in b (link c u' v' w' l' f) i)

  -- The `pre` of the last node is set.
  pub relink_last :
      {h : Heap A} {p n s e : Option ℕ} {cs : List ℕ} {xs : List A} {c : ℕ} (b : ℕ) (q : Option ℕ)
      → Segment h p n (c ∷ cs) xs s e
      → e ≡ some b
      → times b (c ∷ cs) ≤ 1
      → Segment (set_pre h b q) q n (c ∷ cs) xs s e
  relink_last b q (link a u v w l empty) i d = link a u (ground (arith, i)) w l empty
  relink_last {h} b q (link a u v w l (link c u' v' w' l' f)) i d =
      let g = relink_last b q (link c u' v' w' l' f) i (omega (arith, d)) in
      link a u (ground (arith, d, v, last_in b (link c u' v' w' l' f) i)) w l g

  -- The `next` of the first node is set.
  pub relink_first :
      {h : Heap A} {p n s e : Option ℕ} {cs : List ℕ} {xs : List A} {c : ℕ} (m : Option ℕ)
      → Segment h p n (c ∷ cs) xs s e
      → times c (c ∷ cs) ≤ 1
      → Segment (set_next h c m) p m (c ∷ cs) xs s e
  relink_first {h} {cs = cs} {c = c} m (link a u v w l f) d =
      link a (ground arith) v w l (frame f (λ b i. set_next-Agrees c m b (not_first b c cs d i)))
