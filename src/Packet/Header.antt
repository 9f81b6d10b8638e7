-- ===== src/Packet/Header.antt =====
-- A header in the write buffer, in the piece that holds its start.
use mtrpc.Base.{
  ℕ, suc, ◌+◌, ◌-◌, ◌≡◌, ◌<◌, refl, ap, sym, ◌∙◌, arith, true, false, ◌&&◌, List, [], ◌∷◌, ◌++◌,
  length, get_or, ltb, ltb-true, ◌==◌, ==_refl, ==_iff, Bool-cases, inl, inr, if◌then◌else◌, Option,
  none, some,
}
use mathlib.Core.Path.{subst, fun_ext}
use mtrpc.Ring.{Que, Iterator, IsAt, IsFilled, next, same, increment, size_at, set_piece}
use mtrpc.Text.{Bytes}
use mtrpc.Http.Serialize.{snprintf, emit, end_piece, serialize_lines}
use mtrpc.Http.Written.{text, serialize_lines_lem}
use mtrpc.Http.Runs.{Stands, here, byte}

pub Stands-append :
    {q : Que} {e it at to : Iterator} {cs ds : Bytes}
    → Stands q e it cs at
    → Stands q e at ds to
    → Stands q e it (cs ++ ds) to
Stands-append here r = r
Stands-append (byte n g t) r = byte n g (Stands-append t r)

increment_in :
    (q : Que) (i ofs : ℕ)
    → ofs + 1 < size_at q i
    → increment q (record { idx = i; ofs = ofs }) ≡ record { idx = i; ofs = ofs + 1 }
unfolding increment
increment_in q i ofs h = rw (ltb-true (ofs + 1) (size_at q i) h) refl

increment_out :
    (q : Que) (i ofs : ℕ)
    → size_at q i ≡ ofs + 1
    → increment q (record { idx = i; ofs = ofs }) ≡ record { idx = next i; ofs = 0 }
unfolding increment
increment_out q i ofs h = rw (not_below (ofs + 1) (size_at q i) h) refl
  where
    not_below : (a b : ℕ) → b ≡ a → ltb a b ≡ false
    not_below a b h = ground arith

elsewhere :
    (e : Iterator) (i ofs : ℕ)
    → (e.idx == i) ≡ false
    → same (record { idx = i; ofs = ofs }) e ≡ false
elsewhere e i ofs h = ground arith

-- The bytes at the end of a piece.
piece-Stands :
    (q : Que) (e : Iterator) (i ofs c : ℕ) (t : Bytes)
    → size_at q i ≡ ofs + suc (length t)
    → ((j : ℕ) → j < suc (length t) → (q i).buffer (ofs + j) ≡ get_or (c ∷ t) j 0)
    → (e.idx == i) ≡ false
    → Stands q e (record { idx = i; ofs = ofs }) (c ∷ t) (record { idx = next i; ofs = 0 })
piece-Stands q e i ofs c [] s b h =
    byte (elsewhere e i ofs h) (ap (q i).buffer (omega arith) ∙ b 0 (omega arith)) (
      subst (λ it. Stands q e it [] (record { idx = next i; ofs = 0 }))
        (sym (increment_out q i ofs s)) here)
piece-Stands q e i ofs c (d ∷ t) s b h =
    byte (elsewhere e i ofs h) (ap (q i).buffer (omega arith) ∙ b 0 (omega arith)) (
      subst (λ it. Stands q e it (d ∷ t) (record { idx = next i; ofs = 0 }))
        (sym (increment_in q i ofs (omega arith)))
        (piece-Stands q e i (ofs + 1) d t (omega arith)
          (λ j k. ap (q i).buffer (omega arith) ∙ b (suc j) (omega arith)) h))

-- No other piece than that of the header changes.
emit-other :
    (ls : List Bytes) (q : Que) (i p size j : ℕ) → (j == i) ≡ false → (emit ls q i p size).0 j ≡ q j
unfolding emit snprintf
emit-other [] q i p size j h = refl
emit-other (s ∷ ss) q i p size j h = elim (Bool-cases (ltb (length s) size)) [
  | inl t ↦
      rw t
        (emit-other ss (snprintf q i p size s) i (p + length s) (size - length s) j h ∙ rw h refl)
  | inr t ↦ rw t (rw h refl)
]

serialize_lines-other :
    (ls : List Bytes) (q : Que) (it : Iterator) (j : ℕ)
    → (j == it.idx) ≡ false
    → (serialize_lines ls q it).0 j ≡ q j
unfolding serialize_lines
serialize_lines-other ls q it j h =
    ended (emit ls q it.idx it.ofs (size_at q it.idx - it.ofs))
      (emit-other ls q it.idx it.ofs (size_at q it.idx - it.ofs) j h)
  where
    ended : (r : Que × Option ℕ) → r.0 j ≡ q j → (end_piece it.idx r).0 j ≡ q j
    ended (p, none) e = e
    ended (p, some n) e = rw h e

pub serialize_lines-set_piece :
    (ls : List Bytes) (q : Que) (it : Iterator)
    → (serialize_lines ls q it).0 ≡ set_piece q it.idx ((serialize_lines ls q it).0 it.idx)
serialize_lines-set_piece ls q it = fun_ext (λ j. at j)
  where
    q' : Que
    q' = (serialize_lines ls q it).0

    at : (j : ℕ) → q' j ≡ set_piece q it.idx (q' it.idx) j
    at j = elim (Bool-cases (j == it.idx)) [
      | inl t ↦ rw t (ap q' ((==_iff j it.idx).0 t))
      | inr t ↦ rw t (serialize_lines-other ls q it j t)
    ]

text-Stands :
    (q : Que) (e it : Iterator) (t : Bytes)
    → 0 < length t
    → size_at q it.idx ≡ it.ofs + length t
    → ((j : ℕ) → j < length t → (q it.idx).buffer (it.ofs + j) ≡ get_or t j 0)
    → (e.idx == it.idx) ≡ false
    → Stands q e it t (record { idx = next it.idx; ofs = 0 })
text-Stands q e it [] l s b h = absurd (omega arith)
text-Stands q e it (c ∷ t) l s b h = piece-Stands q e it.idx it.ofs c t s b h

pub set_piece-same : (q : Que) (i : ℕ) → set_piece q i (q i) ≡ q
set_piece-same q i = fun_ext (λ j. at j)
  where
    at : (j : ℕ) → set_piece q i (q i) j ≡ q j
    at j = elim (Bool-cases (j == i)) [
      | inl t ↦ rw t (ap q (sym ((==_iff j i).0 t)))
      | inr t ↦ rw t refl
    ]

module _ (ls : List Bytes) (q : Que) (start : Iterator) (v : IsAt q start)
    (fits : length (text ls) < size_at q start.idx - start.ofs) where
  -- The pieces with a header written at `start`.
  abbrev headed : Que
  headed = (serialize_lines ls q start).0

  succeeded : (serialize_lines ls q start).1 ≡ true
  succeeded =
      (serialize_lines_lem ls q start 0 v).0
      ∙ ltb-true (length (text ls)) (size_at q start.idx - start.ofs) fits

  size-headed :
      (j : ℕ)
      → size_at headed j ≡ (if j == start.idx then start.ofs + length (text ls) else size_at q j)
  size-headed j =
      (serialize_lines_lem ls q start j v).1
      ∙ ap (λ b. if b && j == start.idx then start.ofs + length (text ls) else size_at q j)
          succeeded

  size-start : size_at headed start.idx ≡ start.ofs + length (text ls)
  size-start = size-headed start.idx ∙ rw (==_refl start.idx) refl

  size_in : (j : ℕ) → (j == start.idx) ≡ true → size_at headed j ≡ start.ofs + length (text ls)
  size_in j h = size-headed j ∙ rw h refl

  size_out : (j : ℕ) → (j == start.idx) ≡ false → size_at headed j ≡ size_at q j
  size_out j h = size-headed j ∙ rw h refl

  pub headed-IsAt : (it : Iterator) → (it.idx == start.idx) ≡ false → IsAt q it → IsAt headed it
  headed-IsAt it h w = record {
    idx_lt = w.idx_lt;
    ofs_lt = omega (arith, size_out it.idx h, w.ofs_lt);
  }

  pub start-IsAt : 0 < length (text ls) → IsAt headed start
  start-IsAt l = record { idx_lt = v.idx_lt; ofs_lt = omega (arith, size-start) }

  pub headed-IsFilled : IsFilled q → 0 < length (text ls) → IsFilled headed
  headed-IsFilled full l j k = elim (Bool-cases (j == start.idx)) [
    | inl t ↦ omega (arith, size_in j t)
    | inr t ↦ omega (arith, size_out j t, full j k)
  ]

  -- The header's text, up to the next piece.
  pub header-Stands :
      (e : Iterator)
      → 0 < length (text ls)
      → (e.idx == start.idx) ≡ false
      → Stands headed e start (text ls) (record { idx = next start.idx; ofs = 0 })
  header-Stands e l h =
      text-Stands headed e start (text ls) l size-start
        (λ j k. (serialize_lines_lem ls q start j v).2 succeeded k) h
