-- ===== src/Http/Written.antt =====
-- What `SerializeHeader` leaves in the write buffer.
use mtrpc.Base.{
  ℕ, zero, suc, ◌+◌, ◌-◌, ◌≤◌, ◌<◌, ◌≡◌, refl, ap, sym, ◌∙◌, arith, true, false, ◌&&◌, List, [],
  ◌∷◌, ◌++◌, Option, none, some, ltb, ◌==◌, if◌then◌else◌, length, get_or, take, length-append,
  leb-true, ltb-true, ==_refl, Bool-cases, inl, inr,
}
use mtrpc.Ring.{Que, Iterator, IsAt, set_size, size_at}
use mtrpc.Text.{Bytes}
use mtrpc.Http.Serialize.{poke, snprintf, emit, end_piece, serialize_lines}

-- The lines, one behind the other.
abbrev pub text : List Bytes → Bytes
text [] = []
text (s ∷ ss) = s ++ text ss

take-all : (n : ℕ) (s : Bytes) → length s ≤ n → take n s ≡ s
take-all zero [] h = refl
take-all (suc n) [] h = refl
take-all zero (c ∷ s) h = absurd (omega arith)
take-all (suc n) (c ∷ s) h = ap (λ r. c ∷ r) (take-all n s (omega arith))

get_or-append :
    (s t : Bytes) (j d : ℕ)
    → get_or (s ++ t) j d ≡ (if ltb j (length s) then get_or s j d else get_or t (j - length s) d)
get_or-append [] t j d = ground arith
get_or-append (c ∷ s) t zero d = ground arith
get_or-append (c ∷ s) t (suc j) d = ground (arith, get_or-append s t j d)

add_room :
    (a b size p : ℕ)
    → a < size
    → (if ltb b (size - a) then some (p + a + b) else none)
      ≡ (if ltb (a + b) size then some (p + (a + b)) else none)
add_room a b size p h = elim (Bool-cases (ltb (a + b) size)) [
  | inl t ↦ rw t (rw (ltb-true b (size - a) (ground (arith, t))) (ap some (omega arith)))
  | inr t ↦ ground arith
]

-- The lines fit exactly if they, with a NUL behind them, are no longer than the room.
emit-end :
    (ls : List Bytes) (q : Que) (i p size : ℕ)
    → 0 < size
    → (emit ls q i p size).1
      ≡ (if ltb (length (text ls)) size then some (p + length (text ls)) else none)
unfolding emit
emit-end [] q i p size h = ground arith
emit-end (s ∷ ss) q i p size h = elim (Bool-cases (ltb (length s) size)) [
  | inl t ↦ rw t (
      rw (length-append s (text ss)) (
        emit-end ss (snprintf q i p size s) i (p + length s) (size - length s) (ground (arith, t))
        ∙ add_room (length s) (length (text ss)) size p (ground (arith, t))))
  | inr t ↦ rw t (rw (length-append s (text ss)) (ground arith))
]

-- Nothing is written before the first position, and no size changes.
emit-before :
    (ls : List Bytes) (q : Que) (i p size j : ℕ)
    → j < p
    → ((emit ls q i p size).0 i).buffer j ≡ (q i).buffer j
unfolding emit snprintf
emit-before [] q i p size j h = refl
emit-before (s ∷ ss) q i p size j h = elim (Bool-cases (ltb (length s) size)) [
  | inl t ↦ rw t (
      emit-before ss (snprintf q i p size s) i (p + length s) (size - length s) j (omega arith)
      ∙ kept)
  | inr t ↦ rw t kept
]
  where
    kept : ((snprintf q i p size s) i).buffer j ≡ (q i).buffer j
    kept = rw (==_refl i) (ground arith)

emit-size :
    (ls : List Bytes) (q : Que) (i p size k : ℕ) → size_at (emit ls q i p size).0 k ≡ size_at q k
unfolding emit snprintf
emit-size [] q i p size k = refl
emit-size (s ∷ ss) q i p size k = elim (Bool-cases (ltb (length s) size)) [
  | inl t ↦ rw t (emit-size ss (snprintf q i p size s) i (p + length s) (size - length s) k ∙ kept)
  | inr t ↦ rw t kept
]
  where
    kept : size_at (snprintf q i p size s) k ≡ size_at q k
    kept = ground arith

snprintf-buffer :
    (q : Que) (i p size : ℕ) (s : Bytes) (j : ℕ)
    → length s < size
    → j < length s
    → ((snprintf q i p size s) i).buffer (p + j) ≡ get_or s j 0
unfolding snprintf
snprintf-buffer q i p size s j h k = rw (==_refl i) (rw (take-all (size - 1) s (omega arith)) poked)
  where
    poked : poke (q i).buffer p (s ++ 0 ∷ []) (p + j) ≡ get_or s j 0
    poked =
        let e : p + j - p ≡ j = omega arith in
        rw
          (
            leb-true p (p + j) (omega arith),
            ltb-true (p + j) (p + length (s ++ 0 ∷ [])) (omega (arith, length-append s (0 ∷ []))),
            e,
          )
          (get_or-append s (0 ∷ []) j 0 ∙ rw (ltb-true j (length s) k) refl)

emit-written :
    (ls : List Bytes) (q : Que) (i p size j : ℕ)
    → length (text ls) < size
    → j < length (text ls)
    → ((emit ls q i p size).0 i).buffer (p + j) ≡ get_or (text ls) j 0
unfolding emit
emit-written [] q i p size j h k = absurd (omega arith)
emit-written (s ∷ ss) q i p size j h k =
    let l = length-append s (text ss) in
    rw (ltb-true (length s) size (omega (arith, l))) (
      rw (get_or-append s (text ss) j 0) (elim (Bool-cases (ltb j (length s))) [
        | inl t ↦ rw t (
            emit-before ss (snprintf q i p size s) i (p + length s) (size - length s) (p + j)
              (ground (arith, t))
            ∙ line (ground (arith, t)) (omega (arith, l)))
        | inr t ↦ rw t (
            ap (((emit ss (snprintf q i p size s) i (p + length s) (size - length s)).0 i).buffer)
              (ground (arith, t))
            ∙ emit-written ss (snprintf q i p size s) i (p + length s) (size - length s)
                (j - length s) (omega (arith, l)) (ground (arith, t, l)))
      ]))
  where
    line :
        j < length s → length s < size → ((snprintf q i p size s) i).buffer (p + j) ≡ get_or s j 0
    line a b = snprintf-buffer q i p size s j b a

end_piece-some :
    (i p : ℕ) (r : Que × Option ℕ) → r.1 ≡ some p → end_piece i r ≡ (set_size r.0 i p, true)
end_piece-some i p (q, none) e = absurd cc
end_piece-some i p (q, some n) e = cc

end_piece-none : (i : ℕ) (r : Que × Option ℕ) → r.1 ≡ none → end_piece i r ≡ (r.0, false)
end_piece-none i (q, none) e = refl
end_piece-none i (q, some n) e = absurd cc

-- `SerializeHeader` succeeds exactly if its lines and a NUL fit into the piece of memory from the
-- iterator on. Then the piece ends behind the lines, holds them from the iterator on, and is
-- unchanged before it; otherwise no piece changes its size.
pub serialize_lines_lem :
    (ls : List Bytes) (q : Que) (it : Iterator) (j : ℕ)
    → IsAt q it
    → ((serialize_lines ls q it).1 ≡ ltb (length (text ls)) (size_at q it.idx - it.ofs))
      × (size_at (serialize_lines ls q it).0 j ≡ (
          if (serialize_lines ls q it).1 && j == it.idx
          then it.ofs + length (text ls)
          else size_at q j))
      × ((serialize_lines ls q it).1 ≡ true
          → j < length (text ls)
          → ((serialize_lines ls q it).0 it.idx).buffer (it.ofs + j) ≡ get_or (text ls) j 0)
      × (j < it.ofs → ((serialize_lines ls q it).0 it.idx).buffer j ≡ (q it.idx).buffer j)
unfolding serialize_lines
serialize_lines_lem ls q it j v =
    let room = size_at q it.idx - it.ofs in
    let out = emit ls q it.idx it.ofs room in
    let e = emit-end ls q it.idx it.ofs room (omega (arith, v.ofs_lt)) in
    let p = it.ofs + length (text ls) in
    elim (Bool-cases (ltb (length (text ls)) room)) [
      | inl t ↦ rw (end_piece-some it.idx p out (e ∙ rw t refl)) (
        sym t,
        resized out.0 p (emit-size ls q it.idx it.ofs room j),
        λ _ k. rw (==_refl it.idx) (emit-written ls q it.idx it.ofs room j (ground (arith, t)) k),
        λ k. rw (==_refl it.idx) (emit-before ls q it.idx it.ofs room j k),
      )
      | inr t ↦ rw (end_piece-none it.idx out (e ∙ rw t refl)) (
        sym t,
        emit-size ls q it.idx it.ofs room j,
        λ n. absurd cc,
        emit-before ls q it.idx it.ofs room j,
      )
    ]
  where
    resized :
        (q' : Que) (p : ℕ)
        → size_at q' j ≡ size_at q j
        → size_at (set_size q' it.idx p) j ≡ (if j == it.idx then p else size_at q j)
    resized q' p e = ground (arith, e)
