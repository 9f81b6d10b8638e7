-- ===== src/Buffer/Iovecs.antt =====
-- What `GetReciveBuffer` and `GetSendBuffer` hand to `readv` and `writev`: how much memory, in how
-- many entries.
use mtrpc.Base.{
  ℕ, zero, suc, ◌+◌, ◌-◌, ◌%◌, ◌≤◌, ◌<◌, ◌≡◌, ◌≢◌, ◌↔◌, refl, ap, arith, if◌then◌else◌, ltb, ◌==◌,
  ◌&&◌, Bool-cases, inl, inr, true, false, List, [], ◌∷◌, ◌++◌, length, length-append,
}
use native.Mathlib.Decide.{dec_lt}
use mtrpc.Ring.{Que, size_at, max_buffer_pieces, Iterator, next, walk, IsAt, same}
use mtrpc.Ring.Sum.{total, place_lt, place-lt-total, offset}
use mtrpc.Ring.Distance.{gap, far_sum, far_sum-place}
use mtrpc.Buffer.{Iovec, pieces, fill_iov, last_entry}

-- The bytes that a list of entries covers.
abbrev pub total_len : List Iovec → ℕ
total_len [] = 0
total_len (v ∷ vs) = v.len + total_len vs

total_len-append : (xs ys : List Iovec) → total_len (xs ++ ys) ≡ total_len xs + total_len ys
total_len-append [] ys = omega arith
total_len-append (x ∷ xs) ys = omega (arith, total_len-append xs ys)

-- The entries for whole pieces cover what `operator -` adds up over the same pieces.
total_len-pieces : (f : ℕ) (q : Que) (i e : ℕ) → total_len (pieces f q i e) ≡ walk f q i e
unfolding pieces walk
total_len-pieces zero q i e = refl
total_len-pieces (suc f) q i e = ground (arith, total_len-pieces f q (next i) e)

length-pieces :
    (f : ℕ) (q : Que) (i e : ℕ)
    → i < max_buffer_pieces
    → e < max_buffer_pieces
    → (e + max_buffer_pieces - i) % max_buffer_pieces < f
    → length (pieces f q i e) ≡ (e + max_buffer_pieces - i) % max_buffer_pieces
unfolding pieces
length-pieces zero q i e hi he h = absurd (omega arith)
length-pieces (suc f) q i e hi he h = ground (arith, length-pieces f q (next i) e (omega arith) he)

total_len-last_entry : (e : Iterator) → total_len (last_entry e) ≡ e.ofs
total_len-last_entry e = ground arith

-- The entries of the far branch of `fill_iov`.
abbrev far_entries : Que → Iterator → Iterator → List Iovec
far_entries q from to =
    record { piece = from.idx; base = from.ofs; len = size_at q from.idx - from.ofs }
    ∷ (pieces max_buffer_pieces q (next from.idx) to.idx ++ last_entry to)

apart_test : (a b : Iterator) → a.idx ≢ b.idx → (a.idx == b.idx && ltb b.ofs a.ofs) ≡ false
apart_test a b e = ground arith

near_test :
    (a b : Iterator) → a.idx ≡ b.idx → b.ofs < a.ofs → (a.idx == b.idx && ltb b.ofs a.ofs) ≡ true
near_test a b e h = ground arith

far_test :
    (a b : Iterator)
    → a.idx ≡ b.idx
    → ¬ (b.ofs < a.ofs)
    → (a.idx == b.idx && ltb b.ofs a.ofs) ≡ false
far_test a b e h = ground arith

module _ (q : Que) (from to : Iterator) (vf : IsAt q from) (vt : IsAt q to) where
  far_entries-far_sum : total_len (far_entries q from to) + from.ofs ≡ far_sum q to from
  far_entries-far_sum = omega (
    arith,
    total_len-append (pieces max_buffer_pieces q (next from.idx) to.idx) (last_entry to),
    total_len-pieces max_buffer_pieces q (next from.idx) to.idx,
    total_len-last_entry to,
    vf.ofs_lt,
  )

  -- Round from one position to another, the entries cover the gap; a whole round if the two are
  -- the same.
  pub total_len-fill_iov :
      total_len (fill_iov q from to) ≡ (if same to from then total q else gap q to from)
  unfolding fill_iov
  total_len-fill_iov = elim (dec_lt from.idx to.idx) [
    | yes p ↦ rw (apart_test to from (omega arith)) (
        ground (
          arith,
          far_entries-far_sum,
          far_sum-place q to from vt vf,
          place_lt q from to vf.ofs_lt p,
        ))
    | no p ↦ elim (dec_lt to.idx from.idx) [
      | yes r ↦ rw (apart_test to from (omega arith)) (
          ground (
            arith,
            far_entries-far_sum,
            far_sum-place q to from vt vf,
            place_lt q to from vt.ofs_lt r,
            place-lt-total q from vf,
          ))
      | no r ↦
          let e : to.idx ≡ from.idx = omega arith in
          let o : offset q to.idx ≡ offset q from.idx = ap (offset q) e in
          elim (dec_lt from.ofs to.ofs) [
            | yes l ↦ rw (near_test to from e l) (ground (arith, o))
            | no l ↦ rw (far_test to from e l) (
                ground (
                  arith,
                  e,
                  o,
                  far_entries-far_sum,
                  far_sum-place q to from vt vf,
                  place-lt-total q from vf,
                ))
          ]
    ]
  ]

  length-far_entries :
      length (far_entries q from to)
      ≡ suc (
          (to.idx + max_buffer_pieces - next from.idx) % max_buffer_pieces
          + (if ltb 0 to.ofs then 1 else 0))
  length-far_entries = ground (
    arith,
    vf.idx_lt,
    vt.idx_lt,
    length-pieces max_buffer_pieces q (next from.idx) to.idx (omega arith) vt.idx_lt (omega arith),
    length-append (pieces max_buffer_pieces q (next from.idx) to.idx) (last_entry to),
  )

  -- There are at most 17 entries, and 17 exactly for a round that ends inside its first piece.
  pub length-fill_iov :
      (length (fill_iov q from to) ≤ max_buffer_pieces + 1)
      × ((max_buffer_pieces < length (fill_iov q from to))
          ↔ ((to.idx ≡ from.idx) × (to.ofs ≤ from.ofs) × (0 < to.ofs)))
  unfolding fill_iov
  length-fill_iov = elim (Bool-cases (to.idx == from.idx && ltb from.ofs to.ofs)) [
    | inl near ↦ rw near (ground arith)
    | inr far ↦ rw far (ground (arith, length-far_entries, vf.idx_lt, vt.idx_lt))
  ]
