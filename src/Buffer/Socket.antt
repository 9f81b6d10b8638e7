-- ===== src/Buffer/Socket.antt =====
-- `GetReciveBuffer`, `MoveRecivePtr`, `GetSendBuffer` and `MoveSendPtr` around one `readv` or
-- `writev`, and the two measures `GetBufferUsed` and `GetBufferLeft`.
use mtrpc.Base.{
  ℕ, ◌+◌, ◌-◌, ◌*◌, ◌^◌, ◌≤◌, ◌<◌, ◌≡◌, ◌≢◌, ◌↔◌, refl, ap, ◌∙◌, sym, arith, if◌then◌else◌, Bool,
  Bool-cases, inl, inr, true, false, length, pos,
}
use native.Mathlib.Nat.{mod-eq_of_lt}
use mtrpc.Ring.{Que, max_buffer_pieces, default_buffer_size, Iterator, IsAt, same}
use mtrpc.Ring.Sum.{total, place, place-lt-total}
use mtrpc.Ring.Distance.{around, gap, difference_lem}
use mtrpc.Ring.Advance.{advance-IsAt, gap-advance, gap-advance_rear, advance-round, place-injective}
use mtrpc.Buffer.{
  IoBuffer, is_full, is_empty, get_recive_buffer, move_recive_ptr, get_send_buffer_to,
  get_send_buffer, move_send_ptr, get_buffer_used, get_buffer_left, IsValid,
}
use mtrpc.Buffer.Iovecs.{total_len, total_len-fill_iov, length-fill_iov}

-- The bytes written and not yet read.
abbrev pub used : IoBuffer → ℕ
used b = gap b.que b.writepos b.readpos

pub same→eq : (a b : Iterator) → same a b ≡ true → a ≡ b
same→eq a b h = ground arith

pub same_refl : (a : Iterator) → same a a ≡ true
same_refl a = ground arith

-- Different positions have places that differ.
place-ne :
    (q : Que) (a b : Iterator) → IsAt q a → IsAt q b → same a b ≡ false → place q a ≢ place q b
place-ne q a b va vb h e =
    let s : same a b ≡ true = rw (place-injective q a b va vb e) (same_refl b) in cc

gap-gap :
    (q : Que) (a b : Iterator)
    → IsAt q a
    → IsAt q b
    → same a b ≡ false
    → gap q a b + gap q b a ≡ total q
gap-gap q a b va vb h =
    around-around (total q) _ _ (place-lt-total q a va) (place-lt-total q b vb)
      (place-ne q a b va vb h)
  where
    around-around : (t x y : ℕ) → x < t → y < t → x ≢ y → around t x y + around t y x ≡ t
    around-around t x y hx hy h = ground arith

pub gap_self : (q : Que) (a b : Iterator) → same b a ≡ true → gap q a b ≡ 0
gap_self q a b h = rw (same→eq b a h) (ground arith)

module _ (b : IoBuffer) (v : IsValid b) where
  -- Where a well-formed buffer is not full, `GetReciveBuffer` offers to the socket all the memory
  -- of the ring that holds no unread byte: with the unread bytes, the entries make up the whole
  -- ring.
  pub recive_capacity : is_full b ≡ false → total_len (get_recive_buffer b).1 + used b ≡ total b.que
  unfolding get_recive_buffer
  recive_capacity h = rw h (
      rw (total_len-fill_iov b.que b.writepos b.readpos v.write_at v.read_at)
        (sum (same b.readpos b.writepos) refl))
    where
      sum :
          (t : Bool)
          → same b.readpos b.writepos ≡ t
          → (if t then total b.que else gap b.que b.readpos b.writepos) + used b ≡ total b.que
      sum true e = omega (arith, gap_self b.que b.writepos b.readpos e)
      sum false e = gap-gap b.que b.readpos b.writepos v.read_at v.write_at e

  -- In a well-formed buffer, the entries for `readv` are more than the 16 that the caller has
  -- room for exactly when the write position stands in the read piece, not left of the read
  -- position, which is not at the piece's start.
  pub recive_overflow :
      (max_buffer_pieces < length (get_recive_buffer b).1)
      ↔ ((b.readpos.idx ≡ b.writepos.idx) × (b.readpos.ofs ≤ b.writepos.ofs) × (0 < b.readpos.ofs))
  unfolding get_recive_buffer
  recive_overflow = elim (Bool-cases (is_full b)) [
    | inl full ↦ rw full (ground arith)
    | inr h ↦ rw h ((length-fill_iov b.que b.writepos b.readpos v.write_at v.read_at).1)
  ]

  -- `GetSendBuffer` of a well-formed buffer hands to the socket as many bytes as are unread.
  pub send_total : total_len (get_send_buffer b).1 ≡ used b
  unfolding get_send_buffer get_send_buffer_to
  send_total = elim (Bool-cases (same b.writepos b.readpos)) [
    | inl e ↦ rw e (
        sym (
          gap_self b.que b.writepos b.readpos
            (rw (same→eq b.writepos b.readpos e) (same_refl b.readpos))))
    | inr e ↦ rw e (rw (total_len-fill_iov b.que b.readpos b.writepos v.read_at v.write_at) (rw e))
  ]

  -- `GetBufferUsed` is the number of unread bytes, in a well-formed buffer whose ring has less than
  -- 4 GB.
  pub get_buffer_used_lem : total b.que < 2 ^ 32 → get_buffer_used b ≡ used b
  unfolding get_buffer_used
  get_buffer_used_lem h =
      rw (difference_lem b.que b.writepos b.readpos v.write_at v.read_at)
        (mod-eq_of_lt {n = used b} {m = 2 ^ 32} (omega (arith, used-lt-total)))
    where
      used-lt-total : used b < total b.que
      used-lt-total = ground (
        arith,
        place-lt-total b.que b.writepos v.write_at,
        place-lt-total b.que b.readpos v.read_at,
      )

  -- Receiving less than the capacity of a well-formed buffer keeps it well formed and adds to the
  -- unread bytes.
  pub recive_some :
      (n : ℕ)
      → used b + n < total b.que
      → IsValid (move_recive_ptr b n) × (used (move_recive_ptr b n) ≡ used b + n)
  unfolding move_recive_ptr
  recive_some n h = (
    record {
      filled = v.filled;
      read_at = v.read_at;
      write_at = advance-IsAt b.que v.filled b.writepos n v.write_at;
    },
    gap-advance b.que b.writepos b.readpos n v.filled v.write_at v.read_at h,
  )

  -- Where a well-formed buffer is not full, receiving as much as `GetReciveBuffer` offers makes it
  -- look empty.
  pub recive_all :
      is_full b ≡ false → is_empty (move_recive_ptr b (total_len (get_recive_buffer b).1)) ≡ true
  unfolding move_recive_ptr
  recive_all h =
      let back =
        advance-round b.que b.writepos b.readpos (total_len (get_recive_buffer b).1) v.filled
          v.write_at v.read_at (omega (arith, recive_capacity h)) in
      rw back (same_refl b.readpos)

  -- Sending at most the unread bytes of a well-formed buffer keeps it well formed and takes them
  -- from the front.
  pub send_some :
      (n : ℕ) → n ≤ used b → IsValid (move_send_ptr b n) × (used (move_send_ptr b n) + n ≡ used b)
  unfolding move_send_ptr
  send_some n h = (
    record {
      filled = v.filled;
      write_at = v.write_at;
      read_at = advance-IsAt b.que v.filled b.readpos n v.read_at;
    },
    gap-advance_rear b.que b.readpos b.writepos n v.filled v.read_at v.write_at h,
  )

  -- In a well-formed buffer, `GetBufferLeft` is what the unread bytes leave of the ring; of an
  -- empty buffer it is the size of 16 whole pieces, whatever the sizes of the pieces are.
  pub get_buffer_left_lem :
      get_buffer_left b
      ≡ pos (if is_empty b then max_buffer_pieces * default_buffer_size else total b.que - used b)
  unfolding get_buffer_left
  get_buffer_left_lem = elim (Bool-cases (is_empty b)) [
    | inl e ↦ rw e
    | inr e ↦ rw e (
        difference_lem b.que b.readpos b.writepos v.read_at v.write_at
        ∙ ap pos (omega (arith, gap-gap b.que b.readpos b.writepos v.read_at v.write_at e)))
  ]
