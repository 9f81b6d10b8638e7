-- ===== src/SocketStream/Transfer.antt =====
-- `OnReadable` and `OnWriteable` count the bytes that go through the buffers.
use mtrpc.Base.{
  ℕ, zero, suc, ◌+◌, ◌-◌, ◌≡◌, ◌<◌, ◌≤◌, refl, ap, sym, ◌∙◌, arith, Bool, true, false, List, [],
  ◌∷◌, Option, none, some, ltb, ltb-true, if◌then◌else◌, Bool-cases, inl, inr,
}
use mathlib.Core.Path.{subst}
use native.Mathlib.Nat.{add_assoc, zero-add}
use mtrpc.Ring.{same}
use mtrpc.Ring.Sum.{offset, total, place-lt-total}
use mtrpc.Buffer.{
  IoBuffer, is_full, get_recive_buffer, move_recive_ptr, get_send_buffer, get_send_buffer_to,
  move_send_ptr, IsValid,
}
use mtrpc.Buffer.Socket.{used, recive_some, send_some, gap_self, same→eq, same_refl}
use mtrpc.SocketStream.{
  Hander, writeable, Io, again, broken, moved, Shared, SocketStream, returned, ◌>>=◌, set_read,
  set_write, Methods, run_if, read_loop, write_loop, sent, rest_write, nothing_to_send,
  on_writeable,
}

-- The bytes that a list of results moves in all, and whether it ends in a failure.
abbrev pub flow : List Io → ℕ
flow [] = 0
flow (again ∷ ios) = 0
flow (broken ∷ ios) = 0
flow (moved zero ∷ ios) = 0
flow (moved (suc k) ∷ ios) = suc k + flow ios

abbrev pub fails : List Io → Bool
fails [] = false
fails (again ∷ ios) = false
fails (broken ∷ ios) = true
fails (moved zero ∷ ios) = true
fails (moved (suc k) ∷ ios) = fails ios

-- The results of one `writev` after the other on `u` bytes: each is called while there are bytes,
-- and takes no more than it is given.
abbrev pub Sends : ℕ → List Io → Type 0
Sends u [] = Unit {0}
Sends u (again ∷ ios) = 0 < u
Sends u (broken ∷ ios) = 0 < u
Sends u (moved k ∷ ios) = (k ≤ u) × (0 < u) × Sends (u - k) ios

-- The results of one `readv` after the other into a buffer of which `u` of `t` bytes are used:
-- at least two bytes stay free.
abbrev pub Receives : ℕ → ℕ → List Io → Type 0
Receives t u (moved k ∷ ios) = (u + k + 1 < t) × Receives t (u + k) ios
Receives t u ios = u + 1 < t

abbrev pub count_or_fail : ℕ → List Io → Option ℕ
count_or_fail n ios = if fails ios then none else some (n + flow ios)

count_or_fail-shift :
    (n k : ℕ) (ios : List Io)
    → count_or_fail (n + k) ios ≡ (if fails ios then none else some (n + (k + flow ios)))
count_or_fail-shift n k ios = rw (add_assoc n k (flow ios))

count_or_fail-zero :
    (ios : List Io) → count_or_fail 0 ios ≡ (if fails ios then none else some (flow ios))
count_or_fail-zero ios = rw (zero-add (flow ios))

-- A buffer that can take two bytes more is not full for `isFull`.
not-full : (b : IoBuffer) → IsValid b → used b + 1 < total b.que → is_full b ≡ false
not-full b v h = elim (Bool-cases (is_full b)) [
  | inl t ↦
      let (i, o) = full→ t in
      absurd (
        ground (
          arith,
          ap (offset b.que) i,
          o,
          place-lt-total b.que b.writepos v.write_at,
          place-lt-total b.que b.readpos v.read_at,
        ))
  | inr t ↦ t
]
  where
    full→ :
        is_full b ≡ true → (b.writepos.idx ≡ b.readpos.idx) × (b.writepos.ofs + 1 ≡ b.readpos.ofs)
    full→ t = ground arith

room : (b : IoBuffer) → IsValid b → used b + 1 < total b.que → (get_recive_buffer b).0 ≡ true
unfolding get_recive_buffer
room b v h = rw (not-full b v h)

some_sent : (b : IoBuffer) → 0 < used b → (get_send_buffer b).0 ≡ true
unfolding get_send_buffer get_send_buffer_to
some_sent b h = elim (Bool-cases (same b.writepos b.readpos)) [
  | inl t ↦ absurd (
      omega (
        arith,
        gap_self b.que b.writepos b.readpos
            (rw (same→eq b.writepos b.readpos t) (same_refl b.readpos)),
      ))
  | inr t ↦ rw t
]

module _ {U : Type 0} (handers : Hander → Option (Shared U → Shared U)) where
  -- The loop of `OnWriteable` takes the bytes that the results count out of the write buffer.
  pub record Wrote (s : SocketStream U) (k : ℕ) (t : SocketStream U) : Type 0 where
    pub valid : IsValid t.shared.writebuf.io
    pub left : used t.shared.writebuf.io + k ≡ used s.shared.writebuf.io

  pub write_loop-Wrote :
      (ios : List Io) (s : SocketStream U) (n : ℕ)
      → IsValid s.shared.writebuf.io
      → Sends (used s.shared.writebuf.io) ios
      → (t : SocketStream U) × (write_loop handers ios s n ≡ (t, count_or_fail n ios))
        × Wrote s (flow ios) t
  unfolding write_loop
  write_loop-Wrote [] s n v h = (s, ground arith, record { valid = v; left = omega arith })
  write_loop-Wrote (again ∷ ios) s n v h =
      (s, ground arith, record { valid = v; left = omega arith })
  write_loop-Wrote (broken ∷ ios) s n v h =
      (s, rw (some_sent s.shared.writebuf.io h), record { valid = v; left = omega arith })
  write_loop-Wrote (moved zero ∷ ios) s n v h =
      (s, rw (some_sent s.shared.writebuf.io h.1), record { valid = v; left = omega arith })
  write_loop-Wrote (moved (suc k) ∷ ios) s n v h =
      let b = move_send_ptr s.shared.writebuf.io (suc k) in
      let m = send_some s.shared.writebuf.io v (suc k) h.0 in
      let e : used s.shared.writebuf.io - suc k ≡ used b = omega (arith, m.1) in
      let ih =
        write_loop-Wrote ios (set_write s b) (n + suc k) m.0 (subst (λ u. Sends u ios) e h.2) in
      (
        ih.0,
        rw (some_sent s.shared.writebuf.io h.1, ltb-true 0 (suc k) (omega arith))
            (ih.1 ∙ ap (λ (c : Option ℕ). (ih.0, c)) (count_or_fail-shift n (suc k) ios)),
        record { valid = ih.2.valid; left = omega (arith, m.1, ih.2.left) },
      )

  -- The loop of `OnReadable` puts the bytes that the results count into the read buffer.
  pub record Read (s : SocketStream U) (k : ℕ) (t : SocketStream U) : Type 0 where
    pub valid : IsValid t.shared.readbuf.io
    pub grown : used t.shared.readbuf.io ≡ used s.shared.readbuf.io + k

  pub read_loop-Read :
      (ios : List Io) (s : SocketStream U) (n : ℕ)
      → IsValid s.shared.readbuf.io
      → Receives (total s.shared.readbuf.io.que) (used s.shared.readbuf.io) ios
      → (t : SocketStream U) × (read_loop handers ios s n ≡ returned (t, count_or_fail n ios))
        × Read s (flow ios) t
  unfolding read_loop
  read_loop-Read [] s n v h = (
    s,
    rw (room s.shared.readbuf.io v h) (ground arith),
    record { valid = v; grown = omega arith },
  )
  read_loop-Read (again ∷ ios) s n v h = (
    s,
    rw (room s.shared.readbuf.io v h) (ground arith),
    record { valid = v; grown = omega arith },
  )
  read_loop-Read (broken ∷ ios) s n v h =
      (s, rw (room s.shared.readbuf.io v h), record { valid = v; grown = omega arith })
  read_loop-Read (moved zero ∷ ios) s n v h = (
    s,
    rw (room s.shared.readbuf.io v (omega (arith, h.0))),
    record { valid = v; grown = omega arith },
  )
  read_loop-Read (moved (suc k) ∷ ios) s n v h =
      let b = move_recive_ptr s.shared.readbuf.io (suc k) in
      let m = recive_some s.shared.readbuf.io v (suc k) (omega (arith, h.0)) in
      let fit = subst (λ u. Receives (total s.shared.readbuf.io.que) u ios) (sym m.1) h.1 in
      let ih = read_loop-Read ios (set_read s b) (n + suc k) m.0 fit in
      (
        ih.0,
        rw (room s.shared.readbuf.io v (omega (arith, h.0)), ltb-true 0 (suc k) (omega arith))
            (ih.1 ∙ ap (λ (c : Option ℕ). returned (ih.0, c)) (count_or_fail-shift n (suc k) ios)),
        record { valid = ih.2.valid; grown = omega (arith, m.1, ih.2.grown) },
      )

  module _ (m : Methods U) (ios : List Io) (s : SocketStream U) where
    -- `OnWriteable` of a stream that has bytes to send, after `handerWriteable`: what `writev` takes
    -- goes out of the write buffer, and `OnSended` is told exactly that number, if it is not 0 and
    -- no `writev` has failed; then -1 is returned. Results of `writev` are at most what it was
    -- given.
    pub writes_counted :
        let t = run_if handers writeable (rest_write handers m s) in
        IsValid t.shared.writebuf.io
        → Sends (used t.shared.writebuf.io) ios
        → nothing_to_send t ≡ false
        → (u : SocketStream U) × Wrote t (flow ios) u
          × (on_writeable handers m ios s ≡ (
              if fails ios
              then returned (u, false)
              else ((if ltb 0 (flow ios) then m.on_sended u (flow ios) else returned u) >>= λ w.
                  returned (rest_write handers m w, true))))
    unfolding on_writeable
    writes_counted v h e =
        let t = run_if handers writeable (rest_write handers m s) in
        let l = write_loop-Wrote ios t 0 v h in
        (
          l.0,
          l.2,
          rw e (
              ap (sent handers m) (l.1 ∙ ap (λ (c : Option ℕ). (l.0, c)) (count_or_fail-zero ios))
              ∙ split (l.0) (fails ios)),
        )
      where
        split :
            (u : SocketStream U) (b : Bool)
            → sent handers m (u, if b then none else some (flow ios)) ≡ (
                if b
                then returned (u, false)
                else ((if ltb 0 (flow ios) then m.on_sended u (flow ios) else returned u) >>= λ w.
                    returned (rest_write handers m w, true)))
        split u true = refl
        split u false = refl
