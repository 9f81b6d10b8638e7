-- ===== src/Ring.antt =====
-- mio/mio_buffer.h, `BufferPieces` and `IOBuffer::Iterator`: the ring of buffer pieces and the
-- positions in it. `que` is the array of pieces that a buffer and its iterators share, here a
-- function of the index; an iterator is a piece index and an offset into that piece.
pub mod Sum
pub mod Distance
pub mod Advance
pub mod BackUp
use mtrpc.Base.{
  ℕ, zero, suc, ◌+◌, ◌-◌, ◌*◌, ◌%◌, ◌≤◌, ◌<◌, Bool, true, false, not, ◌&&◌, ◌||◌, ltb, leb, ◌==◌,
  if◌then◌else◌, ℤ, pos, sub_ℕ,
}

abbrev pub default_buffer_size : ℕ
default_buffer_size = 1024 * 512

abbrev pub max_buffer_pieces : ℕ
max_buffer_pieces = 16

pub record BufferPieces : Type 0 where
  pub buffer : ℕ → ℕ
  pub size : ℕ

abbrev pub Que : Type 0
Que = ℕ → BufferPieces

abbrev pub size_at : Que → ℕ → ℕ
size_at q i = (q i).size

-- An assignment to one piece of the array.
abbrev pub set_piece : Que → ℕ → BufferPieces → Que
set_piece q i p j = if j == i then p else q j

abbrev pub set_size : Que → ℕ → ℕ → Que
set_size q i n = set_piece q i (record (q i) { size = n })

pub record Iterator : Type 0 where
  pub idx : ℕ
  pub ofs : ℕ

-- `MOD_PIECES(i + 1)`, and `(i - 1 + MAX_BUFFER_PIECES) % MAX_BUFFER_PIECES` in unsigned arithmetic.
abbrev pub next : ℕ → ℕ
next i = (i + 1) % max_buffer_pieces

abbrev pub prev : ℕ → ℕ
prev i = (i + max_buffer_pieces - 1) % max_buffer_pieces

-- `operator ==`
abbrev pub same : Iterator → Iterator → Bool
same a b = a.idx == b.idx && a.ofs == b.ofs

-- `operator <`
abbrev pub before : Iterator → Iterator → Bool
before a b = if ltb a.idx b.idx then true else if ltb b.idx a.idx then false else ltb a.ofs b.ofs

-- `isBetween(A, B)`
unfoldable pub is_between : Iterator → Iterator → Iterator → Bool
is_between it a b =
    if same it a
    then true
    else if same it b
    then false
    else if before a b || same a b
    then before a it && before it b
    else before b it || before a it

-- The loop of `operator -`: the sizes of the pieces from `i` up to, not including, piece `e`.
unfoldable pub walk : ℕ → Que → ℕ → ℕ → ℕ
walk zero q i e = 0
walk (suc fuel) q i e =
    let rest = size_at q i + walk fuel q (next i) e in if i == e then 0 else rest

-- `a - b`, the `int` that `operator -` returns.
unfoldable pub difference : Que → Iterator → Iterator → ℤ
difference q a b =
    if a.idx == b.idx && leb b.ofs a.ofs
    then pos (a.ofs - b.ofs)
    else sub_ℕ (size_at q b.idx + walk max_buffer_pieces q (next b.idx) a.idx + a.ofs) b.ofs

-- The loop of `operator +=`.
unfoldable pub carry : ℕ → Que → ℕ → ℕ → Iterator
carry zero q i p = record { idx = i; ofs = p }
carry (suc fuel) q i p =
    let rest = carry fuel q (next i) (p - size_at q i) in
    if leb (size_at q i) p then rest else record { idx = i; ofs = p }

-- `it += n`
unfoldable pub advance : Que → Iterator → ℕ → Iterator
unfolding carry
advance q it n = carry (suc (it.ofs + n)) q it.idx (it.ofs + n)

-- `++it`, in both spellings.
unfoldable pub increment : Que → Iterator → Iterator
increment q it =
    if ltb (it.ofs + 1) (size_at q it.idx)
    then record it { ofs = it.ofs + 1 }
    else record { idx = next it.idx; ofs = 0 }

-- The loop of `operator -=`, at an offset of -d with 0 < d. It adds the size of the piece that
-- it leaves, not of the piece that it enters.
unfoldable pub borrow : ℕ → Que → ℕ → ℕ → Iterator
borrow zero q i d = record { idx = i; ofs = 0 }
borrow (suc fuel) q i d =
    let rest = borrow fuel q (prev i) (d - size_at q i) in
    if ltb (size_at q i) d then rest else record { idx = prev i; ofs = size_at q i - d }

-- `it -= n`
unfoldable pub retreat : Que → Iterator → ℕ → Iterator
unfolding borrow
retreat q it n =
    if leb n it.ofs then record it { ofs = it.ofs - n } else borrow n q it.idx (n - it.ofs)

-- `*it`
abbrev pub deref : Que → Iterator → ℕ
deref q it = (q it.idx).buffer it.ofs

-- An iterator that stands at a byte of the ring.
pub record IsAt (q : Que) (it : Iterator) : Type 0 where
  pub idx_lt : it.idx < max_buffer_pieces
  pub ofs_lt : it.ofs < size_at q it.idx

-- No piece is empty.
abbrev pub IsFilled : Que → Type 0
IsFilled q = (i : ℕ) → i < max_buffer_pieces → 0 < size_at q i
