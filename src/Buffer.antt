-- ===== src/Buffer.antt =====
-- mio/mio_buffer.h and mio/mio_buffer.cpp: `IOBuffer`, and the two zero-copy streams over it. A
-- function that changes a buffer returns the new one; a `struct iovec` is the piece, the first
-- offset and the length of the memory that it points to.
pub mod Iovecs
pub mod Socket
pub mod Reset
pub mod Uniform
pub mod Streams
use mtrpc.Base.{
  ℕ, zero, suc, ◌+◌, ◌-◌, ◌*◌, ◌%◌, ◌^◌, ◌<◌, Bool, true, false, not, ◌&&◌, List, [], ◌∷◌, ◌++◌,
  Option, none, some, ltb, leb, ◌==◌, if◌then◌else◌, ℤ, pos, negsuc,
}
use mtrpc.Ring.{
  default_buffer_size, max_buffer_pieces, BufferPieces, Que, size_at, set_size, Iterator, next,
  same, difference, advance, retreat, IsAt, IsFilled,
}

pub record IoBuffer : Type 0 where
  pub que : Que
  pub readpos : Iterator
  pub writepos : Iterator

pub record Iovec : Type 0 where
  pub piece : ℕ
  pub base : ℕ
  pub len : ℕ

-- `IOBuffer()`; the argument is what the allocator left in the memory.
pub io_buffer : (ℕ → ℕ → ℕ) → IoBuffer
io_buffer memory = record {
  que = λ i. record { buffer = memory i; size = default_buffer_size };
  readpos = record { idx = 0; ofs = 0 };
  writepos = record { idx = 0; ofs = 0 };
}

abbrev pub is_full : IoBuffer → Bool
is_full b = b.writepos.idx == b.readpos.idx && b.writepos.ofs + 1 == b.readpos.ofs

abbrev pub is_empty : IoBuffer → Bool
is_empty b = same b.readpos b.writepos

-- `AlignWritePos`; it returns the new write position.
abbrev pub align_write_pos : IoBuffer → IoBuffer
align_write_pos b = record b { writepos = record { idx = next b.writepos.idx; ofs = 0 } }

-- `Reserve`. The room is compared as a `uint32_t`.
unfoldable pub reserve : IoBuffer → ℕ → IoBuffer × Bool
reserve b n =
    let w = b.writepos in
    if w.idx == b.readpos.idx && ltb w.ofs b.readpos.ofs
    then (b, false)
    else if ltb ((size_at b.que w.idx + 2 ^ 32 - w.ofs) % 2 ^ 32) n
    then (align_write_pos (record b { que = set_size b.que w.idx w.ofs }), true)
    else (b, true)

-- The loops that fill in whole pieces from `i` up to, not including, piece `e`.
unfoldable pub pieces : ℕ → Que → ℕ → ℕ → List Iovec
pieces zero q i e = []
pieces (suc fuel) q i e =
    let rest = record { piece = i; base = 0; len = size_at q i } ∷ pieces fuel q (next i) e in
    if i == e then [] else rest

-- The entry for the start of the last piece, if any of it belongs to the range.
abbrev pub last_entry : Iterator → List Iovec
last_entry e = if ltb 0 e.ofs then record { piece = e.idx; base = 0; len = e.ofs } ∷ [] else []

-- The memory from `from` round to `to`, as `GetReciveBuffer` and `GetSendBuffer` fill it in.
unfoldable pub fill_iov : Que → Iterator → Iterator → List Iovec
fill_iov q from to =
    if to.idx == from.idx && ltb from.ofs to.ofs
    then record { piece = from.idx; base = from.ofs; len = to.ofs - from.ofs } ∷ []
    else record { piece = from.idx; base = from.ofs; len = size_at q from.idx - from.ofs }
      ∷ (pieces max_buffer_pieces q (next from.idx) to.idx ++ last_entry to)

-- `GetReciveBuffer`: the memory free for the next `readv`.
unfoldable pub get_recive_buffer : IoBuffer → Bool × List Iovec
get_recive_buffer b = if is_full b then (false, []) else (true, fill_iov b.que b.writepos b.readpos)

unfoldable pub move_recive_ptr : IoBuffer → ℕ → IoBuffer
move_recive_ptr b n = record b { writepos = advance b.que b.writepos n }

-- `GetSendBuffer` up to a given end, and up to the write position.
unfoldable pub get_send_buffer_to : IoBuffer → Iterator → Bool × List Iovec
get_send_buffer_to b e =
    if same e b.readpos then (false, []) else (true, fill_iov b.que b.readpos e)

unfoldable pub get_send_buffer : IoBuffer → Bool × List Iovec
unfolding get_send_buffer_to
get_send_buffer b = get_send_buffer_to b b.writepos

unfoldable pub move_send_ptr : IoBuffer → ℕ → IoBuffer
move_send_ptr b n = record b { readpos = advance b.que b.readpos n }

unfoldable pub get_buffer_left : IoBuffer → ℤ
get_buffer_left b =
    if same b.readpos b.writepos
    then pos (max_buffer_pieces * default_buffer_size)
    else difference b.que b.readpos b.writepos

-- The conversion of an `int` to `uint32_t`.
abbrev pub to_uint32 : ℤ → ℕ
to_uint32 (pos n) = n % 2 ^ 32
to_uint32 (negsuc n) = 2 ^ 32 - 1 - n % 2 ^ 32

unfoldable pub get_buffer_used : IoBuffer → ℕ
get_buffer_used b = to_uint32 (difference b.que b.writepos b.readpos)

-- The loop of `Reset`.
unfoldable pub reset_sizes : ℕ → Que → ℕ → ℕ → Que
reset_sizes zero q i e = q
reset_sizes (suc fuel) q i e =
    let rest = reset_sizes fuel (set_size q i default_buffer_size) (next i) e in
    if i == e then q else rest

-- `Reset`: pieces with nothing to read get their whole size back, and so does the read piece.
unfoldable pub reset : IoBuffer → IoBuffer
reset b =
    let r = b.readpos in
    let w = b.writepos in
    if is_full b
    then b
    else if r.idx == w.idx && ltb w.ofs r.ofs
    then b
    else let q = reset_sizes max_buffer_pieces b.que (next w.idx) r.idx in
      record b { que = set_size q r.idx default_buffer_size }

-- `ReadBuffer` and `WriteBuffer`: a buffer with the mark that `BeginPacket` sets.
pub record Stream : Type 0 where
  pub io : IoBuffer
  pub begin_pos : Iterator

-- `ReadBuffer::BeginPacket` and `WriteBuffer::BeginPacket`: both take the read position.
abbrev pub begin_packet : Stream → Stream
begin_packet s = record s { begin_pos = s.io.readpos }

-- `ReadBuffer::Next`: the next chunk to read; `none` is `false`.
unfoldable pub read_next : Stream → Stream × Option Iovec
read_next s =
    let r = s.io.readpos in
    let w = s.io.writepos in
    if is_empty s.io
    then (s, none)
    else if r.idx == w.idx && ltb r.ofs w.ofs
    then (
      record s { io = record (s.io) { readpos = record r { ofs = w.ofs } } },
      some (record { piece = r.idx; base = r.ofs; len = w.ofs - r.ofs }),
    )
    else (
      record s { io = record (s.io) { readpos = record { idx = next r.idx; ofs = 0 } } },
      some (record { piece = r.idx; base = r.ofs; len = size_at s.io.que r.idx - r.ofs }),
    )

unfoldable pub read_back_up : Stream → ℕ → Stream
read_back_up s n = record s { io = record (s.io) { readpos = retreat s.io.que s.io.readpos n } }

-- `Skip` carries as `operator +=` does.
unfoldable pub skip : Stream → ℕ → Stream
skip s n = record s { io = record (s.io) { readpos = advance s.io.que s.io.readpos n } }

unfoldable pub read_byte_count : Stream → ℤ
read_byte_count s = difference s.io.que s.io.readpos s.begin_pos

-- `WriteBuffer::Next`: the next chunk to write; `none` is `false`.
unfoldable pub write_next : Stream → Stream × Option Iovec
write_next s =
    let r = s.io.readpos in
    let w = s.io.writepos in
    if is_full s.io
    then (s, none)
    else if r.idx == w.idx && ltb (w.ofs + 1) r.ofs
    then (
      record s { io = record (s.io) { writepos = record w { ofs = r.ofs - 1 } } },
      some (record { piece = w.idx; base = w.ofs; len = r.ofs - 1 - w.ofs }),
    )
    else (
      record s { io = align_write_pos (s.io) },
      some (record { piece = w.idx; base = w.ofs; len = size_at s.io.que w.idx - w.ofs }),
    )

unfoldable pub write_back_up : Stream → ℕ → Stream
write_back_up s n = record s { io = record (s.io) { writepos = retreat s.io.que s.io.writepos n } }

unfoldable pub write_byte_count : Stream → ℤ
write_byte_count s = difference s.io.que s.io.writepos s.begin_pos

-- Both positions stand at bytes of the ring, and no piece is empty.
pub record IsValid (b : IoBuffer) : Type 0 where
  pub filled : IsFilled b.que
  pub read_at : IsAt b.que b.readpos
  pub write_at : IsAt b.que b.writepos
