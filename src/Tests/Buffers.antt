-- ===== src/Tests/Buffers.antt =====
-- Runs of the ring and of the buffer over it.
use mtrpc.Base.{ℕ, ◌+◌, ◌%◌, ◌≡◌, refl, arith, pos, if◌then◌else◌, ◌==◌, some}
use mtrpc.Ring.{Que, Iterator, IsAt, IsFilled, walk, difference, advance}
use mtrpc.Ring.Sum.{total, place}
use mtrpc.Ring.Distance.{gap, difference_lem}
use mtrpc.Ring.Advance.{advance_lem}
use mtrpc.Buffer.{IoBuffer, Iovec, Stream, IsValid, read_next, write_next}

-- Pieces of ten bytes each, but for piece 3, which has four.
abbrev ring : Que
ring i = record { buffer = λ j. j + 7; size = if i == 3 then 4 else 10 }

abbrev evens : Que
evens i = record { buffer = λ j. j; size = 10 }

abbrev at : ℕ → ℕ → Iterator
at i p = record { idx = i; ofs = p }

ring-IsFilled : IsFilled ring
ring-IsFilled i h = ground arith

abbrev pending : IoBuffer
pending = record { que = ring; readpos = at 2 4; writepos = at 4 3 }

pending-IsValid : IsValid pending
pending-IsValid = record {
  filled = ring-IsFilled;
  read_at = record { idx_lt = omega arith; ofs_lt = omega arith };
  write_at = record { idx_lt = omega arith; ofs_lt = omega arith };
}

abbrev idle : IoBuffer
idle = record { que = ring; readpos = at 2 4; writepos = at 2 4 }

idle-IsValid : IsValid idle
idle-IsValid = record {
  filled = ring-IsFilled;
  read_at = record { idx_lt = omega arith; ofs_lt = omega arith };
  write_at = record { idx_lt = omega arith; ofs_lt = omega arith };
}

difference_example : difference ring (at 4 3) (at 2 4) ≡ pos (gap ring (at 4 3) (at 2 4))
difference_example =
    difference_lem ring (at 4 3) (at 2 4) pending-IsValid.write_at pending-IsValid.read_at

difference_round : difference ring (at 2 4) (at 4 3) ≡ pos 141
unfolding difference walk
difference_round = refl

advance_example :
    IsAt ring (advance ring (at 2 4) 13)
    × (place ring (advance ring (at 2 4) 13) ≡ (place ring (at 2 4) + 13) % total ring)
advance_example = advance_lem ring ring-IsFilled (at 2 4) 13 pending-IsValid.read_at

abbrev reader : Stream
reader = record { io = pending; begin_pos = at 2 4 }

abbrev chunk : Iovec
chunk = record { piece = 2; base = 4; len = 6 }

abbrev reader_after : Stream
reader_after = record {
  io = record { que = ring; readpos = at 3 0; writepos = at 4 3 };
  begin_pos = at 2 4;
}

reader_next : read_next reader ≡ (reader_after, some chunk)
unfolding read_next
reader_next = refl

abbrev writer : Stream
writer = record {
  io = record { que = ring; readpos = at 0 0; writepos = at 2 4 };
  begin_pos = at 0 0;
}

abbrev writer_after : Stream
writer_after = record {
  io = record { que = ring; readpos = at 0 0; writepos = at 3 0 };
  begin_pos = at 0 0;
}

writer-IsValid : IsValid writer.io
writer-IsValid = record {
  filled = ring-IsFilled;
  read_at = record { idx_lt = omega arith; ofs_lt = omega arith };
  write_at = record { idx_lt = omega arith; ofs_lt = omega arith };
}

writer_next : write_next writer ≡ (writer_after, some chunk)
unfolding write_next
writer_next = refl
