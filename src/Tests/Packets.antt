-- ===== src/Tests/Packets.antt =====
-- Packets in a write buffer.
use mtrpc.Base.{
  ℕ, ◌≡◌, ◌<◌, refl, ap, arith, length, ◌++◌, List, true, ◌==◌, if◌then◌else◌, if_intro, Bool,
}
use mtrpc.Ring.{BufferPieces, Iterator, default_buffer_size, size_at, set_piece, increment}
use mtrpc.Buffer.{IoBuffer, Stream, reset, reset_sizes, reserve}
use mtrpc.Buffer.Uniform.{reset-uniform}
use mtrpc.Text.{Bytes, codes, decimal, digits, assign, bytes_eq, bytes_lt}
use mtrpc.Http.{http_header, set_content_length}
use mtrpc.Http.Serialize.{request_lines, c_str}
use mtrpc.Http.Written.{text}
use mtrpc.Http.Runs.{Stands, here, byte}
use mtrpc.Packet.{packed, write_packet}
use mtrpc.Packet.Whole.{write_packet-whole}

abbrev at : ℕ → ℕ → Iterator
at i j = record { idx = i; ofs = j }

-- An empty buffer.
abbrev empty : Stream
empty = record {
  io = record {
    que = λ i. record { buffer = λ j. 0; size = default_buffer_size };
    readpos = at 0 0;
    writepos = at 0 0;
  };
  begin_pos = at 0 0;
}

-- A message of two bytes, in the piece behind the one of the header.
abbrev put_hi : Stream → Stream × Bool
put_hi s = (
  record s {
    io = record (s.io) {
      que =
          set_piece s.io.que 1
            (record { buffer = λ j. if j == 0 then b'h' else b'i'; size = default_buffer_size });
      writepos = at 1 2;
    };
  },
  true,
)

abbrev lines : ℕ → List Bytes
lines n =
    request_lines (record {
      header = set_content_length http_header n;
      method = codes "POST";
      path = codes "/a";
    })

abbrev room : IoBuffer
room = reset empty.io

room-size : (i : ℕ) → size_at room.que i ≡ default_buffer_size
room-size i = ap (λ (b : IoBuffer). size_at b.que i) (reset-uniform empty.io (λ i. refl))

write_packet-whole_example :
    (w : Stream) × (write_packet put_hi lines empty
      ≡ packed w 2 (length (text (lines 2) ++ codes "hi")))
    × Stands w.io.que w.io.writepos (at 0 0) (text (lines 2) ++ codes "hi") w.io.writepos
unfolding reset reserve reset_sizes increment c_str set_content_length decimal digits assign
    bytes_eq bytes_lt
write_packet-whole_example =
    write_packet-whole put_hi lines empty room (codes "hi") refl
      (record {
        succeeds = refl;
        filled = λ i h.
            if_intro (λ (p : BufferPieces). 0 < p.size) (i == 1) (omega arith)
              (omega (arith, room-size i));
        start_at = record { idx_lt = omega arith; ofs_lt = omega arith };
        end_at = record { idx_lt = omega arith; ofs_lt = omega arith };
        apart = refl;
        stands = λ p. byte refl refl (byte refl refl here);
      })
      (omega arith) (omega arith) (omega arith)
