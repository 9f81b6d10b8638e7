-- ===== src/Packet.antt =====
-- The making of a packet, as `RpcChannelImpl::SendToServer` (rpc/rpc_channel_impl.cpp) and
-- `ServerConnect::SendMessage` (rpc/rpc_server_connect.cpp) do it: room for a header, the body in
-- the piece behind it, then the header in front of the body.
pub mod Fails
pub mod Header
pub mod Whole
use mtrpc.Base.{ℕ, Bool, true, false, List}
use mtrpc.Ring.{Iterator, difference}
use mtrpc.Buffer.{IoBuffer, Stream, reset, reserve, align_write_pos, begin_packet, to_uint32}
use mtrpc.Text.{Bytes}
use mtrpc.Http.{max_header_size}
use mtrpc.Http.Serialize.{serialize_lines}

-- How it ends: no room for the header; the message did not serialize, and the write position is
-- rolled back; or the packet is written, with the sizes of its body and of all of it.
pub data Packet : Type 0 where
  full : Stream → Packet
  unserialized : Stream → Packet
  packed : Stream → ℕ → ℕ → Packet

module _ (serialize : Stream → Stream × Bool) (lines : ℕ → List Bytes) where
  -- The header, at the start of the packet. The result of `SerializeHeader` is not looked at.
  unfoldable pub write_header : Stream → Iterator → ℕ → Packet
  unfolding serialize_lines difference
  write_header s start n =
      let que = (serialize_lines (lines n) s.io.que start).0 in
      packed (record s { io = record (s.io) { que = que } }) n
        (to_uint32 (difference que s.io.writepos start))

  -- What follows `SerializeToZeroCopyStream`, with the start of the packet and of its body.
  unfoldable pub after_body : Stream × Bool → Iterator → Iterator → Packet
  unfolding write_header difference
  after_body (s, true) start body =
      write_header s start (to_uint32 (difference s.io.que s.io.writepos body))
  after_body (s, false) start body =
      unserialized (record s { io = record (s.io) { writepos = start } })

  unfoldable pub after_reserve : Stream → IoBuffer × Bool → Packet
  unfolding after_body
  after_reserve s (b, false) = full (record s { io = b })
  after_reserve s (b, true) =
      let aligned = align_write_pos b in
      after_body (serialize (begin_packet (record s { io = aligned }))) b.writepos aligned.writepos

  unfoldable pub write_packet : Stream → Packet
  unfolding after_reserve reserve reset
  write_packet s =
      let b = reset s.io in after_reserve (record s { io = b }) (reserve b max_header_size)
