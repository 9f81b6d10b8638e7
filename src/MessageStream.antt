-- ===== src/MessageStream.antt =====
-- mio/mio_message_stream.h and .cpp: a server's stream, which takes requests out of its read buffer.
-- `buffer_size` and the content length are `int`s.
pub mod Progress
pub mod Framing
pub mod Wire
pub mod Tame
use mtrpc.Base.{
  ℕ, zero, suc, ◌+◌, ◌*◌, Bool, true, false, Option, none, some, if◌then◌else◌, ℤ, pos, ◌-ℤ◌, lt_ℤ,
}
use mtrpc.Ring.{default_buffer_size, max_buffer_pieces, difference}
use mtrpc.Ring.Sum.{total}
use mtrpc.Buffer.{Stream, reset}
use mtrpc.Error.{ErrorCode, http_parser_fail, http_paser_half, http_request_overflow}
use mtrpc.Http.{get_content_length}
use mtrpc.Http.Request.{RequestHeader, reset_request, parser_header}
use mtrpc.SocketStream.{
  Hander, message_error, message_recived, message_sended, ran, Shared, SocketStream, did, set_read,
  Methods, run, on_connect, on_close, Result, stepped_out,
}
use mtrpc.SocketStream.Rounds.{Round, done, next, crash, or_crash, rounds, used_up, go_on}

abbrev pub max_length : ℕ
max_length = default_buffer_size * max_buffer_pieces

-- `readbuf.writepos - reqheader.bodyStart - 1`
abbrev pub body_size : {U : Type 0} → SocketStream U → ℤ
body_size s =
    let b = s.shared.readbuf.io in
    difference b.que b.writepos s.shared.reqheader.header.body_start -ℤ pos 1

-- The closure runs, and the header and the read buffer are reset.
abbrev pub take_packet :
    {U : Type 0} → Hander → Option (Shared U → Shared U) → SocketStream U → SocketStream U
take_packet h none s = s
take_packet h (some f) s =
    let x = f s.shared in
    did
      (record s {
        shared = record x {
          reqheader = reset_request x.reqheader;
          readbuf = record (x.readbuf) { io = reset x.readbuf.io };
        };
      })
      (ran h)

module _ {U : Type 0} (handers : Hander → Option (Shared U → Shared U)) where
  -- A header has been parsed.
  unfoldable pub with_header : SocketStream U → ℤ → Round U
  unfolding run
  with_header s n =
      let len = get_content_length s.shared.reqheader.header in
      if lt_ℤ (pos max_length) len
      then or_crash (run handers (message_error http_request_overflow) s)
      else if lt_ℤ (body_size s) len
      then done s
      else go_on s (take_packet (message_recived n) (handers (message_recived n)) s) n

  unfoldable pub by_code : ErrorCode → SocketStream U → ℤ → Round U
  unfolding run with_header
  by_code http_parser_fail s n = or_crash (run handers (message_error http_parser_fail) s)
  by_code http_paser_half s n = done s
  by_code _ s n = with_header s n

  -- One round, with what `ParserHeader` gives.
  unfoldable pub parsed : SocketStream U → ℤ → Option (ErrorCode × Stream × RequestHeader) → Round U
  unfolding by_code
  parsed s n none = crash stepped_out s
  parsed s n (some (code, buf, header)) =
      let t = record s { shared = record (s.shared) { readbuf = buf; reqheader = header } } in
      by_code code t (n -ℤ used_up s t)

  unfoldable pub round : SocketStream U → ℤ → Round U
  unfolding parsed
  round s n = parsed s n (parser_header s.shared.readbuf s.shared.reqheader)

  -- `MessageStream::OnRecived`. Each round but the first uses up a byte.
  unfoldable pub on_recived : SocketStream U → ℕ → Result U (SocketStream U)
  unfolding round rounds
  on_recived s n = rounds round (suc (suc (total s.shared.readbuf.io.que))) s (pos n)

  -- The methods of a MessageStream; `known` is whether the addresses of its socket are known.
  abbrev pub message_stream : Bool → Methods U
  message_stream known = record {
    on_connect = on_connect handers known;
    on_recived = on_recived;
    on_sended = λ s n. run handers (message_sended n) s;
    on_close = on_close handers;
  }
