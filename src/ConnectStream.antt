-- ===== src/ConnectStream.antt =====
-- mio/mio_connect_stream.h and .cpp: a client's stream, which takes responses out of its read
-- buffer. Its own fields stand beside what belongs to the owner of its closures.
pub mod Client
pub mod Framing
pub mod Tame
use mtrpc.Base.{
  ℕ, zero, suc, ◌+◌, Bool, true, false, Option, none, some, if◌then◌else◌, ℤ, pos, ◌-ℤ◌, lt_ℤ,
}
use mtrpc.Ring.{difference}
use mtrpc.Ring.Sum.{total}
use mtrpc.Buffer.{Stream, reset}
use mtrpc.Error.{
  ErrorCode, http_parser_fail, http_paser_half, http_req_nolength, client_connect_ok,
  client_connect_fail, client_connect_iprocess,
}
use mtrpc.Http.{get_content_length}
use mtrpc.Http.Response.{ResponseHeader, reset_response, parser_response}
use mtrpc.SocketStream.{
  Result, returned, stepped_out, Hander, message_error, message_recived, message_sended, ran,
  Shared, SocketStream, did, Methods, run, run_if, on_connect, on_close,
}
use mtrpc.SocketStream.Rounds.{Round, done, crash, or_crash, rounds, used_up, go_on}

-- `_ConnectStatus`, how often `cv.notifyOne` was called, and the owner's state.
pub record Connecting (V : Type 0) : Type 0 where
  pub status : ErrorCode
  pub notified : ℕ
  pub rest : V

-- What `connect` gave: 0, -1 with EINPROGRESS, or -1 with another error.
pub data Dial : Type 0 where
  dialled in_progress refused : Dial

-- `ConnectStream::Connect`; it returns the new status.
unfoldable pub connect : Dial → ErrorCode
connect dialled = client_connect_ok
connect in_progress = client_connect_iprocess
connect refused = client_connect_fail

-- The end of a connection that is under way: the new status, and a thread in `Wait` is woken.
unfoldable pub settle_via : {V : Type 0} → ErrorCode → ErrorCode → Connecting V → Connecting V
settle_via client_connect_iprocess new c = record c { status = new; notified = c.notified + 1 }
settle_via _ new c = c

abbrev pub settle_status :
    {V : Type 0} → ErrorCode → SocketStream (Connecting V) → SocketStream (Connecting V)
settle_status new s =
    let c = s.shared.owner in
    record s { shared = record (s.shared) { owner = settle_via c.status new c } }

-- `readbuf.writepos - resheader.bodyStart - 1`
abbrev pub body_size : {U : Type 0} → SocketStream U → ℤ
body_size s =
    let b = s.shared.readbuf.io in
    difference b.que b.writepos s.shared.resheader.header.body_start -ℤ pos 1

-- The closure runs, and the header and the read buffer are reset.
abbrev pub take_packet :
    {U : Type 0} → Hander → Option (Shared U → Shared U) → SocketStream U → SocketStream U
take_packet h none s = s
take_packet h (some f) s =
    let x = f s.shared in
    did
      (record s {
        shared = record x {
          resheader = reset_response x.resheader;
          readbuf = record (x.readbuf) { io = reset x.readbuf.io };
        };
      })
      (ran h)

module _ {U : Type 0} (handers : Hander → Option (Shared U → Shared U)) where
  -- A header has been parsed.
  unfoldable pub with_header : SocketStream U → ℤ → Round U
  unfolding run
  with_header s n =
      let len = get_content_length s.shared.resheader.header in
      if lt_ℤ len (pos 0)
      then or_crash (run handers (message_error http_req_nolength) s)
      else if lt_ℤ (body_size s) len
      then done s
      else go_on s (take_packet (message_recived n) (handers (message_recived n)) s) n

  unfoldable pub by_code : ErrorCode → SocketStream U → ℤ → Round U
  unfolding run with_header
  by_code http_parser_fail s n = or_crash (run handers (message_error http_parser_fail) s)
  by_code http_paser_half s n = done s
  by_code _ s n = with_header s n

  -- One round, with what `ParserHeader` gives.
  unfoldable pub parsed :
      SocketStream U → ℤ → Option (ErrorCode × Stream × ResponseHeader) → Round U
  unfolding by_code
  parsed s n none = crash stepped_out s
  parsed s n (some (code, buf, header)) =
      let t = record s { shared = record (s.shared) { readbuf = buf; resheader = header } } in
      by_code code t (n -ℤ used_up s t)

  unfoldable pub round : SocketStream U → ℤ → Round U
  unfolding parsed
  round s n = parsed s n (parser_response s.shared.readbuf s.shared.resheader)

  -- `ConnectStream::OnRecived`
  unfoldable pub on_recived : SocketStream U → ℕ → Result U (SocketStream U)
  unfolding round rounds
  on_recived s n = rounds round (suc (suc (total s.shared.readbuf.io.que))) s (pos n)

module _ {V : Type 0} (handers : Hander → Option (Shared (Connecting V) → Shared (Connecting V)))
    (known : Bool) where
  -- `ConnectStream::OnConnect`: what the base class returns is not looked at.
  abbrev pub on_connected : SocketStream (Connecting V) → SocketStream (Connecting V) × Bool
  on_connected s = (settle_status client_connect_ok (on_connect handers known s).0, true)

  -- `ConnectStream::OnClose`
  abbrev pub on_closed : SocketStream (Connecting V) → SocketStream (Connecting V)
  on_closed s = settle_status client_connect_fail (on_close handers s)

  -- The methods of a ConnectStream; `known` is whether the addresses of its socket are known.
  abbrev pub connect_stream : Methods (Connecting V)
  connect_stream = record {
    on_connect = on_connected;
    on_recived = on_recived handers;
    on_sended = λ s n. returned (run_if handers (message_sended n) s);
    on_close = on_closed;
  }
