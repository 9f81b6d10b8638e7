-- ===== src/Tests/Streams.antt =====
-- Runs of the streams over a socket.
use mtrpc.Base.{
  ℕ, ◌≡◌, ◌<◌, refl, arith, true, false, List, [], ◌∷◌, Option, none, some, ℤ, pos, if◌then◌else◌,
  ltb, length, get_or,
}
use mtrpc.Text.{Bytes, codes, find}
use mtrpc.Ring.{Iterator, default_buffer_size, difference, increment}
use mtrpc.Ring.Sum.{total}
use mtrpc.Buffer.{Stream, IsValid, reset}
use mtrpc.Buffer.Socket.{gap_self, same_refl}
use mtrpc.Event.{Mask, no_events}
use mtrpc.Http.Request.{request_header, parser_header}
use mtrpc.Http.Response.{reset_response, parser_response}
use mtrpc.Http.{http_header, get_content_length}
use mtrpc.SocketStream.{
  Hander, closed, writeable, message_recived, message_sended, message_error, Io, again, moved,
  Effect, ran, Shared, SocketStream, Result, returned, ◌>>=◌, Methods, run_if, rest_write,
  on_writeable,
}
use mtrpc.SocketStream.Keeps.{Always, IsSettled, has_closed}
use mtrpc.SocketStream.Closing.{on_events, closed_once}
use mtrpc.SocketStream.Transfer.{flow, fails, Wrote, writes_counted}
use mtrpc.MessageStream.{on_recived, message_stream}
use mtrpc.MessageStream.Progress.{has_run_out, IsReady, Later, on_recived-ends}
use mtrpc.MessageStream.Tame.{message_stream-IsTame}
use mtrpc.ConnectStream.Client.{is_bad}

abbrev at : ℕ → Iterator
at n = record { idx = 0; ofs = n }

-- A buffer that has received some bytes.
abbrev holding : Bytes → Stream
holding s = record {
  io = record {
    que = λ i. record { buffer = λ j. get_or s j 0; size = default_buffer_size };
    readpos = at 0;
    writepos = at (length s);
  };
  begin_pos = at 0;
}

abbrev fresh : Stream → Stream → SocketStream (Unit {0})
fresh r w = record {
  shared = record {
    readbuf = r;
    writebuf = w;
    reqheader = request_header;
    resheader = reset_response (record { header = http_header; status = 0; status_msg = [] });
    close_when_empty = false;
    owner = tt;
  };
  is_connected = true;
  is_closed = false;
  log = [];
}

-- A closure that reads all that there is, and one for each thing that can be set.
abbrev read_all : ℤ → Shared (Unit {0}) → Shared (Unit {0})
read_all n x = record x {
  readbuf = record (x.readbuf) { io = record (x.readbuf.io) { readpos = x.readbuf.io.writepos } };
}

abbrev handers : Hander → Option (Shared (Unit {0}) → Shared (Unit {0}))
handers (message_recived n) = some (read_all n)
handers closed = some (λ x. x)
handers (message_sended n) = some (λ x. x)
handers (message_error e) = some (λ x. x)
handers _ = none

abbrev methods : Methods (Unit {0})
methods = message_stream handers true

-- Two requests without a body, the second one cut off.
abbrev asked : SocketStream (Unit {0})
asked = fresh (holding (codes "GET /a HTTP/1.1\r\n\r\nGET /b")) (holding [])

abbrev state_after : Result (Unit {0}) (SocketStream (Unit {0})) → List Effect
state_after (returned s) = s.log
state_after _ = []

asked_test : state_after (on_recived handers asked 25) ≡ ran (message_recived (pos 6)) ∷ []
unfolding on_recived parser_header total difference get_content_length increment find reset
asked_test = refl

holding-IsReady : (s : Bytes) → length s < 524288 → IsReady (holding s).io
holding-IsReady s h = record {
  uniform = λ i. refl;
  read_at = record { idx_lt = omega arith; ofs_lt = omega arith };
  write_at = record { idx_lt = omega arith; ofs_lt = h };
}

read_all-Later :
    (n : ℤ) (x : Shared (Unit {0}))
    → IsReady x.readbuf.io
    → Later x.readbuf.io (read_all n x).readbuf.io
read_all-Later n x v = record {
  same_que = refl;
  same_end = refl;
  at = v.write_at;
  no_more = omega (
    arith,
    gap_self x.readbuf.io.que x.readbuf.io.writepos x.readbuf.io.writepos
        (same_refl x.readbuf.io.writepos),
  );
}

on_recived_example : has_run_out (on_recived handers asked 25) ≡ false
on_recived_example =
    on_recived-ends handers read_all (λ n. refl) read_all-Later asked 25
      (holding-IsReady (codes "GET /a HTTP/1.1\r\n\r\nGET /b") (omega arith))

-- The peer hangs up while an answer waits; then the answer goes out, and another event comes.
abbrev answering : SocketStream (Unit {0})
answering = fresh (holding []) (holding (codes "HTTP/1.1 200 OK"))

abbrev hang_up : List (List Io × List Io × Mask)
hang_up =
    ([], [], record no_events { event_close = true })
    ∷ ([], moved 15 ∷ [], record no_events { event_write = true })
    ∷ ([], [], record no_events { event_err = true })
    ∷ []

closed_once_example :
    Always
      (IsSettled (has_closed handers (handers closed)))
      (IsSettled (has_closed handers (handers closed)))
      (on_events handers methods hang_up answering)
closed_once_example =
    closed_once handers methods (message_stream-IsTame handers true) hang_up answering refl refl

answering-IsValid : IsValid answering.shared.writebuf.io
answering-IsValid = record {
  filled = λ i h. omega arith;
  read_at = record { idx_lt = omega arith; ofs_lt = omega arith };
  write_at = record { idx_lt = omega arith; ofs_lt = omega arith };
}

writes_counted_example :
    let t = run_if handers writeable (rest_write handers methods answering) in
    (u : SocketStream (Unit {0})) × Wrote handers t (flow (moved 9 ∷ (again ∷ []))) u
    × (on_writeable handers methods (moved 9 ∷ (again ∷ [])) answering ≡ (
        if fails (moved 9 ∷ (again ∷ []))
        then returned (u, false)
        else ((if ltb 0 (flow (moved 9 ∷ (again ∷ [])))
              then methods.on_sended u (flow (moved 9 ∷ (again ∷ [])))
              else returned u)
            >>= λ w. returned (rest_write handers methods w, true))))
unfolding run_if
writes_counted_example =
    writes_counted handers methods (moved 9 ∷ (again ∷ [])) answering answering-IsValid
      (omega arith) refl

abbrev client : SocketStream (Unit {0})
client = fresh (holding (codes "HTTP/1.1 200 OK\r?")) (holding [])

abbrev own : Hander → Shared (Unit {0}) → Shared (Unit {0})
own h x = x

client_test : is_bad (parser_response client.shared.readbuf client.shared.resheader) ≡ true
unfolding parser_response total increment
client_test = refl
