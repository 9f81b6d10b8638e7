-- ===== src/Tests/Pipelines.antt =====
-- Requests and responses that stand in the read buffer of a stream.
use mtrpc.Base.{
  ℕ, ◌+◌, ◌-◌, ◌*◌, ◌/◌, ◌%◌, ◌≡◌, ◌<◌, ◌⊎◌, Bool, refl, arith, length, get_or, ◌++◌, [], true,
  false, Option, none, some, pos,
}
use mtrpc.Ring.{default_buffer_size, increment}
use mtrpc.Ring.Sum.{total}
use mtrpc.Buffer.{Stream, IsValid}
use mtrpc.Text.{Bytes, codes, decimal, digits, assign, find, bytes_eq, bytes_lt, strtol}
use mtrpc.Http.{http_header, set_seq, set_content_length, get_content_length}
use mtrpc.Http.Request.{RequestHeader, request_header}
use mtrpc.Http.Response.{ResponseHeader, reset_response}
use mtrpc.Http.Serialize.{request_lines, response_lines, c_str}
use mtrpc.Http.Written.{text}
use mtrpc.Http.Unread.{unread}
use mtrpc.SocketStream.{Hander, message_recived, message_error, Shared, SocketStream}
use mtrpc.MessageStream.{round}
use mtrpc.ConnectStream.Client.{server_handers}
use mtrpc.Connect.Closures.{Owned, serve}
use mtrpc.Connect.Swallowed.{LeavesOff, swallowed}
use mtrpc.Channel.{Call, Channel}
use mtrpc.Channel.Arrives.{header_of, Arrived, call_delivered}
use mtrpc.MessageStream.Wire.{IsRequest, IsBetween}
use mtrpc.MessageStream.Framing.{IsFramed, request-IsFramed}
use mtrpc.ConnectStream.Framing.{IsWhole, response-IsWhole}

-- A read buffer that starts 20 bytes before the end of its first piece.
abbrev near_end : Bytes → Stream
near_end s = record {
  io = record {
    que = λ i. record {
      buffer = λ j. get_or s (i * 524288 + j - 524268) 0;
      size = default_buffer_size;
    };
    readpos = record { idx = 0; ofs = 524268 };
    writepos = record { idx = (524268 + length s) / 524288; ofs = (524268 + length s) % 524288 };
  };
  begin_pos = record { idx = 0; ofs = 0 };
}

near_end-IsValid : (s : Bytes) → length s < 1000 → IsValid (near_end s).io
near_end-IsValid s h = record {
  filled = λ i h. omega arith;
  read_at = record { idx_lt = omega arith; ofs_lt = omega arith };
  write_at = record { idx_lt = omega arith; ofs_lt = omega arith };
}

abbrev get : RequestHeader
get = record {
  header = set_seq (set_content_length http_header 2) 41;
  method = codes "GET";
  path = codes "/a";
}

abbrev put_b : RequestHeader
put_b = record {
  header = set_content_length http_header 0;
  method = codes "POST";
  path = codes "/b";
}

get-IsRequest : IsRequest get (codes "hi")
unfolding c_str set_seq set_content_length get_content_length decimal digits assign find bytes_eq
    bytes_lt strtol
get-IsRequest = record {
  method = refl;
  path = refl;
  version = refl;
  lines = refl;
  order = refl;
  size = refl;
  fits = omega arith;
}

-- The first request, and the second one behind it.
abbrev two : Bytes
two = text (request_lines get) ++ (codes "hi" ++ text (request_lines put_b))

abbrev fresh : {U : Type 0} → U → Bytes → SocketStream U
fresh u s = record {
  shared = record {
    readbuf = near_end s;
    writebuf = near_end [];
    reqheader = request_header;
    resheader = reset_response (record { header = http_header; status = 0; status_msg = [] });
    close_when_empty = false;
    owner = u;
  };
  is_connected = true;
  is_closed = false;
  log = [];
}

abbrev handers : Hander → Option (Shared (Unit {0}) → Shared (Unit {0}))
handers (message_recived n) = some (λ x. x)
handers (message_error e) = some (λ x. x)
handers _ = none

two-IsBetween : {U : Type 0} (u : U) → IsBetween (fresh u two) two
unfolding unread total increment c_str set_seq set_content_length decimal digits assign bytes_eq
    bytes_lt
two-IsBetween u = record {
  uniform = λ i. refl;
  read_at = record { idx_lt = omega arith; ofs_lt = omega arith };
  write_at = (near_end-IsValid two (omega arith)).write_at;
  earlier = request_header;
  header = refl;
  not_closing = refl;
  left = refl;
}

-- The first request with one byte of its body.
abbrev cut_off : Bytes
cut_off = text (request_lines get) ++ codes "h"

request-IsFramed_example : IsFramed handers (fresh tt cut_off) (pos 9) get (codes "h")
unfolding unread total increment c_str set_seq set_content_length decimal digits assign bytes_eq
    bytes_lt
request-IsFramed_example =
    request-IsFramed handers (fresh tt cut_off) (pos 9) request_header get (codes "h")
      (near_end-IsValid cut_off (omega arith)) refl refl refl refl refl refl refl

abbrev reply : ResponseHeader
reply = record { header = set_content_length http_header 2; status = 200; status_msg = codes "OK" }

abbrev replies : Bytes
replies = text (response_lines reply) ++ codes "hi!"

response-IsWhole_example : IsWhole handers (fresh tt replies) (pos 9) reply (codes "hi!")
unfolding unread total increment c_str set_content_length decimal digits assign bytes_eq bytes_lt
response-IsWhole_example =
    response-IsWhole handers (fresh tt replies) (pos 9) (fresh tt replies).shared.resheader reply
      (codes "hi!") (near_end-IsValid replies (omega arith)) refl refl (omega arith) refl refl refl
      refl

-- Parsers that read all that there is.
abbrev take_all : Bytes → Stream → Stream × Bool
take_all m b = (record b { io = record (b.io) { readpos = b.io.writepos } }, true)

abbrev keep : Bytes → Stream → Stream × Bool
keep m b = (b, true)

abbrev none_yet : Owned
none_yet = record { pending = []; deleted = []; mods = []; made = 0 }

swallowed_example :
    (t : SocketStream Owned) × LeavesOff
      (round
        (server_handers (serve keep take_all (λ m. true) (λ m. false) (λ x. x)))
        (fresh none_yet two)
        (pos (length two)))
      t
    × ((t.shared.close_when_empty ≡ true)
        ⊎ (unread
              (total t.shared.readbuf.io.que)
              t.shared.readbuf.io.que
              t.shared.readbuf.io.writepos
              t.shared.readbuf.io.readpos
            ≡ []))
swallowed_example =
    swallowed keep take_all (λ m. true) (λ m. false) (λ x. x) (λ m b g. refl) (fresh none_yet two)
      (pos (length two)) get (codes "hi") (text (request_lines put_b)) get-IsRequest refl refl
      (two-IsBetween none_yet)

abbrev channel : ℕ → Channel
channel last = record {
  sendcall = [];
  waitcall = [];
  donecall = [];
  statuses = [];
  dones = [];
  writebuf = near_end [];
  readbuf = near_end [];
  reqheader = request_header;
  resheader = reset_response (record { header = http_header; status = 0; status_msg = [] });
  closing = false;
  effects = [];
  last_seq = last;
}

abbrev call : Call
call = record { id = 7; seq = 0; pack_size = 0; send_size = 0; has_done = true }

abbrev full_name : ℕ → Bytes
full_name i = codes "Echo.Say"

abbrev no_parse : ℕ → Stream → Stream × Bool
no_parse i s = (s, true)

-- The sequence number is 2147483648, which is negative as an `int32_t`.
abbrev sent : Bytes
sent =
    text (request_lines (header_of full_name no_parse no_parse (channel 2147483647) call 3))
    ++ codes "you"

call_delivered_example :
    Arrived full_name no_parse no_parse keep take_all
      (λ m. true)
      (λ m. false)
      (λ x. x)
      (λ m b g. refl)
      (fresh none_yet sent)
      (length sent)
      (codes "Echo.Say")
      (codes "you")
unfolding unread total increment c_str set_seq set_content_length decimal digits assign bytes_eq
    bytes_lt
call_delivered_example =
    call_delivered full_name no_parse no_parse keep take_all (λ m. true) (λ m. false) (λ x. x)
      (λ m b g. refl) (fresh none_yet sent) (channel 2147483647) call (codes "you") refl
      (omega arith) refl (omega arith)
      (record {
        uniform = λ i. refl;
        read_at = record { idx_lt = omega arith; ofs_lt = omega arith };
        write_at = (near_end-IsValid sent (omega arith)).write_at;
        earlier = request_header;
        header = refl;
        not_closing = refl;
        left = refl;
      })
