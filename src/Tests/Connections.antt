-- ===== src/Tests/Connections.antt =====
-- Runs of a server's connection.
use mtrpc.Base.{ℕ, ◌+◌, ◌≡◌, refl, Bool, true, false, List, [], ◌∷◌, some}
use mtrpc.Buffer.{Stream}
use mtrpc.Text.{Bytes, codes}
use mtrpc.Error.{value}
use mtrpc.Http.{http_header}
use mtrpc.Http.Request.{RequestHeader, request_header}
use mtrpc.Http.Response.{reset_response}
use mtrpc.Connect.{Response, Connect, on_message_error, on_message_recived}

abbrev empty : Stream
empty = record {
  io = record {
    que = λ i. record { buffer = λ j. 0; size = 200 };
    readpos = record { idx = 0; ofs = 0 };
    writepos = record { idx = 0; ofs = 0 };
  };
  begin_pos = record { idx = 0; ofs = 0 };
}

abbrev response : ℕ → Response
response i = record { id = i; method = codes "S.m"; seq = 40 + i; pack_size = 90; send_size = 0 }

abbrev connect : List Response → Connect
connect ks = record {
  pending = ks;
  deleted = [];
  writebuf = empty;
  readbuf = empty;
  resheader = reset_response (record { header = http_header; status = 0; status_msg = [] });
  closing = false;
  mods = [];
}

abbrev works : Bytes → Stream → Stream × Bool
works m s = (s, true)

abbrev fails : Bytes → Stream → Stream × Bool
fails m s = (s, false)

abbrev never : Bytes → Bool
never m = false

abbrev request : RequestHeader
request = record (request_header) { path = codes "/S.m" }

abbrev answered : Connect
answered = on_message_error (connect (response 1 ∷ [])) 424

not_found_is :
    on_message_recived works works never never (connect (response 1 ∷ [])) request 2 ≡ some answered
unfolding on_message_recived value
not_found_is = refl
