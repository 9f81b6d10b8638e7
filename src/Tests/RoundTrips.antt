-- ===== src/Tests/RoundTrips.antt =====
-- Headers written and read back.
use mtrpc.Base.{◌+◌, ◌*◌, ◌/◌, ◌%◌, ◌<◌, refl, arith, length, get_or, ◌++◌}
use mtrpc.Ring.{increment}
use mtrpc.Ring.Sum.{total}
use mtrpc.Buffer.{Stream, IsValid}
use mtrpc.Text.{Bytes, codes, decimal, digits, assign, bytes_eq, bytes_lt}
use mtrpc.Http.{HttpHeader, http_header, set_seq, set_content_length}
use mtrpc.Http.Request.{RequestHeader, request_header}
use mtrpc.Http.Response.{ResponseHeader}
use mtrpc.Http.Serialize.{request_lines, response_lines, c_str}
use mtrpc.Http.Written.{text}
use mtrpc.Http.Unread.{unread}
use mtrpc.Http.ReadBack.{IsReadBack, request-IsReadBack}
use mtrpc.Http.ResponseBack.{IsTakenBack, response-IsTakenBack}

-- Pieces of 32 bytes that hold the given bytes from the first one on.
abbrev in_pieces : Bytes → Stream
in_pieces s = record {
  io = record {
    que = λ i. record { buffer = λ j. get_or s (i * 32 + j) 0; size = 32 };
    readpos = record { idx = 0; ofs = 0 };
    writepos = record { idx = length s / 32; ofs = length s % 32 };
  };
  begin_pos = record { idx = 0; ofs = 0 };
}

in_pieces-IsValid : (s : Bytes) → length s < 512 → IsValid (in_pieces s).io
in_pieces-IsValid s h = record {
  filled = λ i h. omega arith;
  read_at = record { idx_lt = omega arith; ofs_lt = omega arith };
  write_at = record { idx_lt = omega arith; ofs_lt = omega arith };
}

abbrev header : HttpHeader
header = set_seq (set_content_length http_header 2) 41

abbrev request : RequestHeader
request = record { header = header; method = codes "POST"; path = codes "/Echo.Say" }

abbrev response : ResponseHeader
response = record { header = header; status = 200; status_msg = codes "all is well" }

request-IsReadBack_example :
    IsReadBack
      (in_pieces (text (request_lines request) ++ codes "hi"))
      request_header
      request
      (codes "hi")
unfolding unread total increment c_str set_seq set_content_length decimal digits assign bytes_eq
    bytes_lt
request-IsReadBack_example =
    request-IsReadBack (in_pieces (text (request_lines request) ++ codes "hi")) request_header
      request (codes "hi")
      (in_pieces-IsValid (text (request_lines request) ++ codes "hi") (omega arith)) refl refl refl
      refl refl refl

response-IsTakenBack_example :
    IsTakenBack
      (in_pieces (text (response_lines response) ++ codes "hi"))
      response
      response
      (codes "hi")
unfolding unread total increment c_str set_seq set_content_length decimal digits assign bytes_eq
    bytes_lt
response-IsTakenBack_example =
    response-IsTakenBack (in_pieces (text (response_lines response) ++ codes "hi")) response
      response (codes "hi")
      (in_pieces-IsValid (text (response_lines response) ++ codes "hi") (omega arith)) refl
      (omega arith) refl refl refl refl
