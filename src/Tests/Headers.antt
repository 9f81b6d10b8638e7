-- ===== src/Tests/Headers.antt =====
-- Runs of the HTTP headers and of their parsers.
use mtrpc.Base.{
  ◌+◌, ◌≡◌, ◌≢◌, ◌<◌, ◌↔◌, refl, arith, if◌then◌else◌, none, some, length, get_or, ◌++◌, replicate,
  [], ◌==◌,
}
use mtrpc.Ring.{Que, increment}
use mtrpc.Ring.Sum.{total}
use mtrpc.Ring.Distance.{gap}
use mtrpc.Buffer.{Stream, IsValid}
use mtrpc.Text.{Bytes, codes}
use mtrpc.Error.{http_paser_half}
use mtrpc.Http.{http_header, max_key_len, put, req_key}
use mtrpc.Http.KeyBuffer.{IsTerminated-IsBounded, empty_buf-IsTerminated}
use mtrpc.Http.Request.{RequestHeader, request_header, enter_req, parser_header}
use mtrpc.Http.Response.{ResponseHeader, parser_response, reset_response}
use mtrpc.Http.Safety.{IsPastMethod, parser_header-IsPastMethod}
use mtrpc.Http.Overflow.{parser_response-overflow}
use mtrpc.Http.Unread.{unread}

-- A ring of 64 bytes in each piece, whose first piece starts with the given bytes.
abbrev ring_of : Bytes → Que
ring_of s i = record { buffer = λ j. if i == 0 then get_or s j 0 else 0; size = 64 }

abbrev received : Bytes → Stream
received s = record {
  io = record {
    que = ring_of s;
    readpos = record { idx = 0; ofs = 0 };
    writepos = record { idx = 0; ofs = length s };
  };
  begin_pos = record { idx = 0; ofs = 0 };
}

received-IsValid : (s : Bytes) → length s < 64 → IsValid (received s).io
received-IsValid s h = record {
  filled = λ i h. omega arith;
  read_at = record { idx_lt = omega arith; ofs_lt = omega arith };
  write_at = record { idx_lt = omega arith; ofs_lt = h };
}

-- A request that ends within a key.
abbrev half_key : RequestHeader
half_key = record (request_header) { header = record http_header { state = req_key } }

half_key-IsPastMethod : IsPastMethod (enter_req half_key)
half_key-IsPastMethod = record {
  past = λ e. cc;
  bounded = IsTerminated-IsBounded empty_buf-IsTerminated;
}

parser_header_example : parser_header (received (codes "Host: a\r\n")) half_key ≢ none
parser_header_example =
    parser_header-IsPastMethod (received (codes "Host: a\r\n")) half_key half_key-IsPastMethod

abbrev two : Stream
two = received (codes "Ho")

abbrev two_read : Stream
two_read = record two { io = record (two.io) { readpos = two.io.writepos } }

abbrev two_pending : RequestHeader
two_pending = record half_key {
  header = record (half_key.header) {
    buf = record { chars = codes "Ho" ++ replicate 254 0; top = 2 };
  };
}

two-half : parser_header two half_key ≡ some (http_paser_half, two_read, two_pending)
unfolding parser_header total put increment
two-half = refl

abbrev response : ResponseHeader
response = reset_response (record { header = http_header; status = 9; status_msg = [] })

abbrev two_word : ResponseHeader
two_word = record response {
  header = record (response.header) {
    buf = record { chars = codes "Ho" ++ replicate 254 0; top = 2 };
  };
}

two-half_word : parser_response two response ≡ some (http_paser_half, two_read, two_word)
unfolding parser_response total put increment
two-half_word = refl

-- 300 bytes `A`, where a response should start.
abbrev long : Stream
long = record {
  io = record {
    que = λ i. record { buffer = λ j. b'A'; size = 100 };
    readpos = record { idx = 0; ofs = 0 };
    writepos = record { idx = 3; ofs = 0 };
  };
  begin_pos = record { idx = 0; ofs = 0 };
}

long-IsValid : IsValid long.io
long-IsValid = record {
  filled = λ i h. omega arith;
  read_at = record { idx_lt = omega arith; ofs_lt = omega arith };
  write_at = record { idx_lt = omega arith; ofs_lt = omega arith };
}

parser_response-overflow_example :
    (parser_response long response ≡ none)
    ↔ (max_key_len < 0 + gap long.io.que long.io.writepos long.io.readpos)
unfolding unread total increment
parser_response-overflow_example =
    parser_response-overflow long response long-IsValid (omega arith) refl
