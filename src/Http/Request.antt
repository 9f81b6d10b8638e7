-- ===== src/Http/Request.antt =====
-- http/rpc_http_header.h and .cpp, `HttpRequestHeader`: the parser of requests. The local strings
-- `key` and `value` of `ParserHeader` are fields of the state that its loop changes.
use mtrpc.Base.{ℕ, Bool, [], Option, none, some, leb, ◌==◌, if◌then◌else◌, length}
use mtrpc.Ring.{Iterator}
use mtrpc.Ring.Sum.{total}
use mtrpc.Buffer.{Stream}
use mtrpc.Text.{Bytes, codes, assign}
use mtrpc.Error.{ErrorCode, http_parser_fail, http_paser_half, http_paser_finish}
use mtrpc.Http.{
  ParserState, start, end, req_path, req_vesion_r, req_vesion_n, req_key, req_value_r, req_value_n,
  req_end_r, KeyBuf, HttpHeader, http_header, reset_header, is_end, max_key_len, put,
  is_method_found, move_buf_to, get_pend_size,
}
use mtrpc.Http.Feed.{Outcome, more, failed, fault, after, feed}

pub record RequestHeader : Type 0 where
  pub header : HttpHeader
  pub method : Bytes
  pub path : Bytes

-- `HttpRequestHeader()`
abbrev pub request_header : RequestHeader
request_header = record { header = http_header; method = codes "POST"; path = [] }

-- `HttpRequestHeader::Reset`
abbrev pub reset_request : RequestHeader → RequestHeader
reset_request r = record { header = reset_header r.header; method = codes "POST"; path = [] }

abbrev pub set_path : RequestHeader → Bytes → RequestHeader
set_path r p = record r { path = p }

pub record ReqParse : Type 0 where
  pub header : HttpHeader
  pub method : Bytes
  pub path : Bytes
  pub key : Bytes
  pub value : Bytes

abbrev pub goto : ReqParse → ParserState → ReqParse
goto p s = record p { header = record (p.header) { state = s } }

-- The header with a new buffer, in a new state.
abbrev pub moved : ReqParse → KeyBuf → ParserState → HttpHeader
moved p b s = record (p.header) { buf = b; state = s }

-- The `default` cases: `*pos++ = c`.
abbrev pub push : ReqParse → ℕ → Outcome ReqParse
push p c =
    after (put p.header.buf c) (λ b. more (record p { header = record (p.header) { buf = b } }))

-- The `switch` on the state.
unfoldable pub switch_req : ParserState → ReqParse → Iterator → ℕ → Outcome ReqParse
unfolding put is_method_found move_buf_to
switch_req start p it c = after (is_method_found p.header.buf c) (λ r.
    if r.1
    then after (move_buf_to r.0 [])
        (λ m. more (record p { header = moved p m.0 req_path; method = m.1 }))
    else more (record p { header = record (p.header) { buf = r.0 } }))
switch_req req_path p it c =
    if c == b' '
    then after (move_buf_to p.header.buf p.path) (λ m.
      if length m.1 == 0
      then failed (record p { header = record (p.header) { buf = m.0 }; path = m.1 })
      else more (record p { header = moved p m.0 req_vesion_r; path = m.1 }))
    else push p c
switch_req req_vesion_r p it c =
    if c == b'\r'
    then after (move_buf_to p.header.buf [])
        (λ m. more (record p { header = record (moved p m.0 req_vesion_n) { version = m.1 } }))
    else push p c
switch_req req_vesion_n p it c = if c == b'\n' then more (goto p req_key) else failed p
switch_req req_key p it c =
    if c == b':'
    then after (move_buf_to p.header.buf p.key) (λ m.
      if length m.1 == 0
      then failed (record p { header = record (p.header) { buf = m.0 }; key = m.1 })
      else more (record p { header = moved p m.0 req_value_r; key = m.1 }))
    else if c == b'\r'
    then more (goto p req_end_r)
    else push p c
switch_req req_value_r p it c =
    if c == b'\r'
    then after (move_buf_to p.header.buf p.value) (λ m. more (record p {
      header = record (moved p m.0 req_value_n) { headers = assign p.header.headers p.key m.1 };
      key = [];
      value = [];
    }))
    else push p c
switch_req req_value_n p it c = if c == b'\n' then more (goto p req_key) else failed p
switch_req req_end_r p it c =
    if c == b'\n'
    then more (record p { header = record (p.header) { state = end; body_start = it } })
    else failed p
switch_req _ p it c = more p

-- One round of the loop: the check of the key's length, then the `switch`.
unfoldable pub step_req : ReqParse → Iterator → ℕ → Outcome ReqParse
step_req p it c =
    if leb max_key_len (get_pend_size p.header.buf)
    then failed p
    else switch_req p.header.state p it c

abbrev pub done_req : ReqParse → Bool
done_req p = is_end p.header.state

-- The state in which `ParserHeader` enters its loop: `key` and `value` are new.
abbrev pub enter_req : RequestHeader → ReqParse
enter_req r = record { header = r.header; method = r.method; path = r.path; key = []; value = [] }

abbrev pub leave_req : ReqParse → RequestHeader
leave_req p = record { header = p.header; method = p.method; path = p.path }

-- What `ParserHeader` returns once its loop has ended at `at`.
abbrev pub returned_req :
    Stream → Outcome ReqParse × Iterator → Option (ErrorCode × Stream × RequestHeader)
returned_req s (more p, at) = some (
  if done_req p then http_paser_finish else http_paser_half,
  record s { io = record (s.io) { readpos = at } },
  leave_req p,
)
returned_req s (failed p, at) =
    some (http_parser_fail, record s { io = record (s.io) { readpos = at } }, leave_req p)
returned_req s (fault, at) = none

-- `ParserHeader`: the code that it returns, and the buffer and the header that it leaves; `none` is
-- an access outside of the key buffer. No buffer holds more bytes than its ring.
unfoldable pub parser_header : Stream → RequestHeader → Option (ErrorCode × Stream × RequestHeader)
unfolding feed step_req switch_req
parser_header s r =
    returned_req s
      (feed step_req done_req s.io.que (total s.io.que) s.io.writepos s.io.readpos (enter_req r))
