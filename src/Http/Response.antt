-- ===== src/Http/Response.antt =====
-- http/rpc_http_header.h and .cpp, `HttpReponseHeader`: the parser of responses. It does not check
-- the length of what it puts into the key buffer.
use mtrpc.Base.{ℕ, Bool, [], Option, none, some, ◌==◌, if◌then◌else◌}
use mtrpc.Ring.{Iterator}
use mtrpc.Ring.Sum.{total}
use mtrpc.Buffer.{Stream}
use mtrpc.Text.{Bytes, assign}
use mtrpc.Error.{ErrorCode, http_parser_fail, http_paser_half, http_paser_finish}
use mtrpc.Http.{
  ParserState, start, end, res_status, res_status_message_r, res_status_message_n, res_key,
  res_value_r, res_value_n, res_end_r, KeyBuf, HttpHeader, reset_header, is_end, put, move_buf_to,
  move_buf_to_u32,
}
use mtrpc.Http.Feed.{Outcome, more, failed, fault, after, feed}

pub record ResponseHeader : Type 0 where
  pub header : HttpHeader
  pub status : ℕ
  pub status_msg : Bytes

-- `HttpReponseHeader::Reset`
abbrev pub reset_response : ResponseHeader → ResponseHeader
reset_response r = record { header = reset_header r.header; status = 0; status_msg = [] }

-- `SetStatus`
abbrev pub set_status : ResponseHeader → ℕ → Bytes → ResponseHeader
set_status r s msg = record r { status = s; status_msg = msg }

pub record ResParse : Type 0 where
  pub header : HttpHeader
  pub status : ℕ
  pub status_msg : Bytes
  pub key : Bytes
  pub value : Bytes

abbrev pub goto_res : ResParse → ParserState → ResParse
goto_res p s = record p { header = record (p.header) { state = s } }

-- The header with a new buffer, in a new state.
abbrev pub moved_res : ResParse → KeyBuf → ParserState → HttpHeader
moved_res p b s = record (p.header) { buf = b; state = s }

-- The `default` cases: `*pos++ = c`.
abbrev pub push_res : ResParse → ℕ → Outcome ResParse
push_res p c =
    after (put p.header.buf c) (λ b. more (record p { header = record (p.header) { buf = b } }))

-- The `switch` on the state, which is the whole of one round of the loop.
unfoldable pub switch_res : ParserState → ResParse → Iterator → ℕ → Outcome ResParse
unfolding put move_buf_to move_buf_to_u32
switch_res start p it c =
    if c == b' '
    then after (move_buf_to p.header.buf p.key)
        (λ m. more (record p { header = moved_res p m.0 res_status; key = [] }))
    else push_res p c
switch_res res_status p it c =
    if c == b' '
    then after (move_buf_to_u32 p.header.buf p.status)
        (λ m. more (record p { header = moved_res p m.0 res_status_message_r; status = m.1 }))
    else push_res p c
switch_res res_status_message_r p it c =
    if c == b'\r'
    then after (move_buf_to p.header.buf p.status_msg)
        (λ m. more (record p { header = moved_res p m.0 res_status_message_n; status_msg = m.1 }))
    else push_res p c
switch_res res_status_message_n p it c = if c == b'\n' then more (goto_res p res_key) else failed p
switch_res res_key p it c =
    if c == b':'
    then after (move_buf_to p.header.buf p.key)
        (λ m. more (record p { header = moved_res p m.0 res_value_r; key = m.1 }))
    else if c == b'\r'
    then more (goto_res p res_end_r)
    else push_res p c
switch_res res_value_r p it c =
    if c == b'\r'
    then after (move_buf_to p.header.buf p.value) (λ m. more (record p {
      header = record (moved_res p m.0 res_value_n) { headers = assign p.header.headers p.key m.1 };
      key = [];
      value = [];
    }))
    else push_res p c
switch_res res_value_n p it c = if c == b'\n' then more (goto_res p res_key) else failed p
switch_res res_end_r p it c =
    if c == b'\n'
    then more (record p { header = record (p.header) { state = end; body_start = it } })
    else failed p
switch_res _ p it c = more p

unfoldable pub step_res : ResParse → Iterator → ℕ → Outcome ResParse
unfolding switch_res
step_res p it c = switch_res p.header.state p it c

abbrev pub done_res : ResParse → Bool
done_res p = is_end p.header.state

-- The state in which `ParserHeader` enters its loop: `key` and `value` are new.
abbrev pub enter_res : ResponseHeader → ResParse
enter_res r = record {
  header = r.header;
  status = r.status;
  status_msg = r.status_msg;
  key = [];
  value = [];
}

abbrev pub leave_res : ResParse → ResponseHeader
leave_res p = record { header = p.header; status = p.status; status_msg = p.status_msg }

-- What `ParserHeader` returns once its loop has ended at `at`.
abbrev pub returned_res :
    Stream → Outcome ResParse × Iterator → Option (ErrorCode × Stream × ResponseHeader)
returned_res s (more p, at) = some (
  if done_res p then http_paser_finish else http_paser_half,
  record s { io = record (s.io) { readpos = at } },
  leave_res p,
)
returned_res s (failed p, at) =
    some (http_parser_fail, record s { io = record (s.io) { readpos = at } }, leave_res p)
returned_res s (fault, at) = none

-- `HttpReponseHeader::ParserHeader`; `none` is an access outside of the key buffer.
unfoldable pub parser_response :
    Stream → ResponseHeader → Option (ErrorCode × Stream × ResponseHeader)
unfolding feed step_res
parser_response s r =
    returned_res s
      (feed step_res done_res s.io.que (total s.io.que) s.io.writepos s.io.readpos (enter_res r))
