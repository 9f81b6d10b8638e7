-- ===== src/Http.antt =====
-- http/rpc_http_header.h and http/rpc_http_header.cpp: the part of the HTTP header classes that the
-- request and the response share, and the loop of both parsers.
--
-- `buf` is the 256-byte key buffer of `HttpHeader` with the write index that `pos` points to. It is
-- a list of 256 bytes; an access outside of it, which C++ does not define, is `none`.
pub mod Request
pub mod Response
pub mod Serialize
pub mod Written
pub mod Numbers
pub mod KeyBuffer
pub mod Safety
pub mod Overflow
pub mod Half
pub mod Feed
pub mod Unread
pub mod Progress
pub mod Runs
pub mod Token
pub mod Words
pub mod Blanks
pub mod Lines
pub mod RequestBytes
pub mod RequestText
pub mod Finish
pub mod ReadBack
pub mod Status
pub mod ResponseBytes
pub mod ResponseText
pub mod ResponseBack
use mtrpc.Base.{
  ℕ, zero, suc, ◌+◌, ◌-◌, ◌<◌, ◌%◌, ◌^◌, Bool, true, false, ◌&&◌, ◌||◌, not, List, [], ◌∷◌, ◌++◌,
  map, Option, none, some, ltb, leb, ◌==◌, if◌then◌else◌, ℤ, pos, length, get_or, set, take, drop,
  replicate,
}
use mathlib.Core.Option
use mtrpc.Ring.{Que, Iterator, same, increment, deref}
use mtrpc.Text.{Bytes, codes, bytes_eq, find, assign, decimal, strtol, strtoull, to_int32, scan_u32}

abbrev pub max_key_len : ℕ
max_key_len = 256

abbrev pub max_header_size : ℕ
max_header_size = 1024

abbrev pub max_method_len : ℕ
max_method_len = 8

abbrev pub http_method_get : Bytes
http_method_get = codes "GET "

abbrev pub http_method_post : Bytes
http_method_post = codes "POST "

abbrev pub content_length_key : Bytes
content_length_key = codes "Content-Length"

abbrev pub seq_key : Bytes
seq_key = codes "Seq"

-- `HTTP_PARSER_STATE`
pub data ParserState : Type 0 where
  start end : ParserState
  req_path req_vesion_r req_vesion_n req_key req_value_r req_value_n req_end_r : ParserState
  res_status res_status_message_r res_status_message_n : ParserState
  res_key res_value_r res_value_n res_end_r : ParserState

abbrev pub is_end : ParserState → Bool
is_end end = true
is_end _ = false

pub record KeyBuf : Type 0 where
  pub chars : Bytes
  pub top : ℕ

abbrev pub empty_buf : KeyBuf
empty_buf = record { chars = replicate max_key_len 0; top = 0 }

-- `std::map<std::string, std::string>`
abbrev pub Headers : Type 0
Headers = List (Bytes × Bytes)

pub record HttpHeader : Type 0 where
  pub state : ParserState
  pub buf : KeyBuf
  pub headers : Headers
  pub body_start : Iterator
  pub version : Bytes

-- `HttpHeader::Reset`; `bodyStart` is left as it was.
abbrev pub reset_header : HttpHeader → HttpHeader
reset_header h = record h {
  headers = [];
  version = codes "HTTP/1.1";
  state = start;
  buf = empty_buf;
}

-- `HttpHeader()`
abbrev pub http_header : HttpHeader
http_header = reset_header (record {
  state = start;
  buf = empty_buf;
  headers = [];
  body_start = record { idx = 0; ofs = 0 };
  version = [];
})

abbrev pub set_header : HttpHeader → Bytes → Bytes → HttpHeader
set_header h key value = record h { headers = assign h.headers key value }

unfoldable pub set_content_length : HttpHeader → ℕ → HttpHeader
set_content_length h n = set_header h content_length_key (decimal n)

-- `GetContentLength`, an `int`.
unfoldable pub get_content_length : HttpHeader → ℤ
get_content_length h = elim (find h.headers content_length_key) [
  | none ↦ pos 0
  | some v ↦ to_int32 (strtol v)
]

unfoldable pub set_seq : HttpHeader → ℕ → HttpHeader
set_seq h n = set_header h seq_key (decimal n)

-- `GetSeq`, a `uint64_t`; -1 where there is none.
unfoldable pub get_seq : HttpHeader → ℕ
get_seq h = elim (find h.headers seq_key) [ none ↦ 2 ^ 64 - 1 | some v ↦ strtoull v ]

abbrev pub is_parsed : HttpHeader → Bool
is_parsed h = is_end h.state

-- `*pos++ = c`
unfoldable pub put : KeyBuf → ℕ → Option KeyBuf
put b c =
    if ltb b.top max_key_len
    then some (record { chars = set b.chars b.top c; top = b.top + 1 })
    else none

-- `memcmp(pos - n, name, n) == 0`, for the `n` bytes of `name`.
abbrev pub ends_with : KeyBuf → Bytes → Bool
ends_with b name = bytes_eq (take (length name) (drop (b.top - length name) b.chars)) name

-- `isMethodFound`. `size` is the number of bytes before the buffer is cut back to its last 8.
unfoldable pub is_method_found : KeyBuf → ℕ → Option (KeyBuf × Bool)
unfolding put bytes_eq
is_method_found b c =
    Option.map
      (λ (b' : KeyBuf).
        let size = b'.top in
        let cut =
          if leb max_key_len size
          then record {
            chars =
                take max_method_len (drop (size - max_method_len) b'.chars)
                ++ drop max_method_len b'.chars;
            top = max_method_len;
          }
          else b' in
        if (leb 4 size && ends_with cut http_method_get)
          || (leb 5 size && ends_with cut http_method_post)
        then (record cut { top = 0 }, true)
        else (cut, false))
      (put b c)

-- The second loop of `MoveBufTo(std::string&)`: the bytes up to the first NUL, and the buffer with
-- those bytes cleared.
unfoldable pub take_text : Bytes → Option (Bytes × Bytes)
take_text [] = none
take_text (c ∷ cs) =
    if c == 0 then some ([], c ∷ cs) else Option.map (λ r. (c ∷ r.0, 0 ∷ r.1)) (take_text cs)

-- Both loops. The blanks that the first one passes stay in the buffer.
unfoldable pub skip_and_take : Bytes → Option (Bytes × Bytes)
unfolding take_text
skip_and_take [] = none
skip_and_take (c ∷ cs) =
    if c == b' ' then Option.map (λ r. (r.0, c ∷ r.1)) (skip_and_take cs) else take_text (c ∷ cs)

-- `MoveBufTo(std::string& s)`: appends to `s`.
unfoldable pub move_buf_to : KeyBuf → Bytes → Option (KeyBuf × Bytes)
unfolding skip_and_take
move_buf_to b s =
    Option.map (λ r. (record { chars = r.1; top = 0 }, s ++ r.0)) (skip_and_take b.chars)

-- `MoveBufTo(uint32_t& s)`: clears the buffer up to the first NUL, blanks included.
unfoldable pub move_buf_to_u32 : KeyBuf → ℕ → Option (KeyBuf × ℕ)
unfolding skip_and_take
move_buf_to_u32 b n = elim (skip_and_take b.chars) [
  | none ↦ none
  | some (text, _) ↦
      Option.map (λ r. (record { chars = r.1; top = 0 }, scan_u32 text n)) (take_text b.chars)
]

abbrev pub get_pend_size : KeyBuf → ℕ
get_pend_size b = b.top
