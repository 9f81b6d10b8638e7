-- ===== src/Http/Serialize.antt =====
-- http/rpc_http_header.cpp, `SerializeHeader` of both headers: the lines that `snprintf` writes into
-- the piece of memory at an iterator, and the size that the piece gets.
use mtrpc.Base.{
  ℕ, ◌+◌, ◌-◌, Bool, true, false, ◌&&◌, List, [], ◌∷◌, ◌++◌, map, Option, none, some, ltb, leb,
  ◌==◌, if◌then◌else◌, length, get_or, take,
}
use mtrpc.Ring.{Que, Iterator, set_piece, set_size, size_at}
use mtrpc.Text.{Bytes, codes, decimal}
use mtrpc.Http.{Headers}
use mtrpc.Http.Request.{RequestHeader}
use mtrpc.Http.Response.{ResponseHeader}

-- What "%s" prints of a string.
unfoldable pub c_str : Bytes → Bytes
c_str [] = []
c_str (c ∷ cs) = let rest = c ∷ c_str cs in if c == 0 then [] else rest

abbrev pub crlf : Bytes
crlf = codes "\r\n"

-- "%s: %s \r\n"
abbrev pub header_line : Bytes × Bytes → Bytes
header_line (k, v) = c_str k ++ codes ": " ++ c_str v ++ codes " \r\n"

-- The lines after the first one.
abbrev pub header_lines : Headers → List Bytes
header_lines hs = map header_line hs ++ crlf ∷ []

-- "%s %s %s\r\n" of the method, the path and the version
abbrev pub request_lines : RequestHeader → List Bytes
request_lines r =
    (c_str r.method ++ codes " " ++ c_str r.path ++ codes " " ++ c_str r.header.version ++ crlf)
    ∷ header_lines r.header.headers

-- "%s %u %s\r\n" of the version, the status and its message
abbrev pub response_lines : ResponseHeader → List Bytes
response_lines r =
    (c_str r.header.version
      ++ codes " "
      ++ decimal r.status
      ++ codes " "
      ++ c_str r.status_msg
      ++ crlf)
    ∷ header_lines r.header.headers

-- The memory of a piece with bytes written to it from an offset on.
abbrev pub poke : (ℕ → ℕ) → ℕ → Bytes → ℕ → ℕ
poke b p s j = if leb p j && ltb j (p + length s) then get_or s (j - p) 0 else b j

-- `snprintf(bufptr, size, ...)` of a text, where `size` is positive.
unfoldable pub snprintf : Que → ℕ → ℕ → ℕ → Bytes → Que
snprintf q i p size s =
    set_piece q i (record (q i) { buffer = poke (q i).buffer p (take (size - 1) s ++ 0 ∷ []) })

-- The calls of `snprintf`, one after the other: the memory, and where the last one ended. `none` is
-- a text that did not fit, with the NUL behind it; the code then returns -1.
unfoldable pub emit : List Bytes → Que → ℕ → ℕ → ℕ → Que × Option ℕ
unfolding snprintf
emit [] q i p size = (q, some p)
emit (s ∷ ss) q i p size =
    let q' = snprintf q i p size s in
    let rest = emit ss q' i (p + length s) (size - length s) in
    if ltb (length s) size then rest else (q', none)

-- What is done after the calls: the piece ends where the text does. `true` is the result 0, `false`
-- the result -1.
abbrev pub end_piece : ℕ → Que × Option ℕ → Que × Bool
end_piece i (q, none) = (q, false)
end_piece i (q, some p) = (set_size q i p, true)

-- `SerializeHeader` of the given lines.
unfoldable pub serialize_lines : List Bytes → Que → Iterator → Que × Bool
unfolding emit
serialize_lines ls q it = end_piece it.idx (emit ls q it.idx it.ofs (size_at q it.idx - it.ofs))

-- `HttpRequestHeader::SerializeHeader` and `HttpReponseHeader::SerializeHeader`
abbrev pub serialize_request : RequestHeader → Que → Iterator → Que × Bool
serialize_request r = serialize_lines (request_lines r)

abbrev pub serialize_response : ResponseHeader → Que → Iterator → Que × Bool
serialize_response r = serialize_lines (response_lines r)
