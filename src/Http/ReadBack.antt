-- ===== src/Http/ReadBack.antt =====
-- `SerializeHeader` and `ParserHeader` of http/rpc_http_header.cpp, the one behind the other:
-- requests.
use mtrpc.Base.{
  suc, length, ◌≡◌, refl, ap, ◌∙◌, arith, Bool, true, false, ◌||◌, [], ◌∷◌, ◌++◌, map, some,
  Bool-cases, inl, inr, ◌⊎◌,
}
use mtrpc.Ring.{Iterator, IsAt, increment, deref}
use mtrpc.Ring.Sum.{total}
use mtrpc.Buffer.{Stream, IsValid}
use mtrpc.Text.{Bytes, codes, bytes_eq}
use mtrpc.Text.Map.{bytes_eq_iff}
use mtrpc.Error.{http_paser_finish}
use mtrpc.Http.{end, req_path, req_end_r}
use mtrpc.Http.Request.{
  RequestHeader, reset_request, switch_req, step_req, done_req, enter_req, returned_req,
  parser_header,
}
use mtrpc.Http.Serialize.{header_line, request_lines, crlf, c_str}
use mtrpc.Http.Written.{text}
use mtrpc.Http.Unread.{unread}
use mtrpc.Http.Token.{ready}
use mtrpc.Http.Words.{
  in_path, in_line, is_word, is_word-Word, all_lines, ascends, blanks, assign_all,
  assign_all-blanks,
}
use mtrpc.Http.Blanks.{SameNumbers, blanks-SameNumbers}
use mtrpc.Http.Lines.{kept_byte, lines_end, lines_size}
use mtrpc.Ring.Distance.{gap}
use mtrpc.Http.RequestBytes.{at, headers_end}
use mtrpc.Http.RequestText.{Reads, joined, is_method, post-Reads, get-Reads, request-Reads}
use mtrpc.Http.Finish.{ends-Finishes}

-- The header that is read, if its last byte stands at `body`: the method and the values have a blank
-- behind them.
abbrev pub read_back : RequestHeader → Iterator → RequestHeader
read_back w body = record {
  header = record {
    state = end;
    buf = ready (kept_byte 0 w.header.headers);
    headers = blanks w.header.headers;
    body_start = body;
    version = w.header.version;
  };
  method = w.method ++ b' ' ∷ [];
  path = w.path;
}

-- A request of the stream has been read, up to `rest`.
pub record IsReadBack (s : Stream) (r w : RequestHeader) (rest : Bytes) : Type 0 where
  pub body : Iterator
  pub at_body : IsAt s.io.que body
  pub last : deref s.io.que body ≡ b'\n'
  pub is :
      parser_header s (reset_request r)
      ≡ some (
        http_paser_finish,
        record s { io = record (s.io) { readpos = increment s.io.que body } },
        read_back w body,
      )
  pub size : gap s.io.que s.io.writepos body ≡ suc (length rest)
  pub used : gap s.io.que (increment s.io.que body) s.io.readpos ≡ length (text (request_lines w))
  pub numbers : SameNumbers w.header (read_back w body).header
  pub left : unread (total s.io.que) s.io.que s.io.writepos (increment s.io.que body) ≡ rest

method_is : (m : Bytes) → is_method m ≡ true → (m ≡ codes "POST") ⊎ (m ≡ codes "GET")
method_is m h = elim (Bool-cases (bytes_eq m (codes "POST"))) [
  | inl t ↦ inl ((bytes_eq_iff m (codes "POST")).0 t)
  | inr t ↦ inr ((bytes_eq_iff m (codes "GET")).0 (other _ _ h t))
]
  where
    other : (b c : Bool) → (b || c) ≡ true → b ≡ false → c ≡ true
    other b c h t = ground arith

c_str-method : (m : Bytes) → is_method m ≡ true → c_str m ≡ m
unfolding c_str
c_str-method m h = elim (method_is m h) [ inl e ↦ rw e refl | inr e ↦ rw e refl ]

method-Reads :
    (r : RequestHeader) (m : Bytes)
    → is_method m ≡ true
    → Reads
        (enter_req (reset_request r))
        (m ++ b' ' ∷ [])
        (at req_path (ready 0) [] r.header.body_start (codes "HTTP/1.1") (m ++ b' ' ∷ []) [] [])
method-Reads r m h = elim (method_is m h) [
  | inl e ↦ rw e (post-Reads r)
  | inr e ↦ rw e (get-Reads r)
]

-- Where a stream's unread bytes start with what `SerializeHeader` writes of a request, `ParserHeader`
-- of a header after `Reset` returns FINISH, and leaves unread just what follows. It reads the path and
-- the version as they were; the method and the value of each header get a blank behind them, so that
-- Content-Length and Seq are the same numbers. The ring is valid, the method is POST or GET, and the
-- keys ascend. Path, version, keys and values are not empty, contain no NUL, do not start with a
-- blank, and have at most 255 bytes, values 253; no path has a blank in it, no version and no value
-- a carriage return, and no key one or a colon.
pub request-IsReadBack :
    (s : Stream) (r w : RequestHeader) (rest : Bytes)
    → IsValid s.io
    → is_method w.method ≡ true
    → is_word in_path 255 w.path ≡ true
    → is_word in_line 255 w.header.version ≡ true
    → all_lines w.header.headers ≡ true
    → ascends w.header.headers ≡ true
    → unread (total s.io.que) s.io.que s.io.writepos s.io.readpos ≡ text (request_lines w) ++ rest
    → IsReadBack s r w rest
unfolding parser_header step_req switch_req
request-IsReadBack s r w rest v m p n h a u =
    let first =
      c_str w.method ++ codes " " ++ c_str w.path ++ codes " " ++ c_str w.header.version ++ crlf in
    let hs = w.header.headers in
    let bs = r.header.body_start in
    let m' = w.method ++ b' ' ∷ [] in
    let o =
      ends-Finishes s.io.que s.io.writepos v.filled v.write_at step_req done_req
        (λ body.
          at end (ready (kept_byte 0 hs)) (assign_all [] hs) body w.header.version m' w.path [])
        (enter_req (reset_request r))
        (at req_end_r (ready (kept_byte 0 hs)) (assign_all [] hs) bs w.header.version m' w.path [])
        s.io.readpos (first ++ text (map header_line hs) ++ b'\r' ∷ []) b'\n' rest v.read_at
        (joined
          (request-Reads r w (method-Reads r w.method m) (c_str-method w.method m)
            (is_word-Word in_path 255 w.path p) (is_word-Word in_line 255 w.header.version n) h)
          (headers_end (assign_all [] hs) bs w.header.version m' w.path [] (kept_byte 0 hs)))
        refl (λ it. refl) (λ it. refl) (u ∙ lines_end first hs rest) in
    record {
      body = o.body;
      at_body = o.at_body;
      last = o.last;
      size = o.size;
      used = o.used ∙ lines_size first hs;
      is =
          ap (returned_req s) o.is
          ∙ ap
              (λ l. some (
                http_paser_finish,
                record s { io = record (s.io) { readpos = increment s.io.que o.body } },
                record (read_back w o.body) {
                  header = record ((read_back w o.body).header) { headers = l };
                },
              ))
              (assign_all-blanks hs a);
      numbers = blanks-SameNumbers w.header (read_back w o.body).header refl;
      left = o.left;
    }
