-- ===== src/Http/ResponseBack.antt =====
-- `SerializeHeader` and `ParserHeader` of http/rpc_http_header.cpp, the one behind the other:
-- responses.
use mtrpc.Base.{suc, length, ◌≡◌, ◌<◌, ◌^◌, refl, ap, ◌∙◌, true, [], ◌∷◌, ◌++◌, map, some}
use mtrpc.Ring.{Iterator, IsAt, increment, deref}
use mtrpc.Ring.Sum.{total}
use mtrpc.Buffer.{Stream, IsValid}
use mtrpc.Text.{Bytes, codes, decimal}
use mtrpc.Error.{http_paser_finish}
use mtrpc.Http.{end, res_end_r}
use mtrpc.Http.Response.{
  ResponseHeader, reset_response, switch_res, step_res, done_res, enter_res, returned_res,
  parser_response,
}
use mtrpc.Http.Serialize.{header_line, response_lines, crlf, c_str}
use mtrpc.Http.Written.{text}
use mtrpc.Http.Unread.{unread}
use mtrpc.Http.Token.{ready}
use mtrpc.Http.Words.{
  in_path, in_line, is_word, is_word-Word, all_lines, ascends, blanks, assign_all,
  assign_all-blanks,
}
use mtrpc.Http.Blanks.{SameNumbers, blanks-SameNumbers}
use mtrpc.Http.Lines.{kept_byte, lines_end, lines_size}
use mtrpc.Ring.Distance.{gap}
use mtrpc.Http.ResponseBytes.{at_res, res_headers_end}
use mtrpc.Http.ResponseText.{followed, response-Takes}
use mtrpc.Http.Finish.{ends-Finishes}

-- The header that is read, if its last byte stands at `body`: the version is the one of `Reset`, the
-- values have a blank behind them.
abbrev pub taken_back : ResponseHeader → Iterator → ResponseHeader
taken_back w body = record {
  header = record {
    state = end;
    buf = ready (kept_byte 0 w.header.headers);
    headers = blanks w.header.headers;
    body_start = body;
    version = codes "HTTP/1.1";
  };
  status = w.status;
  status_msg = w.status_msg;
}

-- A response of the stream has been read, up to `rest`.
pub record IsTakenBack (s : Stream) (r w : ResponseHeader) (rest : Bytes) : Type 0 where
  pub body : Iterator
  pub at_body : IsAt s.io.que body
  pub last : deref s.io.que body ≡ b'\n'
  pub is :
      parser_response s (reset_response r)
      ≡ some (
        http_paser_finish,
        record s { io = record (s.io) { readpos = increment s.io.que body } },
        taken_back w body,
      )
  pub size : gap s.io.que s.io.writepos body ≡ suc (length rest)
  pub used : gap s.io.que (increment s.io.que body) s.io.readpos ≡ length (text (response_lines w))
  pub numbers : SameNumbers w.header (taken_back w body).header
  pub left : unread (total s.io.que) s.io.que s.io.writepos (increment s.io.que body) ≡ rest

-- Where a stream's unread bytes start with what `SerializeHeader` writes of a response,
-- `ParserHeader` of a header after `Reset` returns FINISH, and leaves unread just what follows. It
-- reads the status and its message as they were, the value of each header with a blank behind it, so
-- that Content-Length and Seq are the same numbers, and no version. The ring is valid, the status is
-- below 2^32, and the keys ascend. Version, message, keys and values are not empty, contain no NUL, do
-- not start with a blank, and have at most 255 bytes, values 253; the version has no blank in it, the
-- message and the values no carriage return, and the keys neither one nor a colon.
pub response-IsTakenBack :
    (s : Stream) (r w : ResponseHeader) (rest : Bytes)
    → IsValid s.io
    → is_word in_path 255 w.header.version ≡ true
    → w.status < 2 ^ 32
    → is_word in_line 255 w.status_msg ≡ true
    → all_lines w.header.headers ≡ true
    → ascends w.header.headers ≡ true
    → unread (total s.io.que) s.io.que s.io.writepos s.io.readpos ≡ text (response_lines w) ++ rest
    → IsTakenBack s r w rest
unfolding parser_response step_res switch_res
response-IsTakenBack s r w rest v n t m h a u =
    let first =
      c_str w.header.version
      ++ codes " "
      ++ decimal w.status
      ++ codes " "
      ++ c_str w.status_msg
      ++ crlf in
    let hs = w.header.headers in
    let b = ready (kept_byte 0 hs) in
    let http = codes "HTTP/1.1" in
    let o =
      ends-Finishes s.io.que s.io.writepos v.filled v.write_at step_res done_res
        (λ body. at_res end b (assign_all [] hs) body http w.status w.status_msg [])
        (enter_res (reset_response r))
        (at_res res_end_r b (assign_all [] hs) r.header.body_start http w.status w.status_msg [])
        s.io.readpos (first ++ text (map header_line hs) ++ b'\r' ∷ []) b'\n' rest v.read_at
        (followed
          (response-Takes r w (is_word-Word in_path 255 w.header.version n) t
            (is_word-Word in_line 255 w.status_msg m) h)
          (res_headers_end (assign_all [] hs) r.header.body_start http w.status w.status_msg []
            (kept_byte 0 hs)))
        refl (λ it. refl) (λ it. refl) (u ∙ lines_end first hs rest) in
    record {
      body = o.body;
      at_body = o.at_body;
      last = o.last;
      size = o.size;
      used = o.used ∙ lines_size first hs;
      is =
          ap (returned_res s) o.is
          ∙ ap
              (λ l. some (
                http_paser_finish,
                record s { io = record (s.io) { readpos = increment s.io.que o.body } },
                record (taken_back w o.body) {
                  header = record ((taken_back w o.body).header) { headers = l };
                },
              ))
              (assign_all-blanks hs a);
      numbers = blanks-SameNumbers w.header (taken_back w o.body).header refl;
      left = o.left;
    }
