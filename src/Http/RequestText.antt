-- ===== src/Http/RequestText.antt =====
-- The lines of `HttpRequestHeader::SerializeHeader` in `HttpRequestHeader::ParserHeader`.
use mtrpc.Base.{
  ℕ, Bool, ◌||◌, ◌≡◌, refl, ap, ap₂, sym, ◌∙◌, arith, true, [], ◌∷◌, ◌++◌, map, length-append,
  append_assoc,
}
use mathlib.Core.Path.{subst}
use mtrpc.Ring.{Iterator}
use mtrpc.Text.{Bytes, codes, assign, bytes_eq}
use mtrpc.Http.{
  req_path, req_vesion_r, req_key, req_value_r, Headers, put, is_method_found, move_buf_to,
  skip_and_take, take_text,
}
use mtrpc.Http.Request.{
  ReqParse, RequestHeader, reset_request, switch_req, step_req, done_req, enter_req,
}
use mtrpc.Http.Serialize.{c_str, header_line, crlf}
use mtrpc.Http.Written.{text}
use mtrpc.Http.Runs.{Runs, stop, read, runs_append}
use mtrpc.Http.Token.{ready}
use mtrpc.Http.Words.{
  in_path, in_line, in_key, Word, all_in-append, no_nul-append, with_blank, assign_all, all_lines,
}
use mtrpc.Http.Lines.{c_str-Word, kept_byte, reads_lines}
use mtrpc.Http.RequestBytes.{
  at, collects, version_ends, value_ends, path_ends, line_ends, key_ends, value_returns,
}

abbrev pub Reads : ReqParse → Bytes → ReqParse → Type 0
Reads = Runs step_req done_req

pub joined :
    {p p' p'' : ReqParse} {cs ds : Bytes} → Reads p cs p' → Reads p' ds p'' → Reads p (cs ++ ds) p''
joined = runs_append step_req done_req

module _ (hs : Headers) (bs : Iterator) (v m : Bytes) where
  path-Reads :
      (s : Bytes)
      → Word in_path 255 s
      → Reads
          (at req_path (ready 0) hs bs v m [] [])
          (s ++ b' ' ∷ [])
          (at req_vesion_r (ready 0) hs bs v m s [])
  path-Reads s w =
      subst
        (λ s.
          Reads (at req_path (ready 0) hs bs v m [] []) (s ++ b' ' ∷ [])
            (at req_vesion_r (ready 0) hs bs v m s []))
        (sym w.is)
        (joined (collects hs bs v m [] [] req_path 0 w.first w.rest refl w.short w.all)
          (path_ends hs bs v m [] [] w.first w.rest refl w.no_blank w.nulless w.short))

  version-Reads :
      (p s : Bytes)
      → Word in_line 255 s
      → Reads
          (at req_vesion_r (ready 0) hs bs v m p [])
          (s ++ b'\r' ∷ b'\n' ∷ [])
          (at req_key (ready 0) hs bs s m p [])
  version-Reads p s w =
      subst
        (λ s.
          Reads (at req_vesion_r (ready 0) hs bs v m p []) (s ++ b'\r' ∷ b'\n' ∷ [])
            (at req_key (ready 0) hs bs s m p []))
        (sym w.is)
        (joined (collects hs bs v m p [] req_vesion_r 0 w.first w.rest refl w.short w.all) (
          joined (line_ends hs bs v m p [] w.first w.rest w.no_blank w.nulless w.short)
            (version_ends hs bs (w.first ∷ w.rest) m p [])))

  key-Reads :
      (p s : Bytes) (x : ℕ)
      → Word in_key 255 s
      → Reads
          (at req_key (ready x) hs bs v m p [])
          (s ++ b':' ∷ [])
          (at req_value_r (ready 0) hs bs v m p s)
  key-Reads p s x w =
      subst
        (λ s.
          Reads (at req_key (ready x) hs bs v m p []) (s ++ b':' ∷ [])
            (at req_value_r (ready 0) hs bs v m p s))
        (sym w.is)
        (joined (collects hs bs v m p [] req_key x w.first w.rest refl w.short w.all)
          (key_ends hs bs v m p [] w.first w.rest refl w.no_blank w.nulless w.short))

  -- A value, with the blanks around it and the end of its line.
  value-Reads :
      (p k s : Bytes)
      → Word in_line 253 s
      → Reads
          (at req_value_r (ready 0) hs bs v m p k)
          ((b' ' ∷ with_blank s) ++ b'\r' ∷ b'\n' ∷ [])
          (at req_key (ready b' ') (assign hs k (with_blank s)) bs v m p [])
  value-Reads p k s w =
      subst
        (λ s.
          Reads (at req_value_r (ready 0) hs bs v m p k)
            ((b' ' ∷ with_blank s) ++ b'\r' ∷ b'\n' ∷ [])
            (at req_key (ready b' ') (assign hs k (with_blank s)) bs v m p []))
        (sym w.is)
        (joined
          (collects hs bs v m p k req_value_r 0 b' ' (w.first ∷ with_blank w.rest) refl
            (omega (arith, w.short, length-append w.rest (b' ' ∷ [])))
            (all_in-append in_line (w.first ∷ w.rest) (b' ' ∷ []) w.all refl))
          (joined
            (value_returns hs bs v m p k w.first (with_blank w.rest) w.no_blank
              (no_nul-append (w.first ∷ w.rest) (b' ' ∷ []) w.nulless refl)
              (omega (arith, w.short, length-append w.rest (b' ' ∷ []))))
            (value_ends (assign hs k (w.first ∷ with_blank w.rest)) bs v m p [])))

request_lines-Reads :
    (bs : Iterator) (v m p : Bytes) (ls : Headers)
    → all_lines ls ≡ true
    → Reads
        (at req_key (ready 0) [] bs v m p [])
        (text (map header_line ls))
        (at req_key (ready (kept_byte 0 ls)) (assign_all [] ls) bs v m p [])
request_lines-Reads bs v m p ls h =
    reads_lines step_req done_req (λ x hs. at req_key (ready x) hs bs v m p [])
      (λ hs k. at req_value_r (ready 0) hs bs v m p k) (λ hs x k w. key-Reads hs bs v m p k x w)
      (λ hs k s w. value-Reads hs bs v m p k s w) [] 0 ls h

-- The two methods that the parser knows.
abbrev pub is_method : Bytes → Bool
is_method m = bytes_eq m (codes "POST") || bytes_eq m (codes "GET")

pub post-Reads :
    (r : RequestHeader)
    → Reads
        (enter_req (reset_request r))
        (codes "POST ")
        (at req_path (ready 0) [] r.header.body_start (codes "HTTP/1.1") (codes "POST ") [] [])
unfolding step_req switch_req put is_method_found move_buf_to skip_and_take take_text bytes_eq
post-Reads r =
    read refl (λ it. refl)
      (read refl (λ it. refl)
        (read refl (λ it. refl) (read refl (λ it. refl) (read refl (λ it. refl) stop))))

pub get-Reads :
    (r : RequestHeader)
    → Reads
        (enter_req (reset_request r))
        (codes "GET ")
        (at req_path (ready 0) [] r.header.body_start (codes "HTTP/1.1") (codes "GET ") [] [])
unfolding step_req switch_req put is_method_found move_buf_to skip_and_take take_text bytes_eq
get-Reads r =
    read refl (λ it. refl)
      (read refl (λ it. refl) (read refl (λ it. refl) (read refl (λ it. refl) stop)))

-- What is written of a request whose method is that of the bytes `m`, without the blank.
pub request-Reads :
    (r w : RequestHeader)
    → Reads (enter_req (reset_request r)) (w.method ++ b' ' ∷ []) (
        at req_path
          (ready 0)
          []
          r.header.body_start
          (codes "HTTP/1.1")
          (w.method ++ b' ' ∷ [])
          []
          [])
    → c_str w.method ≡ w.method
    → Word in_path 255 w.path
    → Word in_line 255 w.header.version
    → all_lines w.header.headers ≡ true
    → Reads
        (enter_req (reset_request r))
        (c_str w.method
          ++ codes " "
          ++ c_str w.path
          ++ codes " "
          ++ c_str w.header.version
          ++ crlf
          ++ text (map header_line w.header.headers))
        (at req_key
          (ready (kept_byte 0 w.header.headers))
          (assign_all [] w.header.headers)
          r.header.body_start
          w.header.version
          (w.method ++ b' ' ∷ [])
          w.path
          [])
request-Reads r w m e p v h =
    let bs = r.header.body_start in
    let m' = w.method ++ b' ' ∷ [] in
    joined
      (subst
        (λ t.
          Reads (enter_req (reset_request r)) t
            (at req_key (ready 0) [] bs w.header.version m' w.path []))
        (bytes e (c_str-Word p) (c_str-Word v))
        (joined (joined m (path-Reads [] bs (codes "HTTP/1.1") m' w.path p))
          (version-Reads [] bs (codes "HTTP/1.1") m' w.path w.header.version v)))
      (request_lines-Reads bs w.header.version m' w.path w.header.headers h)
  where
    bytes :
        c_str w.method ≡ w.method
        → c_str w.path ≡ w.path
        → c_str w.header.version ≡ w.header.version
        → ((w.method ++ b' ' ∷ []) ++ (w.path ++ b' ' ∷ [])) ++ (w.header.version ++ crlf)
          ≡ c_str w.method
            ++ codes " "
            ++ c_str w.path
            ++ codes " "
            ++ c_str w.header.version
            ++ crlf
    bytes a b c =
        ap (λ t. t ++ (w.header.version ++ crlf))
          (sym (append_assoc (w.method ++ codes " ") w.path (codes " ")))
        ∙ sym (append_assoc (w.method ++ codes " " ++ w.path ++ codes " ") w.header.version crlf)
        ∙ ap₂ (λ t u. t ++ codes " " ++ u ++ codes " " ++ w.header.version ++ crlf) (sym a) (sym b)
        ∙ ap (λ t. c_str w.method ++ codes " " ++ c_str w.path ++ codes " " ++ t ++ crlf) (sym c)
