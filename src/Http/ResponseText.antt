-- ===== src/Http/ResponseText.antt =====
-- The lines of `HttpReponseHeader::SerializeHeader` in `HttpReponseHeader::ParserHeader`.
use mtrpc.Base.{
  ℕ, ◌≡◌, ◌<◌, ◌^◌, refl, ap, ap₂, sym, ◌∙◌, arith, true, [], ◌∷◌, ◌++◌, map, length-append,
  append_assoc,
}
use mathlib.Core.Path.{subst}
use mtrpc.Ring.{Iterator}
use mtrpc.Text.{Bytes, codes, assign, decimal, scan_u32}
use mtrpc.Text.Decimal.{scan_u32-decimal}
use mtrpc.Http.{start, res_status, res_status_message_r, res_key, res_value_r, Headers}
use mtrpc.Http.Response.{ResParse, ResponseHeader, reset_response, step_res, done_res, enter_res}
use mtrpc.Http.Serialize.{c_str, header_line, crlf}
use mtrpc.Http.Written.{text}
use mtrpc.Http.Runs.{Runs, runs_append}
use mtrpc.Http.Token.{ready}
use mtrpc.Http.Words.{
  in_path, in_line, in_key, Word, all_in-append, no_nul-append, with_blank, assign_all, all_lines,
}
use mtrpc.Http.Lines.{c_str-Word, kept_byte, reads_lines}
use mtrpc.Http.Status.{decimal-Word}
use mtrpc.Http.ResponseBytes.{
  at_res, gathers, version_passes, status_ends, message_ends, res_key_ends, res_value_ends,
}

abbrev pub Takes : ResParse → Bytes → ResParse → Type 0
Takes = Runs step_res done_res

pub followed :
    {p p' p'' : ResParse} {cs ds : Bytes} → Takes p cs p' → Takes p' ds p'' → Takes p (cs ++ ds) p''
followed = runs_append step_res done_res

module _ (hs : Headers) (bs : Iterator) (v : Bytes) where
  version-Takes :
      (s : Bytes)
      → Word in_path 255 s
      → Takes
          (at_res start (ready 0) hs bs v 0 [] [])
          (s ++ b' ' ∷ [])
          (at_res res_status (ready 0) hs bs v 0 [] [])
  version-Takes s w =
      subst
        (λ s.
          Takes (at_res start (ready 0) hs bs v 0 [] []) (s ++ b' ' ∷ [])
            (at_res res_status (ready 0) hs bs v 0 [] []))
        (sym w.is)
        (followed (gathers hs bs v 0 [] [] start 0 w.first w.rest refl w.short w.all)
          (version_passes hs bs v 0 [] [] w.first w.rest refl w.no_blank w.nulless w.short))

  number-Takes :
      (s : Bytes)
      → Word in_path 255 s
      → Takes
          (at_res res_status (ready 0) hs bs v 0 [] [])
          (s ++ b' ' ∷ [])
          (at_res res_status_message_r (ready 0) hs bs v (scan_u32 s 0) [] [])
  number-Takes s w =
      subst
        (λ s.
          Takes (at_res res_status (ready 0) hs bs v 0 [] []) (s ++ b' ' ∷ [])
            (at_res res_status_message_r (ready 0) hs bs v (scan_u32 s 0) [] []))
        (sym w.is)
        (followed (gathers hs bs v 0 [] [] res_status 0 w.first w.rest refl w.short w.all)
          (status_ends hs bs v 0 [] [] w.first w.rest w.no_blank w.nulless w.short))

  status-Takes :
      (n : ℕ)
      → n < 2 ^ 32
      → Takes
          (at_res res_status (ready 0) hs bs v 0 [] [])
          (decimal n ++ b' ' ∷ [])
          (at_res res_status_message_r (ready 0) hs bs v n [] [])
  status-Takes n h =
      subst
        (λ k.
          Takes (at_res res_status (ready 0) hs bs v 0 [] []) (decimal n ++ b' ' ∷ [])
            (at_res res_status_message_r (ready 0) hs bs v k [] []))
        (scan_u32-decimal n 0 h) (number-Takes (decimal n) (decimal-Word n h))

  message-Takes :
      (n : ℕ) (s : Bytes)
      → Word in_line 255 s
      → Takes
          (at_res res_status_message_r (ready 0) hs bs v n [] [])
          (s ++ crlf)
          (at_res res_key (ready 0) hs bs v n s [])
  message-Takes n s w =
      subst
        (λ s.
          Takes (at_res res_status_message_r (ready 0) hs bs v n [] []) (s ++ crlf)
            (at_res res_key (ready 0) hs bs v n s []))
        (sym w.is)
        (followed (gathers hs bs v n [] [] res_status_message_r 0 w.first w.rest refl w.short w.all)
          (message_ends hs bs v n [] [] w.first w.rest refl w.no_blank w.nulless w.short))

  key-Takes :
      (n x : ℕ) (m s : Bytes)
      → Word in_key 255 s
      → Takes
          (at_res res_key (ready x) hs bs v n m [])
          (s ++ b':' ∷ [])
          (at_res res_value_r (ready 0) hs bs v n m s)
  key-Takes n x m s w =
      subst
        (λ s.
          Takes (at_res res_key (ready x) hs bs v n m []) (s ++ b':' ∷ [])
            (at_res res_value_r (ready 0) hs bs v n m s))
        (sym w.is)
        (followed (gathers hs bs v n m [] res_key x w.first w.rest refl w.short w.all)
          (res_key_ends hs bs v n m [] w.first w.rest refl w.no_blank w.nulless w.short))

  -- A value, with the blanks around it and the end of its line.
  value-Takes :
      (n : ℕ) (m k s : Bytes)
      → Word in_line 253 s
      → Takes
          (at_res res_value_r (ready 0) hs bs v n m k)
          ((b' ' ∷ with_blank s) ++ crlf)
          (at_res res_key (ready b' ') (assign hs k (with_blank s)) bs v n m [])
  value-Takes n m k s w =
      subst
        (λ s.
          Takes (at_res res_value_r (ready 0) hs bs v n m k) ((b' ' ∷ with_blank s) ++ crlf)
            (at_res res_key (ready b' ') (assign hs k (with_blank s)) bs v n m []))
        (sym w.is)
        (followed
          (gathers hs bs v n m k res_value_r 0 b' ' (w.first ∷ with_blank w.rest) refl
            (omega (arith, w.short, length-append w.rest (b' ' ∷ [])))
            (all_in-append in_line (w.first ∷ w.rest) (b' ' ∷ []) w.all refl))
          (res_value_ends hs bs v n m k w.first (with_blank w.rest) w.no_blank
            (no_nul-append (w.first ∷ w.rest) (b' ' ∷ []) w.nulless refl)
            (omega (arith, w.short, length-append w.rest (b' ' ∷ [])))))

response_lines-Takes :
    (bs : Iterator) (v : Bytes) (n : ℕ) (m : Bytes) (ls : Headers)
    → all_lines ls ≡ true
    → Takes
        (at_res res_key (ready 0) [] bs v n m [])
        (text (map header_line ls))
        (at_res res_key (ready (kept_byte 0 ls)) (assign_all [] ls) bs v n m [])
response_lines-Takes bs v n m ls h =
    reads_lines step_res done_res (λ x hs. at_res res_key (ready x) hs bs v n m [])
      (λ hs k. at_res res_value_r (ready 0) hs bs v n m k) (λ hs x k w. key-Takes hs bs v n x m k w)
      (λ hs k s w. value-Takes hs bs v n m k s w) [] 0 ls h

-- What is written of a response.
pub response-Takes :
    (r w : ResponseHeader)
    → Word in_path 255 w.header.version
    → w.status < 2 ^ 32
    → Word in_line 255 w.status_msg
    → all_lines w.header.headers ≡ true
    → Takes
        (enter_res (reset_response r))
        (c_str w.header.version
          ++ codes " "
          ++ decimal w.status
          ++ codes " "
          ++ c_str w.status_msg
          ++ crlf
          ++ text (map header_line w.header.headers))
        (at_res res_key
          (ready (kept_byte 0 w.header.headers))
          (assign_all [] w.header.headers)
          r.header.body_start
          (codes "HTTP/1.1")
          w.status
          w.status_msg
          [])
response-Takes r w v n m h =
    let bs = r.header.body_start in
    let v' = codes "HTTP/1.1" in
    followed
      (subst
        (λ t.
          Takes (enter_res (reset_response r)) t
            (at_res res_key (ready 0) [] bs v' w.status w.status_msg []))
        (bytes (c_str-Word v) (c_str-Word m))
        (followed
          (followed (version-Takes [] bs v' w.header.version v) (status-Takes [] bs v' w.status n))
          (message-Takes [] bs v' w.status w.status_msg m)))
      (response_lines-Takes bs v' w.status w.status_msg w.header.headers h)
  where
    bytes :
        c_str w.header.version ≡ w.header.version
        → c_str w.status_msg ≡ w.status_msg
        → ((w.header.version ++ b' ' ∷ []) ++ (decimal w.status ++ b' ' ∷ []))
            ++ (w.status_msg ++ crlf)
          ≡ c_str w.header.version
            ++ codes " "
            ++ decimal w.status
            ++ codes " "
            ++ c_str w.status_msg
            ++ crlf
    bytes a b =
        ap (λ t. t ++ (w.status_msg ++ crlf))
          (sym (append_assoc (w.header.version ++ codes " ") (decimal w.status) (codes " ")))
        ∙ sym (
            append_assoc (w.header.version ++ codes " " ++ decimal w.status ++ codes " ")
              w.status_msg crlf)
        ∙ ap₂ (λ t u. t ++ codes " " ++ decimal w.status ++ codes " " ++ u ++ crlf) (sym a) (sym b)
