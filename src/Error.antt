-- ===== src/Error.antt =====
-- mio/mio_error_code.h and mio/mio_error_code.cpp: `ErrorCode`, and `ErrorString` on the codes.
use Prim.Native.String.{String}
use Prim.Native.Char.{code}
use mtrpc.Base.{ap, ℕ, ◌≡◌, ◌↔◌, refl, ◌⊎◌, inl, inr, arith, ◌==◌, if◌then◌else◌, List, [], ◌∷◌}

pub data ErrorCode : Type 0 where
  ok : ErrorCode
  http_parser_fail http_paser_half http_paser_finish http_req_oversize : ErrorCode
  http_req_nolength http_server_notfound http_method_notfound http_request_overflow : ErrorCode
  server_readbuffer_empty server_readbuffer_full : ErrorCode
  server_wriebuffer_empty server_wriebuffer_full : ErrorCode
  server_req_parser_failed server_process_failed server_res_seria_failed : ErrorCode
  client_connect_ok client_connect_fail client_connect_iprocess : ErrorCode
  client_cancel_by_error client_cancel_by_close client_seq_not_match : ErrorCode
  client_recv_timeout client_send_timeout : ErrorCode

-- The value of each enumerator.
unfoldable pub value : ErrorCode → ℕ
value ok = 200
value http_parser_fail = 400
value http_paser_half = 401
value http_paser_finish = 402
value http_req_oversize = 410
value http_req_nolength = 411
value http_server_notfound = 423
value http_method_notfound = 424
value http_request_overflow = 425
value server_readbuffer_empty = 500
value server_readbuffer_full = 501
value server_wriebuffer_empty = 502
value server_wriebuffer_full = 503
value server_req_parser_failed = 504
value server_process_failed = 505
value server_res_seria_failed = 506
value client_connect_ok = 1000
value client_connect_fail = 1001
value client_connect_iprocess = 1002
value client_cancel_by_error = 1003
value client_cancel_by_close = 1004
value client_seq_not_match = 1005
value client_recv_timeout = 1006
value client_send_timeout = 1007

-- The cases that the `switch` of `ErrorString` has, with the text that each returns. The two lines
-- `"Not Found";` in it are statements without effect, and no cases.
abbrev pub cases : List (ErrorCode × String)
cases =
    (ok, "OK")
    ∷ (http_parser_fail, "HTTP_PARSER_FAIL")
    ∷ (http_paser_half, "HTTP_PASER_HALF")
    ∷ (http_paser_finish, "HTTP_PASER_FINISH")
    ∷ (http_req_oversize, "HTTP_REQ_OVERSIZE")
    ∷ (http_req_nolength, "HTTP_REQ_NOLENGTH")
    ∷ (http_request_overflow, "HTTP_REQUEST_OVERFLOW")
    ∷ (server_readbuffer_empty, "SERVER_READBUFFER_EMPTY")
    ∷ (server_readbuffer_full, "SERVER_READBUFFER_FULL")
    ∷ (server_wriebuffer_empty, "SERVER_WRIEBUFFER_EMPTY")
    ∷ (server_wriebuffer_full, "SERVER_WRIEBUFFER_FULL")
    ∷ (server_req_parser_failed, "SERVER_REQ_PARSER_FAILED")
    ∷ (server_process_failed, "SERVER_PROCESS_FAILED")
    ∷ (server_res_seria_failed, "SERVER_RES_SERIA_FAILED")
    ∷ (client_connect_ok, "CLIENT_CONNECT_OK")
    ∷ (client_connect_fail, "CLIENT_CONNECT_FAIL")
    ∷ (client_connect_iprocess, "CLIENT_CONNECT_IPROCESS")
    ∷ (client_cancel_by_close, "CLIENT_CANCEL_BY_CLOSE")
    ∷ (client_cancel_by_error, "CLIENT_CANCEL_BY_ERROR")
    ∷ (client_seq_not_match, "CLIENT_SEQ_NOT_MATCH")
    ∷ (client_recv_timeout, "CLIENT_RECV_TIMEOUT")
    ∷ (client_send_timeout, "CLIENT_SEND_TIMEOUT")
    ∷ []

unfoldable pub select : List (ErrorCode × String) → ℕ → String
unfolding value
select [] n = "ERROR_UNDEFINED"
select ((c, s) ∷ cs) n = if value c == n then s else select cs n

unfoldable pub error_string : ℕ → String
unfolding select
error_string = select cases

abbrev first : String → ℕ
first String.[] = 0
first (String.◌∷◌ c s) = code c

-- `ErrorString` has no text exactly for the two codes of a service or a method that is not found.
pub error_string-undefined :
    (c : ErrorCode)
    → (error_string (value c) ≡ "ERROR_UNDEFINED")
      ↔ ((c ≡ http_server_notfound) ⊎ (c ≡ http_method_notfound))
unfolding error_string
error_string-undefined http_server_notfound = ((λ _. inl refl), (λ _. refl))
error_string-undefined http_method_notfound = ((λ _. inr refl), (λ _. refl))
error_string-undefined _ =
    ((λ e. absurd (omega (arith, ap first e))), (λ h. elim h [ inl e ↦ cc | inr e ↦ cc ]))
