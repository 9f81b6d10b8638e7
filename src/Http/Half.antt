-- ===== src/Http/Half.antt =====
-- When `ParserHeader` asks for more bytes, it has used up those that it had.
use mtrpc.Base.{
  ◌≡◌, ◌≢◌, ap, sym, ◌∙◌, Bool, true, false, inl, inr, Option, none, some, if◌then◌else◌,
}
use mtrpc.Ring.{Iterator, same}
use mtrpc.Ring.Sum.{total}
use mtrpc.Buffer.{Stream, IsValid}
use mtrpc.Error.{ErrorCode, http_paser_half, http_paser_finish, http_parser_fail}
use mtrpc.Http.Feed.{Outcome, more, failed, fault, feed}
use mtrpc.Http.Request.{
  ReqParse, RequestHeader, step_req, done_req, enter_req, returned_req, parser_header,
}
use mtrpc.Http.Response.{
  ResParse, ResponseHeader, step_res, done_res, enter_res, returned_res, parser_response,
}
use mtrpc.Http.Unread.{IsStopped, feed-IsStopped, gap-le-total}

abbrev code : {H : Type 0} → Option (ErrorCode × Stream × H) → ErrorCode
code none = http_parser_fail
code (some (c, _, _)) = c

abbrev left_at : {H : Type 0} → Iterator → Option (ErrorCode × Stream × H) → Iterator
left_at d none = d
left_at d (some (_, s, _)) = s.io.readpos

clash : (b : Bool) → b ≡ true → (if b then http_paser_finish else http_paser_half) ≢ http_paser_half
clash true t e = cc
clash false t e = absurd cc

-- A request parser that asks for more bytes has read the buffer to its end.
pub parser_header-half :
    (s s' : Stream) (r r' : RequestHeader)
    → IsValid s.io
    → parser_header s r ≡ some (http_paser_half, s', r')
    → same s'.io.readpos s.io.writepos ≡ true
unfolding parser_header
parser_header-half s s' r r' v h =
    last (feed step_req done_req s.io.que (total s.io.que) s.io.writepos s.io.readpos (enter_req r))
      (feed-IsStopped s.io.que s.io.writepos v.filled v.write_at step_req done_req (total s.io.que)
        s.io.readpos (enter_req r) v.read_at
        (gap-le-total s.io.que s.io.writepos s.io.readpos v.write_at v.read_at))
      h
  where
    last :
        (o : Outcome ReqParse × Iterator)
        → IsStopped s.io.que s.io.writepos v.filled v.write_at step_req done_req o
        → returned_req s o ≡ some (http_paser_half, s', r')
        → same s'.io.readpos s.io.writepos ≡ true
    last (more p, at) (inr t) e = ap (λ x. same x s.io.writepos) (sym (ap (left_at at) e)) ∙ t
    last (more p, at) (inl t) e = absurd (clash (done_req p) t (ap code e))
    last (failed p, at) k e = absurd cc
    last (fault, at) k e = absurd cc

-- A response parser that asks for more bytes has read the buffer to its end.
pub parser_response-half :
    (s s' : Stream) (r r' : ResponseHeader)
    → IsValid s.io
    → parser_response s r ≡ some (http_paser_half, s', r')
    → same s'.io.readpos s.io.writepos ≡ true
unfolding parser_response
parser_response-half s s' r r' v h =
    last (feed step_res done_res s.io.que (total s.io.que) s.io.writepos s.io.readpos (enter_res r))
      (feed-IsStopped s.io.que s.io.writepos v.filled v.write_at step_res done_res (total s.io.que)
        s.io.readpos (enter_res r) v.read_at
        (gap-le-total s.io.que s.io.writepos s.io.readpos v.write_at v.read_at))
      h
  where
    last :
        (o : Outcome ResParse × Iterator)
        → IsStopped s.io.que s.io.writepos v.filled v.write_at step_res done_res o
        → returned_res s o ≡ some (http_paser_half, s', r')
        → same s'.io.readpos s.io.writepos ≡ true
    last (more p, at) (inr t) e = ap (λ x. same x s.io.writepos) (sym (ap (left_at at) e)) ∙ t
    last (more p, at) (inl t) e = absurd (clash (done_res p) t (ap code e))
    last (failed p, at) k e = absurd cc
    last (fault, at) k e = absurd cc
