-- ===== src/Http/Safety.antt =====
-- Past the method, the request parser stays inside its key buffer whatever bytes come.
use mtrpc.Base.{
  ℕ, zero, suc, ◌≡◌, ◌≢◌, refl, ◌||◌, [], arith, length, leb, ◌==◌, Bool-cases, inl, inr, none,
}
use mtrpc.Ring.{Que, Iterator, same, increment, deref}
use mtrpc.Ring.Sum.{total}
use mtrpc.Buffer.{Stream}
use mtrpc.Text.{Bytes}
use mtrpc.Http.{
  ParserState, start, end, req_path, req_vesion_r, req_vesion_n, req_key, req_value_r, req_value_n,
  req_end_r, res_status, res_status_message_r, res_status_message_n, res_key, res_value_r,
  res_value_n, res_end_r, KeyBuf, max_key_len, move_buf_to,
}
use mtrpc.Http.KeyBuffer.{
  IsBounded, IsTerminated, IsBounded-IsTerminated, IsTerminated-IsBounded, put-Puts,
  move_buf_to-Moves,
}
use mtrpc.Http.Feed.{Outcome, more, failed, fault, after, feed, resume}
use mtrpc.Http.Request.{
  ReqParse, RequestHeader, push, switch_req, step_req, done_req, parser_header, enter_req,
  returned_req,
}

-- The method has been read, and the key buffer is in order.
pub record IsPastMethod (p : ReqParse) : Type 0 where
  pub past : p.header.state ≢ start
  pub bounded : IsBounded p.header.buf

abbrev IsSafe : Outcome ReqParse → Type 0
IsSafe (more p) = IsPastMethod p
IsSafe (failed p) = Unit {0}
IsSafe fault = ⊥

push-IsSafe :
    (p : ReqParse) (c : ℕ) → p.header.state ≢ start → IsTerminated p.header.buf → IsSafe (push p c)
push-IsSafe p c h v =
    let b = put-Puts p.header.buf c v in rw b.is (record { past = h; bounded = b.bounded })

-- A continuation of `MoveBufTo` that is safe at every terminated buffer is safe after it.
after-move :
    (b : KeyBuf) (s : Bytes) (f : KeyBuf × Bytes → Outcome ReqParse)
    → IsTerminated b
    → ((b' : KeyBuf) (t : Bytes) → IsTerminated b' → IsSafe (f (b', t)))
    → IsSafe (after (move_buf_to b s) f)
after-move b s f v h = let m = move_buf_to-Moves b s v in rw m.is (h m.buf m.text m.terminated)

switch_req-IsSafe :
    (st : ParserState) (p : ReqParse) (it : Iterator) (c : ℕ)
    → st ≢ start
    → p.header.state ≡ st
    → IsTerminated p.header.buf
    → IsSafe (switch_req st p it c)
unfolding switch_req
switch_req-IsSafe start p it c h e v = absurd (h refl)
switch_req-IsSafe req_path p it c h e v = elim (Bool-cases (c == b' ')) [
  | inl t ↦ rw t (
      after-move p.header.buf p.path _ v (λ b' s w. elim (Bool-cases (length s == 0)) [
        | inl k ↦ rw k tt
        | inr k ↦ rw k (record { past = λ n. cc; bounded = IsTerminated-IsBounded w })
      ]))
  | inr t ↦ rw t (push-IsSafe p c (rw e h) v)
]
switch_req-IsSafe req_vesion_r p it c h e v = elim (Bool-cases (c == b'\r')) [
  | inl t ↦ rw t (
      after-move p.header.buf [] _ v
        (λ b' s w. record { past = λ n. cc; bounded = IsTerminated-IsBounded w }))
  | inr t ↦ rw t (push-IsSafe p c (rw e h) v)
]
switch_req-IsSafe req_vesion_n p it c h e v = elim (Bool-cases (c == b'\n')) [
  | inl t ↦ rw t (record { past = λ n. cc; bounded = IsTerminated-IsBounded v })
  | inr t ↦ rw t tt
]
switch_req-IsSafe req_key p it c h e v = elim (Bool-cases (c == b':')) [
  | inl t ↦ rw t (
      after-move p.header.buf p.key _ v (λ b' s w. elim (Bool-cases (length s == 0)) [
        | inl k ↦ rw k tt
        | inr k ↦ rw k (record { past = λ n. cc; bounded = IsTerminated-IsBounded w })
      ]))
  | inr t ↦ rw t (elim (Bool-cases (c == b'\r')) [
    | inl k ↦ rw k (record { past = λ n. cc; bounded = IsTerminated-IsBounded v })
    | inr k ↦ rw k (push-IsSafe p c (rw e h) v)
  ])
]
switch_req-IsSafe req_value_r p it c h e v = elim (Bool-cases (c == b'\r')) [
  | inl t ↦ rw t (
      after-move p.header.buf p.value _ v
        (λ b' s w. record { past = λ n. cc; bounded = IsTerminated-IsBounded w }))
  | inr t ↦ rw t (push-IsSafe p c (rw e h) v)
]
switch_req-IsSafe req_value_n p it c h e v = elim (Bool-cases (c == b'\n')) [
  | inl t ↦ rw t (record { past = λ n. cc; bounded = IsTerminated-IsBounded v })
  | inr t ↦ rw t tt
]
switch_req-IsSafe req_end_r p it c h e v = elim (Bool-cases (c == b'\n')) [
  | inl t ↦ rw t (record { past = λ n. cc; bounded = IsTerminated-IsBounded v })
  | inr t ↦ rw t tt
]
switch_req-IsSafe end p it c h e v = record { past = rw e h; bounded = IsTerminated-IsBounded v }
switch_req-IsSafe res_status p it c h e v = record {
  past = rw e h;
  bounded = IsTerminated-IsBounded v;
}
switch_req-IsSafe res_status_message_r p it c h e v = record {
  past = rw e h;
  bounded = IsTerminated-IsBounded v;
}
switch_req-IsSafe res_status_message_n p it c h e v = record {
  past = rw e h;
  bounded = IsTerminated-IsBounded v;
}
switch_req-IsSafe res_key p it c h e v = record {
  past = rw e h;
  bounded = IsTerminated-IsBounded v;
}
switch_req-IsSafe res_value_r p it c h e v = record {
  past = rw e h;
  bounded = IsTerminated-IsBounded v;
}
switch_req-IsSafe res_value_n p it c h e v = record {
  past = rw e h;
  bounded = IsTerminated-IsBounded v;
}
switch_req-IsSafe res_end_r p it c h e v = record {
  past = rw e h;
  bounded = IsTerminated-IsBounded v;
}

step_req-IsSafe : (p : ReqParse) (it : Iterator) (c : ℕ) → IsPastMethod p → IsSafe (step_req p it c)
unfolding step_req
step_req-IsSafe p it c h = elim (Bool-cases (leb max_key_len p.header.buf.top)) [
  | inl t ↦ rw t tt
  | inr t ↦ rw t (
      switch_req-IsSafe p.header.state p it c h.past refl
        (IsBounded-IsTerminated h.bounded (ground (arith, t))))
]

feed-IsSafe :
    (q : Que) (n : ℕ) (e it : Iterator) (p : ReqParse)
    → IsPastMethod p
    → IsSafe ((feed step_req done_req q n e it p).0)
unfolding feed
feed-IsSafe q zero e it p h = h
feed-IsSafe q (suc n) e it p h = elim (Bool-cases (same it e || done_req p)) [
  | inl t ↦ rw t h
  | inr t ↦ rw t (
      next (step_req p it (deref q it)) (step_req-IsSafe p it (deref q it) h)
        (λ s' k. feed-IsSafe q n e (increment q it) s' k))
]
  where
    next :
        (o : Outcome ReqParse)
        → IsSafe o
        → ((s' : ReqParse)
            → IsPastMethod s'
            → IsSafe ((feed step_req done_req q n e (increment q it) s').0))
        → IsSafe ((resume o it (feed step_req done_req q n e (increment q it))).0)
    next (more s') k f = f s' k
    next (failed s') k f = tt
    next fault k f = k

-- Whatever bytes are in the buffer, a request parser that has read the method and whose key buffer
-- is in order never steps outside of the key buffer.
pub parser_header-IsPastMethod :
    (s : Stream) (r : RequestHeader) → IsPastMethod (enter_req r) → parser_header s r ≢ none
unfolding parser_header
parser_header-IsPastMethod s r h =
    last (feed step_req done_req s.io.que (total s.io.que) s.io.writepos s.io.readpos (enter_req r))
      (feed-IsSafe s.io.que (total s.io.que) s.io.writepos s.io.readpos (enter_req r) h)
  where
    last : (o : Outcome ReqParse × Iterator) → IsSafe (o.0) → returned_req s o ≢ none
    last (more p, at) h e = cc
    last (failed p, at) h e = cc
    last (fault, at) h e = h
