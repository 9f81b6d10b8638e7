-- ===== src/Http/Overflow.antt =====
-- What the response parser does with bytes that end no token.
use mtrpc.Base.{
  ℕ, zero, suc, ◌+◌, ◌≡◌, ◌≤◌, ◌<◌, ◌↔◌, refl, ap, sym, ◌∙◌, Bool, true, false, not, ◌&&◌, ◌||◌, [],
  ◌∷◌, arith, ◌==◌, ltb, none, Bool-cases, inl, inr, set, length, ltb-true,
}
use native.Mathlib.Decide.{dec_lt}
use mtrpc.Ring.{Que, Iterator, same, increment, deref}
use mtrpc.Ring.Sum.{total}
use mtrpc.Ring.Distance.{gap}
use mtrpc.Buffer.{Stream, IsValid}
use mtrpc.Text.{Bytes}
use mtrpc.Http.{
  ParserState, start, end, res_status, res_status_message_r, res_key, res_value_r, max_key_len, put,
  is_end,
}
use mtrpc.Http.Feed.{Outcome, more, failed, fault, feed}
use mtrpc.Http.Response.{
  ResParse, ResponseHeader, switch_res, step_res, push_res, done_res, enter_res, returned_res,
  parser_response,
}
use mtrpc.Http.Unread.{unread, length-unread, gap-le-total}

-- The bytes that a state puts into the key buffer.
abbrev pub is_plain : ParserState → ℕ → Bool
is_plain start c = not (c == b' ')
is_plain res_status c = not (c == b' ')
is_plain res_status_message_r c = not (c == b'\r')
is_plain res_key c = not (c == b':' || c == b'\r')
is_plain res_value_r c = not (c == b'\r')
is_plain _ c = false

abbrev pub all_plain : ParserState → Bytes → Bool
all_plain st [] = true
all_plain st (c ∷ cs) = is_plain st c && all_plain st cs

pub not-true : {b : Bool} → not b ≡ true → b ≡ false
not-true {b} h = ground arith

pub neither : (b c : Bool) → not (b || c) ≡ true → (b ≡ false) × (c ≡ false)
neither b c h = (ground arith, ground arith)

switch_res-plain :
    (st : ParserState) (p : ResParse) (it : Iterator) (c : ℕ)
    → is_plain st c ≡ true
    → switch_res st p it c ≡ push_res p c
unfolding switch_res
switch_res-plain start p it c h = rw (not-true h) refl
switch_res-plain res_status p it c h = rw (not-true h) refl
switch_res-plain res_status_message_r p it c h = rw (not-true h) refl
switch_res-plain res_value_r p it c h = rw (not-true h) refl
switch_res-plain res_key p it c h =
    let n = neither (c == b':') (c == b'\r') h in rw n.0 (rw n.1 refl)
switch_res-plain _ p it c h = absurd cc

is_end-plain : (st : ParserState) (c : ℕ) → is_plain st c ≡ true → is_end st ≡ false
is_end-plain end c h = absurd cc
is_end-plain _ c h = refl

pub step_res-plain :
    (p : ResParse) (it : Iterator) (c : ℕ)
    → is_plain p.header.state c ≡ true
    → step_res p it c ≡ push_res p c
unfolding step_res
step_res-plain p it c h = switch_res-plain p.header.state p it c h

pub both : (b c : Bool) → (b && c) ≡ true → (b ≡ true) × (c ≡ true)
both b c h = (ground arith, ground arith)

pub unread_more :
    (n : ℕ) (q : Que) (e it : Iterator)
    → same it e ≡ false
    → unread (suc n) q e it ≡ deref q it ∷ unread n q e (increment q it)
unfolding unread
unread_more n q e it t = rw t refl

feed-plain :
    (q : Que) (e : Iterator) (n : ℕ) (it : Iterator) (p : ResParse)
    → p.header.buf.top ≤ max_key_len
    → all_plain p.header.state (unread n q e it) ≡ true
    → ((feed step_res done_res q n e it p).0 ≡ fault)
      ↔ (max_key_len < p.header.buf.top + length (unread n q e it))
unfolding feed unread put
feed-plain q e zero it p ht h = (λ k. absurd cc, λ k. absurd (omega arith))
feed-plain q e (suc n) it p ht h = elim (Bool-cases (same it e)) [
  | inl t ↦ rw t (λ k. absurd cc, λ k. absurd (omega arith))
  | inr t ↦
      let c = deref q it in
      let st = p.header.state in
      let b = p.header.buf in
      let (h0, h1) =
        both (is_plain st c) (all_plain st (unread n q e (increment q it)))
          (sym (ap (all_plain st) (unread_more n q e it t)) ∙ h) in
      rw t (
        rw (is_end-plain st c h0) (
          rw (step_res-plain p it c h0) (elim (dec_lt b.top max_key_len) [
            | yes l ↦ rw (ltb-true b.top max_key_len l) (
                one_more b.top _ (
                  feed-plain q e n (increment q it)
                    (record p {
                      header = record (p.header) {
                        buf = record { chars = set b.chars b.top c; top = b.top + 1 };
                      };
                    })
                    (omega arith) h1))
            | no l ↦ rw (ltb_false l) (λ k. omega arith, λ k. refl)
          ])))
]
  where
    ltb_false : ¬ (p.header.buf.top < max_key_len) → ltb p.header.buf.top max_key_len ≡ false
    ltb_false l = ground arith

    one_more :
        {P : Type 0} (m k : ℕ) → P ↔ (max_key_len < m + 1 + k) → P ↔ (max_key_len < m + suc k)
    one_more m k f = (λ x. omega (arith, f.0 x), λ x. f.1 (omega arith))

-- In a state that collects a text, a response of nothing but such bytes makes the parser write
-- outside of its key buffer exactly when they are more than the buffer has room for.
pub parser_response-overflow :
    (s : Stream) (r : ResponseHeader)
    → IsValid s.io
    → r.header.buf.top ≤ max_key_len
    → all_plain r.header.state (unread (total s.io.que) s.io.que s.io.writepos s.io.readpos) ≡ true
    → (parser_response s r ≡ none)
      ↔ (max_key_len < r.header.buf.top + gap s.io.que s.io.writepos s.io.readpos)
unfolding parser_response
parser_response-overflow s r v ht h =
    let n = total s.io.que in
    let o = feed step_res done_res s.io.que n s.io.writepos s.io.readpos (enter_res r) in
    let l =
      length-unread s.io.que s.io.writepos v.filled v.write_at n s.io.readpos v.read_at
        (gap-le-total s.io.que s.io.writepos s.io.readpos v.write_at v.read_at) in
    let f = feed-plain s.io.que s.io.writepos n s.io.readpos (enter_res r) ht h in
    (λ k. omega (arith, l, f.0 (is_none o k)), λ k. is_fault o (f.1 (omega (arith, l))))
  where
    is_none : (o : Outcome ResParse × Iterator) → returned_res s o ≡ none → o.0 ≡ fault
    is_none (more p, at) k = absurd cc
    is_none (failed p, at) k = absurd cc
    is_none (fault, at) k = refl

    is_fault : (o : Outcome ResParse × Iterator) → o.0 ≡ fault → returned_res s o ≡ none
    is_fault (more p, at) k = absurd cc
    is_fault (failed p, at) k = absurd cc
    is_fault (fault, at) k = refl
