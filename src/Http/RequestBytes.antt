-- ===== src/Http/RequestBytes.antt =====
-- A request's bytes, as `SerializeHeader` writes them, in `ParserHeader` of the same class.
use mtrpc.Base.{
  ℕ, suc, ◌+◌, ◌≡◌, ◌<◌, refl, ◌∙◌, arith, Bool, true, false, [], ◌∷◌, length, ◌==◌, set, ltb-true,
}
use mtrpc.Ring.{Iterator}
use mtrpc.Text.{Bytes, assign}
use mtrpc.Http.{
  ParserState, req_path, req_vesion_r, req_vesion_n, req_key, req_value_r, req_value_n, req_end_r,
  KeyBuf, Headers, is_end, put,
}
use mtrpc.Http.Feed.{more}
use mtrpc.Http.Request.{ReqParse, switch_req, step_req, done_req, push}
use mtrpc.Http.Runs.{Runs, stop, read}
use mtrpc.Http.Token.{
  ready, holding, text-Runs, move_buf_to-text, move_buf_to-blank, no_nul, all_in,
}
use mtrpc.Http.Words.{in_path, in_line, in_key}
use mtrpc.Http.Overflow.{not-true, neither}

-- A state of the parser.
abbrev pub at : ParserState → KeyBuf → Headers → Iterator → Bytes → Bytes → Bytes → Bytes → ReqParse
at st b hs bs v m p k = record {
  header = record { state = st; buf = b; headers = hs; body_start = bs; version = v };
  method = m;
  path = p;
  key = k;
  value = [];
}

-- The bytes that a state puts into the key buffer.
abbrev plain : ParserState → ℕ → Bool
plain req_path c = in_path c
plain req_vesion_r c = in_line c
plain req_key c = in_key c
plain req_value_r c = in_line c
plain _ c = false

abbrev in_state : ParserState → ReqParse → KeyBuf → ReqParse
in_state st p b = record p { header = record (p.header) { state = st; buf = b } }

step_below :
    (p : ReqParse) (it : Iterator) (c : ℕ)
    → p.header.buf.top < 256
    → step_req p it c ≡ switch_req p.header.state p it c
unfolding step_req
step_below p it c h = ground (arith, h)

switch-plain :
    (st : ParserState) (p : ReqParse) (it : Iterator) (c : ℕ)
    → plain st c ≡ true
    → switch_req st p it c ≡ push p c
unfolding switch_req
switch-plain req_path p it c h = rw (not-true h) refl
switch-plain req_vesion_r p it c h = rw (not-true h) refl
switch-plain req_value_r p it c h = rw (not-true h) refl
switch-plain req_key p it c h = let n = neither (c == b':') (c == b'\r') h in rw n.0 (rw n.1 refl)
switch-plain _ p it c h = absurd cc

push-below :
    (p : ReqParse) (c : ℕ)
    → p.header.buf.top < 256
    → push p c
      ≡ more (record p {
        header = record (p.header) {
          buf = record {
            chars = set p.header.buf.chars p.header.buf.top c;
            top = p.header.buf.top + 1;
          };
        };
      })
unfolding put
push-below p c h = rw (ltb-true p.header.buf.top 256 h) refl

pub not_empty : (w : Bytes) → (suc (length w) == 0) ≡ false
not_empty w = ground arith

module _ (hs : Headers) (bs : Iterator) (v m p k : Bytes) where
  -- A text in a state that collects one.
  pub collects :
      (st : ParserState) (x c : ℕ) (w : Bytes)
      → is_end st ≡ false
      → length w < 255
      → all_in (plain st) (c ∷ w) ≡ true
      → Runs step_req done_req
          (at st (ready x) hs bs v m p k)
          (c ∷ w)
          (at st (holding (c ∷ w)) hs bs v m p k)
  collects st x c w n h a =
      text-Runs step_req done_req (in_state st) (plain st)
        (λ q b it d l e.
          step_below (in_state st q b) it d l
          ∙ switch-plain st (in_state st q b) it d e
          ∙ push-below (in_state st q b) d l)
        (λ q b. n) (at st (ready x) hs bs v m p k) x c w h a

  one :
      {q q' : ReqParse} {c : ℕ}
      → done_req q ≡ false
      → ((it : Iterator) → step_req q it c ≡ more q')
      → Runs step_req done_req q (c ∷ []) q'
  one d s = read d s stop

  pub version_ends :
      Runs step_req done_req
        (at req_vesion_n (ready 0) hs bs v m p k)
        (b'\n' ∷ [])
        (at req_key (ready 0) hs bs v m p k)
  unfolding step_req switch_req
  version_ends = one refl (λ it. refl)

  pub value_ends :
      Runs step_req done_req
        (at req_value_n (ready b' ') hs bs v m p k)
        (b'\n' ∷ [])
        (at req_key (ready b' ') hs bs v m p k)
  unfolding step_req switch_req
  value_ends = one refl (λ it. refl)

  pub path_ends :
      (c : ℕ) (w : Bytes)
      → p ≡ []
      → (c == b' ') ≡ false
      → no_nul (c ∷ w) ≡ true
      → length w < 255
      → Runs step_req done_req
          (at req_path (holding (c ∷ w)) hs bs v m p k)
          (b' ' ∷ [])
          (at req_vesion_r (ready 0) hs bs v m (c ∷ w) k)
  unfolding switch_req
  path_ends c w e b n h = one refl (λ it.
      step_below (at req_path (holding (c ∷ w)) hs bs v m p k) it b' ' (omega arith)
      ∙ rw e (rw (move_buf_to-text c w [] b n h) (rw (not_empty w) refl)))

  pub line_ends :
      (c : ℕ) (w : Bytes)
      → (c == b' ') ≡ false
      → no_nul (c ∷ w) ≡ true
      → length w < 255
      → Runs step_req done_req
          (at req_vesion_r (holding (c ∷ w)) hs bs v m p k)
          (b'\r' ∷ [])
          (at req_vesion_n (ready 0) hs bs (c ∷ w) m p k)
  unfolding switch_req
  line_ends c w b n h = one refl (λ it.
      step_below (at req_vesion_r (holding (c ∷ w)) hs bs v m p k) it b'\r' (omega arith)
      ∙ rw (move_buf_to-text c w [] b n h) refl)

  pub key_ends :
      (c : ℕ) (w : Bytes)
      → k ≡ []
      → (c == b' ') ≡ false
      → no_nul (c ∷ w) ≡ true
      → length w < 255
      → Runs step_req done_req
          (at req_key (holding (c ∷ w)) hs bs v m p k)
          (b':' ∷ [])
          (at req_value_r (ready 0) hs bs v m p (c ∷ w))
  unfolding switch_req
  key_ends c w e b n h = one refl (λ it.
      step_below (at req_key (holding (c ∷ w)) hs bs v m p k) it b':' (omega arith)
      ∙ rw e (rw (move_buf_to-text c w [] b n h) (rw (not_empty w) refl)))

  pub value_returns :
      (c : ℕ) (w : Bytes)
      → (c == b' ') ≡ false
      → no_nul (c ∷ w) ≡ true
      → length w < 254
      → Runs step_req done_req
          (at req_value_r (holding (b' ' ∷ c ∷ w)) hs bs v m p k)
          (b'\r' ∷ [])
          (at req_value_n (ready b' ') (assign hs k (c ∷ w)) bs v m p [])
  unfolding switch_req
  value_returns c w b n h = one refl (λ it.
      step_below (at req_value_r (holding (b' ' ∷ c ∷ w)) hs bs v m p k) it b'\r' (omega arith)
      ∙ rw (move_buf_to-blank c w [] b n h) refl)

  pub headers_end :
      (x : ℕ)
      → Runs step_req done_req
          (at req_key (ready x) hs bs v m p k)
          (b'\r' ∷ [])
          (at req_end_r (ready x) hs bs v m p k)
  unfolding step_req switch_req
  headers_end x = one refl (λ it. refl)
