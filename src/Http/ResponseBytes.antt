-- ===== src/Http/ResponseBytes.antt =====
-- A response's bytes, as `SerializeHeader` writes them, in `ParserHeader` of the same class.
use mtrpc.Base.{ℕ, ◌+◌, ◌≡◌, ◌<◌, refl, ◌∙◌, true, false, [], ◌∷◌, length, set, ltb-true, ◌==◌}
use mtrpc.Ring.{Iterator}
use mtrpc.Text.{Bytes, assign, scan_u32}
use mtrpc.Http.{
  ParserState, start, res_status, res_status_message_r, res_status_message_n, res_key, res_value_r,
  res_value_n, res_end_r, KeyBuf, Headers, is_end, put,
}
use mtrpc.Http.Feed.{more}
use mtrpc.Http.Response.{ResParse, switch_res, step_res, done_res, push_res}
use mtrpc.Http.Runs.{Runs, stop, read}
use mtrpc.Http.Token.{
  ready, holding, text-Runs, move_buf_to-text, move_buf_to-blank, no_nul, all_in,
}
use mtrpc.Http.Overflow.{is_plain, step_res-plain}
use mtrpc.Http.Status.{move_buf_to_u32-text}

-- A state of the parser.
abbrev pub at_res : ParserState → KeyBuf → Headers → Iterator → Bytes → ℕ → Bytes → Bytes → ResParse
at_res st b hs bs v n m k = record {
  header = record { state = st; buf = b; headers = hs; body_start = bs; version = v };
  status = n;
  status_msg = m;
  key = k;
  value = [];
}

abbrev in_state : ParserState → ResParse → KeyBuf → ResParse
in_state st p b = record p { header = record (p.header) { state = st; buf = b } }

push_res-below :
    (p : ResParse) (c : ℕ)
    → p.header.buf.top < 256
    → push_res p c
      ≡ more (record p {
        header = record (p.header) {
          buf = record {
            chars = set p.header.buf.chars p.header.buf.top c;
            top = p.header.buf.top + 1;
          };
        };
      })
unfolding put
push_res-below p c h = rw (ltb-true p.header.buf.top 256 h) refl

module _ (hs : Headers) (bs : Iterator) (v : Bytes) (n : ℕ) (m k : Bytes) where
  -- A text in a state that collects one.
  pub gathers :
      (st : ParserState) (x c : ℕ) (w : Bytes)
      → is_end st ≡ false
      → length w < 255
      → all_in (is_plain st) (c ∷ w) ≡ true
      → Runs step_res done_res
          (at_res st (ready x) hs bs v n m k)
          (c ∷ w)
          (at_res st (holding (c ∷ w)) hs bs v n m k)
  gathers st x c w e h a =
      text-Runs step_res done_res (in_state st) (is_plain st)
        (λ q b it d l e.
          step_res-plain (in_state st q b) it d e ∙ push_res-below (in_state st q b) d l)
        (λ q b. e) (at_res st (ready x) hs bs v n m k) x c w h a

  one :
      {q q' : ResParse} {c : ℕ}
      → done_res q ≡ false
      → ((it : Iterator) → step_res q it c ≡ more q')
      → Runs step_res done_res q (c ∷ []) q'
  one d s = read d s stop

  -- The version is thrown away.
  pub version_passes :
      (c : ℕ) (w : Bytes)
      → k ≡ []
      → (c == b' ') ≡ false
      → no_nul (c ∷ w) ≡ true
      → length w < 255
      → Runs step_res done_res
          (at_res start (holding (c ∷ w)) hs bs v n m k)
          (b' ' ∷ [])
          (at_res res_status (ready 0) hs bs v n m [])
  unfolding step_res switch_res
  version_passes c w e b a h = one refl (λ it. rw e (rw (move_buf_to-text c w [] b a h) refl))

  pub status_ends :
      (c : ℕ) (w : Bytes)
      → (c == b' ') ≡ false
      → no_nul (c ∷ w) ≡ true
      → length w < 255
      → Runs step_res done_res
          (at_res res_status (holding (c ∷ w)) hs bs v n m k)
          (b' ' ∷ [])
          (at_res res_status_message_r (ready 0) hs bs v (scan_u32 (c ∷ w) n) m k)
  unfolding step_res switch_res
  status_ends c w b a h = one refl (λ it. rw (move_buf_to_u32-text c w n b a h) refl)

  pub message_ends :
      (c : ℕ) (w : Bytes)
      → m ≡ []
      → (c == b' ') ≡ false
      → no_nul (c ∷ w) ≡ true
      → length w < 255
      → Runs step_res done_res
          (at_res res_status_message_r (holding (c ∷ w)) hs bs v n m k)
          (b'\r' ∷ b'\n' ∷ [])
          (at_res res_key (ready 0) hs bs v n (c ∷ w) k)
  unfolding step_res switch_res
  message_ends c w e b a h =
      read {p' = at_res res_status_message_n (ready 0) hs bs v n (c ∷ w) k} refl
        (λ it. rw e (rw (move_buf_to-text c w [] b a h) refl)) (one refl (λ it. refl))

  pub res_key_ends :
      (c : ℕ) (w : Bytes)
      → k ≡ []
      → (c == b' ') ≡ false
      → no_nul (c ∷ w) ≡ true
      → length w < 255
      → Runs step_res done_res
          (at_res res_key (holding (c ∷ w)) hs bs v n m k)
          (b':' ∷ [])
          (at_res res_value_r (ready 0) hs bs v n m (c ∷ w))
  unfolding step_res switch_res
  res_key_ends c w e b a h = one refl (λ it. rw e (rw (move_buf_to-text c w [] b a h) refl))

  pub res_value_ends :
      (c : ℕ) (w : Bytes)
      → (c == b' ') ≡ false
      → no_nul (c ∷ w) ≡ true
      → length w < 254
      → Runs step_res done_res
          (at_res res_value_r (holding (b' ' ∷ c ∷ w)) hs bs v n m k)
          (b'\r' ∷ b'\n' ∷ [])
          (at_res res_key (ready b' ') (assign hs k (c ∷ w)) bs v n m [])
  unfolding step_res switch_res
  res_value_ends c w b a h =
      read {p' = at_res res_value_n (ready b' ') (assign hs k (c ∷ w)) bs v n m []} refl
        (λ it. rw (move_buf_to-blank c w [] b a h) refl) (one refl (λ it. refl))

  pub res_headers_end :
      (x : ℕ)
      → Runs step_res done_res
          (at_res res_key (ready x) hs bs v n m k)
          (b'\r' ∷ [])
          (at_res res_end_r (ready x) hs bs v n m k)
  unfolding step_res switch_res
  res_headers_end x = one refl (λ it. refl)
