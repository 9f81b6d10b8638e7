-- ===== src/Http/Status.antt =====
-- The status of a response in its first line: `%u`, `MoveBufTo(uint32_t&)` and `sscanf`.
use mtrpc.Base.{
  ltb-true, not, Bool, ◌&&◌, ℕ, zero, suc, ◌+◌, ◌-◌, ◌*◌, ◌/◌, ◌%◌, ◌^◌, ◌<◌, ◌≤◌, ◌≡◌, refl, ap,
  arith, true, false, Bool-cases, inl, inr, [], ◌∷◌, some, ltb, ◌==◌, length, length-append,
}
use mathlib.Core.Path.{subst}
use mtrpc.Text.{Bytes, digits, decimal, is_digit, scan_u32}
use mtrpc.Text.Decimal.{AllDigits, digits-AllDigits, digits-cons}
use mtrpc.Http.{move_buf_to_u32, skip_and_take, take_text}
use mtrpc.Http.Token.{ready, holding, no_nul, all_in, zeros, take_text-zeros}
use mtrpc.Http.Words.{in_path, in_line, is_word, Word}

abbrev tens : ℕ → ℕ
tens zero = 1
tens (suc k) = 10 * tens k

length-digits : (f n k : ℕ) → n < tens (suc k) → length (digits f n) ≤ suc k
unfolding digits
length-digits zero n k h = omega arith
length-digits (suc f) n zero h = rw (below n h) (omega arith)
  where
    below : (n : ℕ) → n < 10 → ltb n 10 ≡ true
    below n h = ground arith
length-digits (suc f) n (suc k) h = elim (Bool-cases (ltb n 10)) [
  | inl t ↦ rw t (omega arith)
  | inr t ↦ rw t (
      omega (
        arith,
        length-append (digits f (n / 10)) ((b'0' + n % 10) ∷ []),
        length-digits f (n / 10) k (less n (tens (suc k)) h),
      ))
]
  where
    less : (n t : ℕ) → n < 10 * t → n / 10 < t
    less n t h = omega arith

digit_word : (c : ℕ) → is_digit c ≡ true → ((c == b' ') ≡ false) × ((c == 0) ≡ false)
digit_word c h = (ground (arith, h), ground (arith, h))

digits-no_nul : (w : Bytes) → AllDigits w → no_nul w ≡ true
digits-no_nul [] a = refl
digits-no_nul (c ∷ w) a = let (x, y) = digit_word c a.0 in rw y (digits-no_nul w a.1)

digits-all_in :
    (f : ℕ → Bool) (w : Bytes)
    → ((c : ℕ) → is_digit c ≡ true → f c ≡ true)
    → AllDigits w
    → all_in f w ≡ true
digits-all_in f [] h a = refl
digits-all_in f (c ∷ w) h a = rw (h c a.0) (digits-all_in f w h a.1)

pub decimal-Word : (n : ℕ) → n < 2 ^ 32 → Word in_path 255 (decimal n)
unfolding decimal
decimal-Word n h =
    let (c, r, e, d) = digits-cons (suc n) n (omega arith) in
    let a = subst AllDigits e (digits-AllDigits (suc n) n) in
    record {
      first = c;
      rest = r;
      is = e;
      no_blank = (digit_word c d).0;
      nulless = digits-no_nul (c ∷ r) a;
      all = digits-all_in in_path (c ∷ r) (λ c d. rw (digit_word c d).0 refl) a;
      short = ground (arith, ap length e, length-digits (suc n) n 9 (below n h));
    }
  where
    below : (n : ℕ) → n < 2 ^ 32 → n < tens 10
    below n h = omega arith

-- A number as the value of a header.
pub decimal-is_word : (n : ℕ) → n < 2 ^ 64 → is_word in_line 253 (decimal n) ≡ true
unfolding decimal
decimal-is_word n h =
    let (c, r, e, d) = digits-cons (suc n) n (omega arith) in
    let a = subst AllDigits e (digits-AllDigits (suc n) n) in
    rw e (
      joined (c == b' ') _ _ _ (digit_word c d).0 (digits-no_nul (c ∷ r) a)
        (digits-all_in in_line (c ∷ r) in_a_line a)
        (ltb-true (length r) 253
          (omega (arith, ap length e, length-digits (suc n) n 19 (below n h)))))
  where
    below : (n : ℕ) → n < 2 ^ 64 → n < tens 20
    below n h = omega arith

    in_a_line : (c : ℕ) → is_digit c ≡ true → in_line c ≡ true
    in_a_line c d = ground (arith, d)

    joined :
        (a b c d : Bool)
        → a ≡ false
        → b ≡ true
        → c ≡ true
        → d ≡ true
        → (not a && (b && (c && d))) ≡ true
    joined a b c d h i j k = ground (arith, h, i, j, k)

held-take_text :
    (c : ℕ) (w : Bytes)
    → no_nul (c ∷ w) ≡ true
    → length w < 255
    → take_text (holding (c ∷ w)).chars ≡ some (c ∷ w, zeros 256)
held-take_text c w a h =
    take_text-zeros (c ∷ w) (256 - suc (length w)) 256 a (omega arith) (omega arith)

held-skip_and_take :
    (c : ℕ) (w : Bytes)
    → (c == b' ') ≡ false
    → no_nul (c ∷ w) ≡ true
    → length w < 255
    → skip_and_take (holding (c ∷ w)).chars ≡ some (c ∷ w, zeros 256)
unfolding skip_and_take
held-skip_and_take c w b a h = rw b (held-take_text c w a h)

-- `MoveBufTo` of a number.
pub move_buf_to_u32-text :
    (c : ℕ) (w : Bytes) (n : ℕ)
    → (c == b' ') ≡ false
    → no_nul (c ∷ w) ≡ true
    → length w < 255
    → move_buf_to_u32 (holding (c ∷ w)) n ≡ some (ready 0, scan_u32 (c ∷ w) n)
unfolding move_buf_to_u32
move_buf_to_u32-text c w n b a h =
    rw (move_buf_to_u32, held-skip_and_take c w b a h) (rw (held-take_text c w a h) refl)
