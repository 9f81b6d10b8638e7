-- ===== src/Text/Decimal.antt =====
-- What snprintf writes in decimal, strtol and strtoull read back.
use mtrpc.Base.{
  ℕ, zero, suc, ◌+◌, ◌-◌, ◌*◌, ◌/◌, ◌%◌, ◌^◌, ◌<◌, ◌≡◌, ◌≢◌, refl, true, false, [], ◌∷◌, ◌++◌,
  arith, ltb, Bool-cases, inl, inr,
}
use native.Mathlib.Decide.{dec_lt}
use mathlib.Core.List.{concat-ne-nil}
use mtrpc.Text.{
  Bytes, digits, decimal, is_digit, skip_space, read_digits, scan_signed, strtoull, strtol,
  scan_u32,
}

abbrev pub AllDigits : Bytes → Type 0
AllDigits [] = Unit {0}
AllDigits (c ∷ cs) = (is_digit c ≡ true) × AllDigits cs

AllDigits-concat :
    (xs : Bytes) (d : ℕ) → AllDigits xs → is_digit d ≡ true → AllDigits (xs ++ (d ∷ []))
AllDigits-concat [] d h k = (k, tt)
AllDigits-concat (x ∷ xs) d h k = (h.0, AllDigits-concat xs d h.1 k)

digit : (n : ℕ) → n < 10 → is_digit (b'0' + n) ≡ true
digit n h = ground arith

pub digits-AllDigits : (f n : ℕ) → AllDigits (digits f n)
unfolding digits
digits-AllDigits zero n = tt
digits-AllDigits (suc f) n = elim (dec_lt n 10) [
  | yes p ↦ rw (small n p) (digit n p, tt)
  | no p ↦ rw (large n p) (
      AllDigits-concat (digits f (n / 10)) (b'0' + n % 10) (digits-AllDigits f (n / 10))
        (digit (n % 10) (omega arith)))
]
  where
    small : (n : ℕ) → n < 10 → ltb n 10 ≡ true
    small n h = ground arith

    large : (n : ℕ) → ¬ (n < 10) → ltb n 10 ≡ false
    large n h = ground arith

read_digits-concat :
    (xs : Bytes) (d acc : ℕ)
    → AllDigits xs
    → is_digit d ≡ true
    → read_digits acc (xs ++ (d ∷ [])) ≡ read_digits acc xs * 10 + (d - b'0')
unfolding read_digits
read_digits-concat [] d acc h k = rw k
read_digits-concat (x ∷ xs) d acc h k =
    rw h.0 (read_digits-concat xs d (acc * 10 + (x - b'0')) h.1 k)

read_digits-digits : (f n : ℕ) → n < f → read_digits 0 (digits f n) ≡ n
unfolding digits
read_digits-digits zero n h = absurd (omega arith)
read_digits-digits (suc f) n h = elim (Bool-cases (ltb n 10)) [
  | inl p ↦ rw p (unfold read_digits in ground (arith, digit n))
  | inr p ↦ rw p (
      ground (
        arith,
        read_digits-concat (digits f (n / 10)) (b'0' + n % 10) 0 (digits-AllDigits f (n / 10))
            (digit (n % 10) (omega arith)),
        read_digits-digits f (n / 10),
      ))
]

digits-ne-nil : (f n : ℕ) → n < f → digits f n ≢ []
unfolding digits
digits-ne-nil zero n h = absurd (omega arith)
digits-ne-nil (suc f) n h = elim (Bool-cases (ltb n 10)) [
  | inl p ↦ rw p (λ e. cc)
  | inr p ↦ rw p (concat-ne-nil (b'0' + n % 10) (digits f (n / 10)))
]

pub digits-cons :
    (f n : ℕ) → n < f → (c : ℕ) × (r : Bytes) × (digits f n ≡ c ∷ r) × (is_digit c ≡ true)
digits-cons f n h = go (digits f n) refl (digits-AllDigits f n)
  where
    go :
        (t : Bytes)
        → digits f n ≡ t
        → AllDigits t
        → (c : ℕ) × (r : Bytes) × (digits f n ≡ c ∷ r) × (is_digit c ≡ true)
    go [] e a = absurd (digits-ne-nil f n h e)
    go (c ∷ r) e a = (c, r, e, a.0)

-- A decimal numeral is scanned as itself, with no sign and no blanks.
skip_space-digit : (c : ℕ) (r : Bytes) → is_digit c ≡ true → skip_space (c ∷ r) ≡ c ∷ r
unfolding skip_space
skip_space-digit c r h = ground arith

scan_signed-digit :
    (c : ℕ) (r : Bytes)
    → is_digit c ≡ true
    → scan_signed (c ∷ r)
      ≡ record { negative = false; found = true; magnitude = read_digits 0 (c ∷ r) }
unfolding scan_signed
scan_signed-digit c r h = ground arith

scan-decimal :
    (n : ℕ)
    → scan_signed (skip_space (decimal n))
      ≡ record { negative = false; found = true; magnitude = n }
unfolding decimal
scan-decimal n =
    let (c, r, e, d) = digits-cons (suc n) n (omega arith) in
    rw (
      e,
      skip_space-digit c r d,
      scan_signed-digit c r d,
      ← e,
      read_digits-digits (suc n) n (omega arith),
    )

-- strtoull reads back a 64-bit number that snprintf has printed.
pub strtoull-decimal : (n : ℕ) → n < 2 ^ 64 → strtoull (decimal n) ≡ n
unfolding strtoull
strtoull-decimal n h = rw (scan-decimal n) (ground arith)

pub strtol-decimal : (n : ℕ) → n < 2 ^ 63 → strtol (decimal n) ≡ n
unfolding strtol
strtol-decimal n h = rw (scan-decimal n) (ground arith)

pub scan_u32-decimal : (n m : ℕ) → n < 2 ^ 32 → scan_u32 (decimal n) m ≡ n
unfolding scan_u32
scan_u32-decimal n m h = rw (scan-decimal n) (ground arith)
