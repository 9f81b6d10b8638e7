-- ===== src/Http/Blanks.antt =====
-- `strtol` and `strtoull` of a value with a blank behind it, and what they return of the headers
-- that were read.
use mtrpc.Base.{
  ℕ, ◌+◌, ◌-◌, ◌*◌, ◌≡◌, refl, ap, ◌∙◌, [], ◌∷◌, Option, none, some, Bool-cases, inl, inr, ◌^◌, ℤ,
  pos,
}
use mathlib.Core.Option
use mtrpc.Text.{
  Bytes, bytes_eq, find, is_digit, is_space, skip_space, read_digits, head_or, scan_signed, strtol,
  strtoull, to_int32,
}
use mtrpc.Http.{Headers, HttpHeader, get_content_length, get_seq, content_length_key, seq_key}
use mtrpc.Http.Words.{with_blank, blanks}

read_digits-with_blank : (n : ℕ) (s : Bytes) → read_digits n (with_blank s) ≡ read_digits n s
unfolding read_digits
read_digits-with_blank n [] = refl
read_digits-with_blank n (c ∷ s) = elim (Bool-cases (is_digit c)) [
  | inl t ↦ rw t (read_digits-with_blank (n * 10 + (c - b'0')) s)
  | inr t ↦ rw t refl
]

head_digit : (s : Bytes) → is_digit (head_or (with_blank s)) ≡ is_digit (head_or s)
head_digit [] = refl
head_digit (c ∷ s) = refl

scan-with_blank : (c : ℕ) (s : Bytes) → scan_signed (c ∷ with_blank s) ≡ scan_signed (c ∷ s)
unfolding scan_signed
scan-with_blank c s =
    rw (head_digit s, read_digits-with_blank 0 s, read_digits-with_blank 0 (c ∷ s)) refl

scanned-with_blank :
    (s : Bytes) → scan_signed (skip_space (with_blank s)) ≡ scan_signed (skip_space s)
unfolding skip_space
scanned-with_blank [] = refl
scanned-with_blank (c ∷ s) = elim (Bool-cases (is_space c)) [
  | inl t ↦ rw t (scanned-with_blank s)
  | inr t ↦ rw t (scan-with_blank c s)
]

strtol-with_blank : (s : Bytes) → strtol (with_blank s) ≡ strtol s
unfolding strtol
strtol-with_blank s = rw (scanned-with_blank s) refl

strtoull-with_blank : (s : Bytes) → strtoull (with_blank s) ≡ strtoull s
unfolding strtoull
strtoull-with_blank s = rw (scanned-with_blank s) refl

find-blanks : (hs : Headers) (k : Bytes) → find (blanks hs) k ≡ Option.map with_blank (find hs k)
unfolding find
find-blanks [] k = refl
find-blanks ((j, v) ∷ hs) k = elim (Bool-cases (bytes_eq j k)) [
  | inl t ↦ rw t refl
  | inr t ↦ rw t (find-blanks hs k)
]

length_of : Option Bytes → ℤ
length_of o = elim o [ none ↦ pos 0 | some v ↦ to_int32 (strtol v) ]

seq_of : Option Bytes → ℕ
seq_of o = elim o [ none ↦ 2 ^ 64 - 1 | some v ↦ strtoull v ]

length_of-map : (o : Option Bytes) → length_of (Option.map with_blank o) ≡ length_of o
unfolding length_of
length_of-map none = refl
length_of-map (some v) = ap to_int32 (strtol-with_blank v)

seq_of-map : (o : Option Bytes) → seq_of (Option.map with_blank o) ≡ seq_of o
unfolding seq_of
seq_of-map none = refl
seq_of-map (some v) = strtoull-with_blank v

-- The numbers in the headers.
pub record SameNumbers (h h' : HttpHeader) : Type 0 where
  pub content_length : get_content_length h' ≡ get_content_length h
  pub seq : get_seq h' ≡ get_seq h

pub blanks-SameNumbers : (h h' : HttpHeader) → h'.headers ≡ blanks h.headers → SameNumbers h h'
unfolding get_content_length get_seq length_of seq_of
blanks-SameNumbers h h' e = record {
  content_length =
      ap (λ hs. length_of (find hs content_length_key)) e
      ∙ ap length_of (find-blanks h.headers content_length_key)
      ∙ length_of-map (find h.headers content_length_key);
  seq =
      ap (λ hs. seq_of (find hs seq_key)) e
      ∙ ap seq_of (find-blanks h.headers seq_key)
      ∙ seq_of-map (find h.headers seq_key);
}
