-- ===== src/Http/Numbers.antt =====
-- `SetContentLength` against `GetContentLength`, and `SetSeq` against `GetSeq`.
use mtrpc.Base.{
  ℕ, ◌-◌, ◌^◌, ◌≡◌, ◌<◌, refl, ap, ◌∙◌, Option, none, some, arith, ℤ, pos, negsuc, if◌then◌else◌,
  ltb, ltb-true,
}
use native.Mathlib.Nat.{mod-eq_of_lt}
use mtrpc.Text.{Bytes, to_int32, strtol, strtoull, bytes_eq, decimal, find, assign}
use mtrpc.Text.Decimal.{strtol-decimal, strtoull-decimal}
use mtrpc.Text.Map.{find-assign}
use mtrpc.Http.{
  HttpHeader, set_content_length, get_content_length, set_seq, get_seq, content_length_key, seq_key,
}

get_seq_of :
    (h : HttpHeader) (n : ℕ)
    → n < 2 ^ 64
    → find h.headers seq_key ≡ some (decimal n)
    → get_seq h ≡ n
unfolding get_seq
get_seq_of h n l e = ap number e ∙ strtoull-decimal n l
  where
    number : Option Bytes → ℕ
    number o = elim o [ none ↦ 2 ^ 64 - 1 | some v ↦ strtoull v ]

-- A sequence number comes back as it was set, whether the content length is set before or after it.
pub get_seq-set_seq :
    (h : HttpHeader) (n m : ℕ)
    → n < 2 ^ 64
    → (get_seq (set_content_length (set_seq h n) m) ≡ n)
      × (get_seq (set_seq (set_content_length h m) n) ≡ n)
unfolding set_seq set_content_length bytes_eq
get_seq-set_seq h n m l = (
  get_seq_of (set_content_length (set_seq h n) m) n l (
      find-assign (assign h.headers seq_key (decimal n)) content_length_key seq_key (decimal m)
      ∙ find-assign h.headers seq_key seq_key (decimal n)),
  get_seq_of (set_seq (set_content_length h m) n) n l
      (find-assign (assign h.headers content_length_key (decimal m)) seq_key seq_key (decimal n)),
)

get_content_length_of :
    (h : HttpHeader) (n : ℕ)
    → n < 2 ^ 32
    → find h.headers content_length_key ≡ some (decimal n)
    → get_content_length h ≡ (if ltb n (2 ^ 31) then pos n else negsuc (2 ^ 32 - 1 - n))
unfolding get_content_length
get_content_length_of h n l e =
    ap number e ∙ rw (strtol-decimal n (omega arith)) (rw (mod-eq_of_lt l) refl)
  where
    number : Option Bytes → ℤ
    number o = elim o [ none ↦ pos 0 | some v ↦ to_int32 (strtol v) ]

-- A content length comes back as it was set where it is below 2^31; from there on what comes back
-- is the negative number that is 2^32 less.
pub get_content_length-set_content_length :
    (h : HttpHeader) (n m : ℕ)
    → n < 2 ^ 32
    → get_content_length (set_seq (set_content_length h n) m)
      ≡ (if ltb n (2 ^ 31) then pos n else negsuc (2 ^ 32 - 1 - n))
unfolding set_content_length set_seq bytes_eq
get_content_length-set_content_length h n m l =
    get_content_length_of (set_seq (set_content_length h n) m) n l (
      find-assign (assign h.headers content_length_key (decimal n)) seq_key content_length_key
        (decimal m)
      ∙ find-assign h.headers content_length_key content_length_key (decimal n))

pub get_content_length-small :
    (h : HttpHeader) (n : ℕ) → n < 2 ^ 31 → get_content_length (set_content_length h n) ≡ pos n
unfolding set_content_length bytes_eq
get_content_length-small h n l =
    get_content_length_of (set_content_length h n) n (omega arith)
      (find-assign h.headers content_length_key content_length_key (decimal n))
    ∙ rw (ltb-true n (2 ^ 31) l) refl
