-- ===== src/Text.antt =====
-- What the program takes from the C and C++ libraries for text: byte strings, std::map with string
-- keys as an association list in the order of the keys, decimal output of snprintf, and the input
-- side of sscanf("%u"), strtol and strtoull.
pub mod Decimal
pub mod Map
use Prim.Native.Char.{code}
use Prim.Native.String.{String}
use mtrpc.Base.{
  ℕ, zero, suc, ◌+◌, ◌-◌, ◌*◌, ◌/◌, ◌%◌, ◌^◌, Bool, true, false, ◌&&◌, ◌||◌, List, [], ◌∷◌, ◌++◌,
  Option, none, some, ltb, leb, ◌==◌, if◌then◌else◌, ℤ, pos, negsuc,
}

abbrev pub Bytes : Type 0
Bytes = List ℕ

-- The bytes of an ASCII literal.
abbrev pub codes : String → Bytes
codes String.[] = []
codes (String.◌∷◌ c s) = code c ∷ codes s

unfoldable pub bytes_eq : Bytes → Bytes → Bool
bytes_eq [] [] = true
bytes_eq (x ∷ xs) (y ∷ ys) = x == y && bytes_eq xs ys
bytes_eq _ _ = false

-- std::string's `<`
unfoldable pub bytes_lt : Bytes → Bytes → Bool
bytes_lt [] [] = false
bytes_lt [] (y ∷ ys) = true
bytes_lt (x ∷ xs) [] = false
bytes_lt (x ∷ xs) (y ∷ ys) = ltb x y || (x == y && bytes_lt xs ys)

module _ {ℓ} {V : Type ℓ} where
  -- `m.find(k)`
  unfoldable pub find : List (Bytes × V) → Bytes → Option V
  find [] k = none
  find ((j, v) ∷ m) k = if bytes_eq j k then some v else find m k

  -- `m[k] = v`
  unfoldable pub assign : List (Bytes × V) → Bytes → V → List (Bytes × V)
  assign [] k v = (k, v) ∷ []
  assign ((j, w) ∷ m) k v =
      if bytes_eq j k
      then (k, v) ∷ m
      else if bytes_lt k j
      then (k, v) ∷ ((j, w) ∷ m)
      else (j, w) ∷ assign m k v

-- "%u" and "%lu": the decimal digits; the fuel is more than the number.
unfoldable pub digits : ℕ → ℕ → Bytes
digits zero n = []
digits (suc fuel) n =
    let rest = digits fuel (n / 10) ++ ((b'0' + n % 10) ∷ []) in
    if ltb n 10 then (b'0' + n) ∷ [] else rest

unfoldable pub decimal : ℕ → Bytes
unfolding digits
decimal n = digits (suc n) n

abbrev pub is_digit : ℕ → Bool
is_digit c = leb b'0' c && leb c b'9'

-- isspace in the C locale
abbrev pub is_space : ℕ → Bool
is_space c = c == b' ' || (leb 9 c && leb c 13)

unfoldable pub skip_space : Bytes → Bytes
skip_space [] = []
skip_space (c ∷ cs) = if is_space c then skip_space cs else c ∷ cs

-- The leading digits, on top of the number read so far.
unfoldable pub read_digits : ℕ → Bytes → ℕ
read_digits n [] = n
read_digits n (c ∷ cs) =
    let rest = read_digits (n * 10 + (c - b'0')) cs in if is_digit c then rest else n

abbrev pub head_or : Bytes → ℕ
head_or [] = 0
head_or (c ∷ cs) = c

-- A number read with its sign: whether it is negative, whether it has a digit, and its magnitude.
pub record Scanned : Type 0 where
  pub negative : Bool
  pub found : Bool
  pub magnitude : ℕ

unfoldable pub scan_signed : Bytes → Scanned
unfolding read_digits
scan_signed [] = record { negative = false; found = false; magnitude = 0 }
scan_signed (c ∷ cs) =
    if c == b'-'
    then record { negative = true; found = is_digit (head_or cs); magnitude = read_digits 0 cs }
    else if c == b'+'
    then record { negative = false; found = is_digit (head_or cs); magnitude = read_digits 0 cs }
    else record { negative = false; found = is_digit c; magnitude = read_digits 0 (c ∷ cs) }

-- strtoull(s, NULL, 10): saturates at ULLONG_MAX; a minus sign negates modulo 2^64.
unfoldable pub strtoull : Bytes → ℕ
unfolding skip_space scan_signed
strtoull s =
    let n = scan_signed (skip_space s) in
    if leb (2 ^ 64) n.magnitude
    then 2 ^ 64 - 1
    else if n.negative
    then (2 ^ 64 - n.magnitude) % 2 ^ 64
    else n.magnitude

-- The conversion of a `long` with the given bits to `int`.
abbrev pub to_int32 : ℕ → ℤ
to_int32 n =
    if ltb (n % 2 ^ 32) (2 ^ 31) then pos (n % 2 ^ 32) else negsuc (2 ^ 32 - 1 - n % 2 ^ 32)

-- strtol(s, NULL, 10), saturating at LONG_MAX and LONG_MIN, as its 64 bits.
unfoldable pub strtol : Bytes → ℕ
unfolding skip_space scan_signed
strtol s =
    let n = scan_signed (skip_space s) in
    if n.negative
    then (2 ^ 64 - (if leb (2 ^ 63) n.magnitude then 2 ^ 63 else n.magnitude)) % 2 ^ 64
    else if leb (2 ^ 63) n.magnitude
    then 2 ^ 63 - 1
    else n.magnitude

-- sscanf(s, "%u", &n): the new value of `n`, which stays as it is where no number is found.
unfoldable pub scan_u32 : Bytes → ℕ → ℕ
unfolding strtoull
scan_u32 s n = if (scan_signed (skip_space s)).found then strtoull s % 2 ^ 32 else n
