-- ===== src/Http/Words.antt =====
-- The texts that a header can carry: without NULs and the bytes that end them, not too long, and not
-- starting with a blank.
use mtrpc.Base.{
  ℕ, ◌≡◌, ◌<◌, refl, ap, sym, ◌∙◌, arith, Bool, true, false, not, ◌&&◌, ◌||◌, [], ◌∷◌, ◌++◌, length,
  append_assoc, append-nil, Bool-cases, inl, inr, ◌==◌, ltb,
}
use mtrpc.Text.{Bytes, bytes_lt, bytes_eq, assign}
use mtrpc.Http.{Headers}
use mtrpc.Http.Serialize.{c_str}
use mtrpc.Http.Token.{no_nul, all_in}
use mtrpc.Http.Overflow.{both}

-- The bytes that do not end a path, a version or a value, and a key.
abbrev pub in_path : ℕ → Bool
in_path c = not (c == b' ')

abbrev pub in_line : ℕ → Bool
in_line c = not (c == b'\r')

abbrev pub in_key : ℕ → Bool
in_key c = not (c == b':' || c == b'\r')

abbrev pub is_word : (ℕ → Bool) → ℕ → Bytes → Bool
is_word f n [] = false
is_word f n (c ∷ w) = not (c == b' ') && (no_nul (c ∷ w) && (all_in f (c ∷ w) && ltb (length w) n))

-- What a word is.
pub record Word (f : ℕ → Bool) (n : ℕ) (s : Bytes) : Type 0 where
  pub first : ℕ
  pub rest : Bytes
  pub is : s ≡ first ∷ rest
  pub no_blank : (first == b' ') ≡ false
  pub nulless : no_nul (first ∷ rest) ≡ true
  pub all : all_in f (first ∷ rest) ≡ true
  pub short : length rest < n

pub is_word-Word : (f : ℕ → Bool) (n : ℕ) (s : Bytes) → is_word f n s ≡ true → Word f n s
is_word-Word f n [] h = absurd cc
is_word-Word f n (c ∷ w) h =
    let (a, h1) = both (not (c == b' ')) _ h in
    let (b, h2) = both (no_nul (c ∷ w)) _ h1 in
    let (d, e) = both (all_in f (c ∷ w)) _ h2 in
    record {
      first = c;
      rest = w;
      is = refl;
      no_blank = ground (arith, a);
      nulless = b;
      all = d;
      short = ground (arith, e);
    }

pub c_str-no_nul : (s : Bytes) → no_nul s ≡ true → c_str s ≡ s
unfolding c_str
c_str-no_nul [] h = refl
c_str-no_nul (c ∷ s) h =
    let (a, b) = both (not (c == 0)) (no_nul s) h in
    let n : (c == 0) ≡ false = ground (arith, a) in rw n (ap (λ t. c ∷ t) (c_str-no_nul s b))

pub no_nul-append : (s t : Bytes) → no_nul s ≡ true → no_nul t ≡ true → no_nul (s ++ t) ≡ true
no_nul-append [] t h k = k
no_nul-append (c ∷ s) t h k =
    let (a, b) = both (not (c == 0)) (no_nul s) h in ground (arith, a, no_nul-append s t b k)

pub all_in-append :
    (f : ℕ → Bool) (s t : Bytes) → all_in f s ≡ true → all_in f t ≡ true → all_in f (s ++ t) ≡ true
all_in-append f [] t h k = k
all_in-append f (c ∷ s) t h k =
    let (a, b) = both (f c) (all_in f s) h in rw a (all_in-append f s t b k)

-- The headers of a std::map: the keys go up.
abbrev pub all_below : Bytes → Headers → Bool
all_below k [] = true
all_below k ((j, v) ∷ hs) = bytes_lt k j && all_below k hs

abbrev pub ascends : Headers → Bool
ascends [] = true
ascends ((k, v) ∷ hs) = all_below k hs && ascends hs

-- Headers that can be written and read.
abbrev pub is_line : Bytes × Bytes → Bool
is_line (k, v) = is_word in_key 255 k && is_word in_line 253 v

abbrev pub all_lines : Headers → Bool
all_lines [] = true
all_lines (e ∷ hs) = is_line e && all_lines hs

-- The headers as they are read: each value has a blank behind it.
abbrev pub with_blank : Bytes → Bytes
with_blank v = v ++ b' ' ∷ []

abbrev pub blanks : Headers → Headers
blanks [] = []
blanks ((k, v) ∷ hs) = (k, with_blank v) ∷ blanks hs

abbrev pub assign_all : Headers → Headers → Headers
assign_all m [] = m
assign_all m ((k, v) ∷ hs) = assign_all (assign m k (with_blank v)) hs

abbrev all_above : Bytes → Headers → Bool
all_above k [] = true
all_above k ((j, v) ∷ hs) = bytes_lt j k && all_above k hs

bytes_lt-asym :
    (j k : Bytes) → bytes_lt j k ≡ true → (bytes_eq j k ≡ false) × (bytes_lt k j ≡ false)
unfolding bytes_lt bytes_eq
bytes_lt-asym [] [] h = absurd cc
bytes_lt-asym [] (y ∷ k) h = (refl, refl)
bytes_lt-asym (x ∷ j) [] h = absurd cc
bytes_lt-asym (x ∷ j) (y ∷ k) h = elim (Bool-cases (bytes_lt j k)) [
  | inl b ↦ let (e, f) = bytes_lt-asym j k b in (ground (arith, h, b, e), ground (arith, h, b, f))
  | inr b ↦ (ground (arith, h, b), ground (arith, h, b))
]

assign-last : (m : Headers) (k v : Bytes) → all_above k m ≡ true → assign m k v ≡ m ++ (k, v) ∷ []
unfolding assign
assign-last [] k v h = refl
assign-last ((j, w) ∷ m) k v h =
    let (a, b) = both (bytes_lt j k) (all_above k m) h in
    let (e, f) = bytes_lt-asym j k a in rw e (rw f (ap (λ r. (j, w) ∷ r) (assign-last m k v b)))

-- The keys of the one are below those of the other.
abbrev cross : Headers → Headers → Bool
cross m [] = true
cross m ((k, v) ∷ hs) = all_above k m && cross m hs

all_above-snoc :
    (j k v : Bytes) (m : Headers)
    → all_above j m ≡ true
    → bytes_lt k j ≡ true
    → all_above j (m ++ (k, v) ∷ []) ≡ true
all_above-snoc j k v [] h l = rw l refl
all_above-snoc j k v ((i, w) ∷ m) h l =
    let (a, b) = both (bytes_lt i j) (all_above j m) h in rw a (all_above-snoc j k v m b l)

cross-snoc :
    (m hs : Headers) (k v : Bytes)
    → cross m hs ≡ true
    → all_below k hs ≡ true
    → cross (m ++ (k, v) ∷ []) hs ≡ true
cross-snoc m [] k v h l = refl
cross-snoc m ((j, w) ∷ hs) k v h l =
    let (a, b) = both (all_above j m) (cross m hs) h in
    let (c, d) = both (bytes_lt k j) (all_below k hs) l in
    rw (all_above-snoc j k v m a c) (cross-snoc m hs k v b d)

assign_all-append :
    (m hs : Headers) → cross m hs ≡ true → ascends hs ≡ true → assign_all m hs ≡ m ++ blanks hs
assign_all-append m [] h l = sym (append-nil m)
assign_all-append m ((k, v) ∷ hs) h l =
    let (a, b) = both (all_above k m) (cross m hs) h in
    let (c, d) = both (all_below k hs) (ascends hs) l in
    ap (λ x. assign_all x hs) (assign-last m k (with_blank v) a)
    ∙ assign_all-append (m ++ (k, with_blank v) ∷ []) hs (cross-snoc m hs k (with_blank v) b c) d
    ∙ append_assoc m ((k, with_blank v) ∷ []) (blanks hs)

cross-nil : (hs : Headers) → cross [] hs ≡ true
cross-nil [] = refl
cross-nil ((k, v) ∷ hs) = cross-nil hs

-- Assigned in their order they are the map.
pub assign_all-blanks : (hs : Headers) → ascends hs ≡ true → assign_all [] hs ≡ blanks hs
assign_all-blanks hs h = assign_all-append [] hs (cross-nil hs) h
