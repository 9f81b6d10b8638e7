-- ===== src/Statistics.antt =====
-- common/serverstat.h and common/serverstat.cpp, `ServerState`: counters and values by name. A
-- counter is a `uint64_t`. The C floats of a value's statistics are a parameter: a type with its
-- order, the conversion of an `unsigned`, and the new average.
pub mod Counters
pub mod Extremes
use mtrpc.Base.{
  ℕ, zero, suc, ◌+◌, ◌-◌, ◌%◌, ◌^◌, Bool, true, false, ◌&&◌, List, [], ◌∷◌, ◌++◌, Option, none,
  some, if◌then◌else◌, ◌==◌, ltb, ℤ, pos, negsuc,
}
use mtrpc.Text.{Bytes, codes, find, assign, decimal}

abbrev pub Counters : Type 0
Counters = List (Bytes × ℕ)

pub record Counts : Type 0 where
  pub countermap0 : Counters
  pub countermap1 : Counters

-- The conversion of an `int` to `uint64_t`.
abbrev pub to_uint64 : ℤ → ℕ
to_uint64 (pos n) = n % 2 ^ 64
to_uint64 (negsuc n) = 2 ^ 64 - 1 - n % 2 ^ 64

-- `registerCounter`
unfoldable pub register_counter : Counts → Bytes → Counts
register_counter s key = record {
  countermap0 = assign s.countermap0 key 0;
  countermap1 = assign s.countermap1 key 0;
}

-- `addCounter` and `addSubCounter` on their maps: `increment` adds 1 like `add`.
abbrev pub add_found : Counters → Bytes → ℕ → Option ℕ → Counters
add_found m key n none = m
add_found m key n (some c) = assign m key ((c + n) % 2 ^ 64)

unfoldable pub add_counter : Counts → Bytes → ℤ → Counts
add_counter s key value = record s {
  countermap0 = add_found s.countermap0 key (to_uint64 value) (find s.countermap0 key);
}

unfoldable pub add_sub_counter : Counts → Bytes → ℤ → Counts
add_sub_counter s key value = record s {
  countermap1 = add_found s.countermap1 key (to_uint64 value) (find s.countermap1 key);
}

-- `CounterToString`: the entries, with whether one stands before that has no comma yet.
abbrev pub comma : Bool → Bytes
comma b = if b then codes ",\n        " else []

abbrev pub entry : Bytes → ℕ → ℕ → Bytes
entry key c d = b'"' ∷ (key ++ codes "\":(" ++ decimal c ++ codes "," ++ decimal d ++ codes ")")

abbrev pub entry_of : Bytes → ℕ → Option ℕ → Option Bytes
entry_of key c none = none
entry_of key c (some d) = if (c == 0) && (d == 0) then none else some (entry key c d)

abbrev pub entry_then : Option Bytes → (Bool → Bytes) → Bytes
entry_then none rest = rest false
entry_then (some e) rest = e ++ rest true

unfoldable pub entries : Counters → Counters → Bool → Bytes
entries m1 [] is_start = codes "}\n"
entries m1 ((key, c) ∷ m) is_start =
    comma is_start ++ entry_then (entry_of key c (find m1 key)) (λ b. entries m1 m b)

unfoldable pub counter_to_string : Counts → Bytes
counter_to_string s =
    codes "----------------\n       {" ++ entries s.countermap1 s.countermap0 false

-- What a `float` is to the statistics of a value.
pub record Floats (F : Type 0) : Type 0 where
  pub zero_float : F
  pub lt_float : F → F → Bool
  pub of_unsigned : ℕ → F
  pub next_average : F → ℕ → F → F

pub record Status (F : Type 0) : Type 0 where
  pub minvalue : F
  pub maxvalue : F
  pub avgvalue : F
  pub num : ℕ

-- What `registerStatus` makes, and what `Clear` leaves.
abbrev pub zeros : {F : Type 0} → Floats F → Status F
zeros f = record {
  minvalue = f.zero_float;
  maxvalue = f.zero_float;
  avgvalue = f.zero_float;
  num = 0;
}

-- `state` with an `unsigned`, for a name that is registered. MAX_NUM is 200000000.
unfoldable pub state : {F : Type 0} → Floats F → Status F → ℕ → Status F
state f s value =
    let v = f.of_unsigned value in
    if ltb 200000000 value then s else record {
      minvalue = if f.lt_float v s.minvalue then v else s.minvalue;
      maxvalue = if f.lt_float s.maxvalue v then v else s.maxvalue;
      avgvalue = f.next_average s.avgvalue s.num v;
      num = (s.num + 1) % 2 ^ 32;
    }
