-- ===== src/Tests/Statistics.antt =====
-- Runs of the counters and of the statistics of a value.
use mtrpc.Base.{ℕ, ◌+◌, ◌*◌, ◌/◌, ◌%◌, ◌^◌, ◌≡◌, refl, List, [], ◌∷◌, some, ltb, pos, negsuc}
use mtrpc.Text.{bytes_eq, bytes_lt, codes, find, assign, decimal, digits}
use mtrpc.Statistics.{
  Counts, Floats, zeros, state, register_counter, add_counter, add_sub_counter, counter_to_string,
  entries,
}
use mtrpc.Statistics.Counters.{Call, adds, adds_sub, run, added, sub_added, counted}
use mtrpc.Statistics.Extremes.{states}

abbrev no_counters : Counts
no_counters = record { countermap0 = []; countermap1 = [] }

abbrev calls : List Call
calls =
    adds (codes "qps") (pos 5)
    ∷ adds (codes "rtt") (pos 9)
    ∷ adds_sub (codes "qps") (pos 2)
    ∷ adds (codes "qps") (negsuc 0)
    ∷ []

counted_example :
    (find (run (register_counter no_counters (codes "qps")) calls).countermap0 (codes "qps")
      ≡ some (added (codes "qps") calls % 2 ^ 64))
    × (find (run (register_counter no_counters (codes "qps")) calls).countermap1 (codes "qps")
        ≡ some (sub_added (codes "qps") calls % 2 ^ 64))
counted_example = counted no_counters (codes "qps") calls

counted_test :
    find (run (register_counter no_counters (codes "qps")) calls).countermap0 (codes "qps") ≡ some 4
unfolding register_counter add_counter add_sub_counter find assign bytes_eq bytes_lt
counted_test = refl

-- A comma is left over where the last counters are 0.
to_string_test :
    counter_to_string (record {
      countermap0 = (codes "a", 1) ∷ (codes "b", 0) ∷ [];
      countermap1 = (codes "a", 2) ∷ (codes "b", 0) ∷ [];
    })
    ≡ codes "----------------\n       {\"a\":(1,2),\n        }\n"
unfolding counter_to_string entries find bytes_eq decimal digits
to_string_test = refl

-- Whole numbers as floats.
abbrev whole : Floats ℕ
whole = record {
  zero_float = 0;
  lt_float = ltb;
  of_unsigned = λ n. n;
  next_average = λ a n v. (a * n + v) / (n + 1);
}

maximum_test : (states whole (zeros whole) (7 ∷ 5 ∷ [])).maxvalue ≡ 7
unfolding state
maximum_test = refl
