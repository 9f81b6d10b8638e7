-- ===== src/Http/Feed.antt =====
-- The loop that `HttpRequestHeader::ParserHeader` and `HttpReponseHeader::ParserHeader` share.
use mtrpc.Base.{ℕ, zero, suc, Bool, ◌||◌, Option, none, some, if◌then◌else◌}
use mtrpc.Ring.{Que, Iterator, same, increment, deref}

-- What one byte does to a parser: it goes on, it returns HTTP_PARSER_FAIL, or it steps outside of
-- its key buffer.
pub data Outcome (S : Type 0) : Type 0 where
  more : S → Outcome S
  failed : S → Outcome S
  fault : Outcome S

abbrev pub after : {A S : Type 0} → Option A → (A → Outcome S) → Outcome S
after none f = fault
after (some a) f = f a

-- The loop's body: the parser goes on with `rest`, or returns at `it`.
abbrev pub resume :
    {S : Type 0} → Outcome S → Iterator → (S → Outcome S × Iterator) → Outcome S × Iterator
resume (more s) it rest = rest s
resume (failed s) it rest = (failed s, it)
resume fault it rest = (fault, it)

module _ {S : Type 0} (step : S → Iterator → ℕ → Outcome S) (done : S → Bool) (q : Que) where
  -- The `for` loop of `ParserHeader`, from `it` up to `e`: how it ends, and where the read position
  -- is left. The fuel is a number of bytes.
  unfoldable pub feed : ℕ → Iterator → Iterator → S → Outcome S × Iterator
  feed zero e it s = (more s, it)
  feed (suc fuel) e it s =
      if same it e || done s
      then (more s, it)
      else resume (step s it (deref q it)) it (feed fuel e (increment q it))
