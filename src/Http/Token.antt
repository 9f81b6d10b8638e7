-- ===== src/Http/Token.antt =====
-- Texts in the key buffer: what `*pos++ = c` puts there, and what `MoveBufTo` takes out.
use mtrpc.Base.{
  ℕ, zero, suc, ◌+◌, ◌-◌, ◌≡◌, ◌≤◌, ◌<◌, refl, ap, ap₂, sym, ◌∙◌, arith, Bool, true, false, not,
  ◌&&◌, [], ◌∷◌, ◌++◌, append_assoc, append-nil, some, length, set, replicate, ◌==◌, length-append,
}
use mathlib.Core.Path.{subst}
use mtrpc.Ring.{Iterator}
use mtrpc.Text.{Bytes}
use mtrpc.Http.{KeyBuf, empty_buf, take_text, skip_and_take, move_buf_to}
use mtrpc.Http.Feed.{Outcome, more}
use mtrpc.Http.Runs.{Runs, stop, read}
use mtrpc.Http.Overflow.{both}

-- The buffer with nothing in it but perhaps a blank, at its start.
abbrev pub ready : ℕ → KeyBuf
ready x = record { chars = x ∷ replicate 255 0; top = 0 }

empty-ready : empty_buf ≡ ready 0
empty-ready = refl

-- The buffer with a text in it.
abbrev pub holding : Bytes → KeyBuf
holding w = record { chars = w ++ replicate (256 - length w) 0; top = length w }

-- The bytes put, one after the other.
abbrev pub puts : KeyBuf → Bytes → KeyBuf
puts b [] = b
puts b (c ∷ w) = puts (record { chars = set b.chars b.top c; top = b.top + 1 }) w

set-append : (u r : Bytes) (x c : ℕ) → set (u ++ x ∷ r) (length u) c ≡ u ++ c ∷ r
set-append [] r x c = refl
set-append (y ∷ u) r x c = ap (λ s. y ∷ s) (set-append u r x c)

replicate-suc : (n : ℕ) (x : ℕ) → n ≤ 255 → replicate (256 - n) x ≡ x ∷ replicate (255 - n) x
replicate-suc n x h = ap (λ k. replicate k x) (next n h)
  where
    next : (n : ℕ) → n ≤ 255 → 256 - n ≡ suc (255 - n)
    next n h = omega arith

-- One byte more.
put-holding :
    (u : Bytes) (c : ℕ)
    → length u ≤ 255
    → record { chars = set (holding u).chars (length u) c; top = length u + 1 }
      ≡ holding (u ++ c ∷ [])
put-holding u c h =
    ap₂ (λ x y. record { chars = x; top = y }) (text u c h) (sym (length-append u (c ∷ [])))
  where
    size : (m n : ℕ) → n ≡ m + 1 → 255 - m ≡ 256 - n
    size m n e = omega (arith, e)

    text :
        (u : Bytes) (c : ℕ)
        → length u ≤ 255
        → set (holding u).chars (length u) c ≡ (holding (u ++ c ∷ [])).chars
    text u c h =
        ap (λ r. set (u ++ r) (length u) c) (replicate-suc (length u) 0 h)
        ∙ set-append u (replicate (255 - length u) 0) 0 c
        ∙ sym (append_assoc u (c ∷ []) (replicate (255 - length u) 0))
        ∙ ap (λ k. (u ++ c ∷ []) ++ replicate k 0)
            (size (length u) (length (u ++ c ∷ [])) (length-append u (c ∷ [])))

puts-holding : (u w : Bytes) → length u + length w ≤ 255 → puts (holding u) w ≡ holding (u ++ w)
puts-holding u [] h = ap holding (sym (append-nil u))
puts-holding u (c ∷ w) h =
    ap (λ b. puts b w) (put-holding u c (omega arith))
    ∙ puts-holding (u ++ c ∷ []) w (omega (arith, length-append u (c ∷ [])))
    ∙ ap holding (append_assoc u (c ∷ []) w)

pub puts-ready : (x c : ℕ) (w : Bytes) → length w < 255 → puts (ready x) (c ∷ w) ≡ holding (c ∷ w)
puts-ready x c w h = puts-holding (c ∷ []) w (omega arith)

-- A text without NULs.
abbrev pub no_nul : Bytes → Bool
no_nul [] = true
no_nul (c ∷ w) = not (c == 0) && no_nul w

abbrev pub zeros : ℕ → Bytes
zeros n = replicate n 0

abbrev pub all_in : (ℕ → Bool) → Bytes → Bool
all_in f [] = true
all_in f (c ∷ w) = f c && all_in f w

zeros-suc : (n m : ℕ) → zeros (suc n + m) ≡ 0 ∷ zeros (n + m)
zeros-suc n m = ap zeros (next n m)
  where
    next : (n m : ℕ) → suc n + m ≡ suc (n + m)
    next n m = omega arith

take_text-append :
    (w : Bytes) (n : ℕ)
    → no_nul w ≡ true
    → take_text (w ++ replicate (suc n) 0) ≡ some (w, replicate (length w + suc n) 0)
unfolding take_text
take_text-append [] n h = ap (λ k. some ([], zeros k)) (next n)
  where
    next : (n : ℕ) → suc n ≡ 0 + suc n
    next n = omega arith
take_text-append (c ∷ w) n h =
    let (a, b) = split (c == 0) (no_nul w) h in
    rw a
      (rw (take_text-append w n b) (ap (λ r. some (c ∷ w, r)) (sym (zeros-suc (length w) (suc n)))))
  where
    split : (a b : Bool) → (not a && b) ≡ true → (a ≡ false) × (b ≡ true)
    split a b h = (ground arith, ground arith)

pub take_text-zeros :
    (w : Bytes) (m k : ℕ)
    → no_nul w ≡ true
    → 0 < m
    → length w + m ≡ k
    → take_text (w ++ zeros m) ≡ some (w, zeros k)
take_text-zeros w zero k n h e = absurd (omega arith)
take_text-zeros w (suc m) k n h e = take_text-append w m n ∙ ap (λ i. some (w, zeros i)) e

-- `MoveBufTo` of a text that starts with no blank, and of one behind one blank.
pub move_buf_to-text :
    (c : ℕ) (w s : Bytes)
    → (c == b' ') ≡ false
    → no_nul (c ∷ w) ≡ true
    → length w < 255
    → move_buf_to (holding (c ∷ w)) s ≡ some (ready 0, s ++ c ∷ w)
unfolding move_buf_to skip_and_take
move_buf_to-text c w s b n h =
    rw b
      (rw (take_text-zeros (c ∷ w) (256 - suc (length w)) 256 n (omega arith) (omega arith)) refl)

pub move_buf_to-blank :
    (c : ℕ) (w s : Bytes)
    → (c == b' ') ≡ false
    → no_nul (c ∷ w) ≡ true
    → length w < 254
    → move_buf_to (holding (b' ' ∷ c ∷ w)) s ≡ some (ready b' ', s ++ c ∷ w)
unfolding move_buf_to skip_and_take
move_buf_to-blank c w s b n h = rw b (
    rw (take_text-zeros (c ∷ w) (256 - suc (suc (length w))) 255 n (omega arith) (omega arith))
      refl)

module _ {S : Type 0} (step : S → Iterator → ℕ → Outcome S) (done : S → Bool)
    (with_buf : S → KeyBuf → S) (plain : ℕ → Bool)
    (puts_one : (p : S) (b : KeyBuf) (it : Iterator) (c : ℕ)
      → b.top < 256
      → plain c ≡ true
      → step (with_buf p b) it c
        ≡ more (with_buf p (record { chars = set b.chars b.top c; top = b.top + 1 })))
    (goes_on : (p : S) (b : KeyBuf) → done (with_buf p b) ≡ false) where
  puts-Runs :
      (p : S) (b : KeyBuf) (w : Bytes)
      → b.top + length w ≤ 256
      → all_in plain w ≡ true
      → Runs step done (with_buf p b) w (with_buf p (puts b w))
  puts-Runs p b [] h a = stop
  puts-Runs p b (c ∷ w) h a =
      let (x, y) = both (plain c) (all_in plain w) a in
      read (goes_on p b) (λ it. puts_one p b it c (omega arith) x)
        (puts-Runs p (record { chars = set b.chars b.top c; top = b.top + 1 }) w (omega arith) y)

  -- A text that none of whose bytes ends it.
  pub text-Runs :
      (p : S) (x c : ℕ) (w : Bytes)
      → length w < 255
      → all_in plain (c ∷ w) ≡ true
      → Runs step done (with_buf p (ready x)) (c ∷ w) (with_buf p (holding (c ∷ w)))
  text-Runs p x c w h a =
      subst (λ b. Runs step done (with_buf p (ready x)) (c ∷ w) (with_buf p b)) (puts-ready x c w h)
        (puts-Runs p (ready x) (c ∷ w) (omega arith) a)
