-- ===== src/Http/Lines.antt =====
-- The lines of `SerializeHeader` in both parsers.
use mtrpc.Base.{
  suc, arith, length, length-append, append-nil, ℕ, ◌≡◌, refl, ap, ap₂, sym, ◌∙◌, Bool, true, List,
  [], ◌∷◌, ◌++◌, map, append_assoc,
}
use mathlib.Core.Path.{subst}
use mtrpc.Ring.{Iterator}
use mtrpc.Text.{Bytes, codes, assign}
use mtrpc.Http.{Headers}
use mtrpc.Http.Feed.{Outcome}
use mtrpc.Http.Serialize.{c_str, header_line, header_lines, crlf}
use mtrpc.Http.Written.{text}
use mtrpc.Http.Runs.{Runs, stop, runs_append}
use mtrpc.Http.Token.{no_nul}
use mtrpc.Http.Words.{
  in_key, in_line, is_word, Word, is_word-Word, c_str-no_nul, with_blank, assign_all, is_line,
  all_lines,
}
use mtrpc.Http.Overflow.{both}

pub c_str-Word : {f : ℕ → Bool} {n : ℕ} {s : Bytes} → Word f n s → c_str s ≡ s
c_str-Word {s = s} w = c_str-no_nul s (subst (λ t. no_nul t ≡ true) (sym w.is) w.nulless)

text-append : (ss ts : List Bytes) → text (ss ++ ts) ≡ text ss ++ text ts
text-append [] ts = refl
text-append (s ∷ ss) ts =
    ap (λ t. s ++ t) (text-append ss ts) ∙ sym (append_assoc s (text ss) (text ts))

-- The lines, with what follows, as the bytes before the last one, it, and what follows.
pub lines_end :
    (first : Bytes) (hs : Headers) (rest : Bytes)
    → text (first ∷ header_lines hs) ++ rest
      ≡ (first ++ text (map header_line hs) ++ b'\r' ∷ []) ++ b'\n' ∷ rest
lines_end first hs rest =
    let t = text (map header_line hs) in
    ap (λ u. first ++ u ++ rest) (text-append (map header_line hs) (crlf ∷ []))
    ∙ ap (λ u. u ++ rest) (sym (append_assoc first t crlf))
    ∙ append_assoc (first ++ t) crlf rest
    ∙ sym (append_assoc (first ++ t) (b'\r' ∷ []) (b'\n' ∷ rest))

pub lines_size :
    (first : Bytes) (hs : Headers)
    → suc (length (first ++ text (map header_line hs) ++ b'\r' ∷ []))
      ≡ length (text (first ∷ header_lines hs))
lines_size first hs =
    let x = first ++ text (map header_line hs) ++ b'\r' ∷ [] in
    let t = text (first ∷ header_lines hs) in
    let e = ap length (sym (append-nil t) ∙ lines_end first hs []) in
    omega (arith, e, length-append x (b'\n' ∷ []))

-- A line, as a key with its colon, and a value with its blanks and its end.
header_line-parts :
    (k s : Bytes)
    → c_str k ≡ k
    → c_str s ≡ s
    → (k ++ b':' ∷ []) ++ ((b' ' ∷ with_blank s) ++ crlf) ≡ header_line (k, s)
header_line-parts k s a b =
    append_assoc k (b':' ∷ []) ((b' ' ∷ with_blank s) ++ crlf)
    ∙ ap (λ t. k ++ b':' ∷ b' ' ∷ t) (append_assoc s (b' ' ∷ []) crlf)
    ∙ sym (append_assoc k (codes ": ") (s ++ codes " \r\n"))
    ∙ sym (append_assoc (k ++ codes ": ") s (codes " \r\n"))
    ∙ ap₂ (λ t u. t ++ codes ": " ++ u ++ codes " \r\n") (sym a) (sym b)

-- The byte that the key buffer keeps at its start.
abbrev pub kept_byte : ℕ → Headers → ℕ
kept_byte x [] = x
kept_byte x (_ ∷ hs) = kept_byte b' ' hs

module _ {S : Type 0} (step : S → Iterator → ℕ → Outcome S) (done : S → Bool)
    (at_key : ℕ → Headers → S) (at_value : Headers → Bytes → S)
    (key-Reads : (hs : Headers) (x : ℕ) (k : Bytes)
      → Word in_key 255 k
      → Runs step done (at_key x hs) (k ++ b':' ∷ []) (at_value hs k))
    (value-Reads : (hs : Headers) (k s : Bytes)
      → Word in_line 253 s
      → Runs step done
          (at_value hs k)
          ((b' ' ∷ with_blank s) ++ crlf)
          (at_key b' ' (assign hs k (with_blank s)))) where
  reads_line :
      (hs : Headers) (x : ℕ) (k s : Bytes)
      → is_line (k, s) ≡ true
      → Runs step done (at_key x hs) (header_line (k, s)) (at_key b' ' (assign hs k (with_blank s)))
  reads_line hs x k s h =
      let (a, b) = both (is_word in_key 255 k) (is_word in_line 253 s) h in
      let wk = is_word-Word in_key 255 k a in
      let ws = is_word-Word in_line 253 s b in
      subst (λ t. Runs step done (at_key x hs) t (at_key b' ' (assign hs k (with_blank s))))
        (header_line-parts k s (c_str-Word wk) (c_str-Word ws))
        (runs_append step done (key-Reads hs x k wk) (value-Reads hs k s ws))

  pub reads_lines :
      (hs : Headers) (x : ℕ) (ls : Headers)
      → all_lines ls ≡ true
      → Runs step done
          (at_key x hs)
          (text (map header_line ls))
          (at_key (kept_byte x ls) (assign_all hs ls))
  reads_lines hs x [] h = stop
  reads_lines hs x ((k, s) ∷ ls) h =
      let (a, b) = both (is_line (k, s)) (all_lines ls) h in
      runs_append step done (reads_line hs x k s a)
        (reads_lines (assign hs k (with_blank s)) b' ' ls b)
