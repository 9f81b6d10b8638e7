-- ===== src/Http/KeyBuffer.antt =====
-- The 256-byte key buffer: which accesses stay inside it.
use mtrpc.Base.{
  ℕ, zero, suc, ◌+◌, ◌≡◌, ◌≤◌, ◌<◌, refl, ap, ◌∙◌, false, [], ◌∷◌, ◌++◌, arith, length, get_or, set,
  length-set, get_or-set_ne, ◌==◌, Bool-cases, inl, inr, Option, some, length-replicate,
}
use mtrpc.Text.{Bytes}
use mtrpc.Http.{KeyBuf, max_key_len, empty_buf, put, take_text, skip_and_take, move_buf_to}

-- The last byte, which is the one that the loops of `MoveBufTo` must not pass.
abbrev pub last_byte : Bytes → ℕ
last_byte cs = get_or cs 255 1

-- The buffer has its size, the write index does not stand behind the last byte, and that byte is
-- NUL.
pub record IsTerminated (b : KeyBuf) : Type 0 where
  pub length_is : length b.chars ≡ max_key_len
  pub top_lt : b.top < max_key_len
  pub last_nul : last_byte b.chars ≡ 0

-- What `take_text` and `skip_and_take` have done: the list keeps its length, and its NULs.
record Cleared (cs : Bytes) (r : Option (Bytes × Bytes)) : Type 0 where
  text : Bytes
  rest : Bytes
  is : r ≡ some (text, rest)
  length_is : length rest ≡ length cs
  keeps_nul : (i d : ℕ) → get_or cs i d ≡ 0 → get_or rest i d ≡ 0

take_text-Cleared : (cs : Bytes) (i : ℕ) → get_or cs i 1 ≡ 0 → Cleared cs (take_text cs)
unfolding take_text
take_text-Cleared [] i h = absurd (omega arith)
take_text-Cleared (c ∷ cs) zero h = record {
  text = [];
  rest = c ∷ cs;
  is = ground arith;
  length_is = refl;
  keeps_nul = λ i d k. k;
}
take_text-Cleared (c ∷ cs) (suc i) h =
    let t = take_text-Cleared cs i h in
    elim (Bool-cases (c == 0)) [
      | inl e ↦ record {
        text = [];
        rest = c ∷ cs;
        is = rw e;
        length_is = refl;
        keeps_nul = λ j d k. k;
      }
      | inr e ↦ record {
        text = c ∷ t.text;
        rest = 0 ∷ t.rest;
        is = rw e (rw t.is);
        length_is = ap suc t.length_is;
        keeps_nul = nuls t.rest t.keeps_nul;
      }
    ]
  where
    nuls :
        (rest : Bytes)
        → ((j d : ℕ) → get_or cs j d ≡ 0 → get_or rest j d ≡ 0)
        → (j d : ℕ) → get_or (c ∷ cs) j d ≡ 0
        → get_or (0 ∷ rest) j d ≡ 0
    nuls rest h zero d k = refl
    nuls rest h (suc j) d k = h j d k

skip_and_take-Cleared : (cs : Bytes) (i : ℕ) → get_or cs i 1 ≡ 0 → Cleared cs (skip_and_take cs)
unfolding skip_and_take
skip_and_take-Cleared [] i h = absurd (omega arith)
skip_and_take-Cleared (c ∷ cs) zero h = rw (blank h) (take_text-Cleared (c ∷ cs) zero h)
  where
    blank : c ≡ 0 → (c == b' ') ≡ false
    blank e = ground arith
skip_and_take-Cleared (c ∷ cs) (suc i) h =
    let t = skip_and_take-Cleared cs i h in
    elim (Bool-cases (c == b' ')) [
      | inl e ↦ rw e (record {
        text = t.text;
        rest = c ∷ t.rest;
        is = rw t.is;
        length_is = ap suc t.length_is;
        keeps_nul = nuls t.rest t.keeps_nul;
      })
      | inr e ↦ rw e (take_text-Cleared (c ∷ cs) (suc i) h)
    ]
  where
    nuls :
        (rest : Bytes)
        → ((j d : ℕ) → get_or cs j d ≡ 0 → get_or rest j d ≡ 0)
        → (j d : ℕ) → get_or (c ∷ cs) j d ≡ 0
        → get_or (c ∷ rest) j d ≡ 0
    nuls rest h zero d k = k
    nuls rest h (suc j) d k = h j d k

-- `MoveBufTo` stays inside a terminated buffer, and leaves it terminated and at its start.
pub record Moves (b : KeyBuf) (s : Bytes) : Type 0 where
  pub buf : KeyBuf
  pub text : Bytes
  pub is : move_buf_to b s ≡ some (buf, text)
  pub terminated : IsTerminated buf

pub move_buf_to-Moves : (b : KeyBuf) (s : Bytes) → IsTerminated b → Moves b s
unfolding move_buf_to
move_buf_to-Moves b s v =
    let t = skip_and_take-Cleared b.chars 255 v.last_nul in
    record {
      buf = record { chars = t.rest; top = 0 };
      text = s ++ t.text;
      is = rw t.is;
      terminated = record {
        length_is = t.length_is ∙ v.length_is;
        top_lt = omega arith;
        last_nul = t.keeps_nul 255 1 v.last_nul;
      };
    }

-- What holds between two bytes past the method: the buffer is terminated, unless it is full.
pub record IsBounded (b : KeyBuf) : Type 0 where
  pub length_is : length b.chars ≡ max_key_len
  pub top_le : b.top ≤ max_key_len
  pub nul_below : b.top < max_key_len → last_byte b.chars ≡ 0

pub IsTerminated-IsBounded : {b : KeyBuf} → IsTerminated b → IsBounded b
IsTerminated-IsBounded v = record {
  length_is = v.length_is;
  top_le = omega (arith, v.top_lt);
  nul_below = λ _. v.last_nul;
}

pub IsBounded-IsTerminated : {b : KeyBuf} → IsBounded b → b.top < max_key_len → IsTerminated b
IsBounded-IsTerminated v h = record {
  length_is = v.length_is;
  top_lt = h;
  last_nul = v.nul_below h;
}

-- `*pos++ = c` stays inside a terminated buffer.
pub record Puts (b : KeyBuf) (c : ℕ) : Type 0 where
  pub buf : KeyBuf
  pub is : put b c ≡ some buf
  pub bounded : IsBounded buf

pub put-Puts : (b : KeyBuf) (c : ℕ) → IsTerminated b → Puts b c
unfolding put
put-Puts b c v = record {
  buf = record { chars = set b.chars b.top c; top = b.top + 1 };
  is = ground (arith, v.top_lt);
  bounded = record {
    length_is = length-set b.chars b.top c ∙ v.length_is;
    top_le = omega (arith, v.top_lt);
    nul_below = λ h. get_or-set_ne b.chars b.top 255 c 1 (omega arith) ∙ v.last_nul;
  };
}

pub empty_buf-IsTerminated : IsTerminated empty_buf
empty_buf-IsTerminated = record {
  length_is = length-replicate {A = ℕ} max_key_len 0;
  top_lt = omega arith;
  last_nul = refl;
}
