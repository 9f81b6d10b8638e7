-- ===== src/Buffer/Uniform.antt =====
-- A buffer that has never been cut: all its pieces have their whole size, as those of a read buffer.
use mtrpc.Base.{
  ℕ, zero, suc, ◌≡◌, refl, ap, ◌∙◌, sym, arith, Bool, true, false, ◌&&◌, ltb, if◌then◌else◌, ◌==◌,
  ==_iff, if_intro, Bool-cases, inl, inr,
}
use mathlib.Core.Path.{fun_ext}
use mtrpc.Ring.{default_buffer_size, max_buffer_pieces, Que, size_at, set_size, next, IsFilled}
use mtrpc.Buffer.{IoBuffer, is_full, reset_sizes, reset}

abbrev pub IsUniform : Que → Type 0
IsUniform q = (i : ℕ) → size_at q i ≡ default_buffer_size

pub IsUniform-IsFilled : (q : Que) → IsUniform q → IsFilled q
IsUniform-IsFilled q u i h = omega (arith, u i)

module _ (q : Que) (u : IsUniform q) where
  -- To give a piece its whole size changes nothing.
  set_size-uniform : (i : ℕ) → set_size q i default_buffer_size ≡ q
  set_size-uniform i = fun_ext (λ j. at j (j == i) refl)
    where
      whole : (j : ℕ) → record (q j) { size = default_buffer_size } ≡ q j
      whole j = ap (λ (n : ℕ). record (q j) { size = n }) (sym (u j))

      at :
          (j : ℕ) (b : Bool)
          → (j == i) ≡ b
          → (if b then record (q i) { size = default_buffer_size } else q j) ≡ q j
      at j true e =
          ap (λ (k : ℕ). record (q k) { size = default_buffer_size }) (sym ((==_iff j i).0 e))
          ∙ whole j
      at j false e = refl

  reset_sizes-uniform : (n i e : ℕ) → reset_sizes n q i e ≡ q
  unfolding reset_sizes
  reset_sizes-uniform zero i e = refl
  reset_sizes-uniform (suc n) i e = elim (Bool-cases (i == e)) [
    | inl t ↦ rw t
    | inr t ↦ rw t (
        ap (λ (p : Que). reset_sizes n p (next i) e) (set_size-uniform i)
        ∙ reset_sizes-uniform n (next i) e)
  ]

-- `Reset` of such a buffer changes nothing.
pub reset-uniform : (b : IoBuffer) → IsUniform b.que → reset b ≡ b
unfolding reset
reset-uniform b u =
    if_intro (λ c. c ≡ b) (is_full b) refl
      (if_intro (λ c. c ≡ b) (b.readpos.idx == b.writepos.idx && ltb b.writepos.ofs b.readpos.ofs)
        refl (ap (λ (q : Que). record b { que = q }) whole))
  where
    whole :
        set_size
          (reset_sizes max_buffer_pieces b.que (next b.writepos.idx) b.readpos.idx)
          b.readpos.idx
          default_buffer_size
        ≡ b.que
    whole =
        ap (λ (q : Que). set_size q b.readpos.idx default_buffer_size)
          (reset_sizes-uniform b.que u max_buffer_pieces (next b.writepos.idx) b.readpos.idx)
        ∙ set_size-uniform b.que u b.readpos.idx
