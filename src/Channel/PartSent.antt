-- ===== src/Channel/PartSent.antt =====
-- `OnMessageSended` after a `writev` that has sent a part of a packet only.
use mtrpc.Base.{
  ℕ, zero, suc, ◌+◌, ◌%◌, ◌^◌, ◌≤◌, ◌<◌, ◌≡◌, refl, ap, sym, ◌∙◌, arith, false, List, [], ◌∷◌, ◌++◌,
  leb, ◌==◌, Option, none, some, Bool-cases, inl, inr,
}
use mathlib.Core.Path.{subst}
use mtrpc.Channel.{Call, Channel, count_call, count_round, count_sent, on_message_sended, rounds}
use mtrpc.Channel.Fifo.{ids, ids-append}

-- A call that waits alone has been taken for sent.
record Finished (c : Channel) (k : Call) (d : Channel) : Type 0 where
  wait_is : d.waitcall ≡ []
  done_is : ids d.donecall ≡ ids c.donecall ++ k.id ∷ []

abbrev next_round : ℕ → Channel → Option (Channel × ℕ) → Channel
next_round f c o = elim o [ none ↦ c | some (c', n') ↦ count_sent f c' n' ]

count_sent-round :
    (f : ℕ) (c : Channel) (n : ℕ) (w : List Call)
    → c.waitcall ≡ w
    → count_sent (suc f) c n ≡ next_round f c (count_round c w n)
unfolding count_sent
count_sent-round f c n w e = ap (λ w. next_round f c (count_round c w n)) e

with_none : (f : ℕ) (c : Channel) (n : ℕ) → c.waitcall ≡ [] → count_sent f c n ≡ c
unfolding count_sent count_round
with_none zero c n e = refl
with_none (suc f) c n e = count_sent-round f c n [] e

-- What a round does with a call that waits alone.
first_round :
    (c : Channel) (k : Call) (n : ℕ) → 0 < n → count_round c (k ∷ []) n ≡ some (count_call c k [] n)
unfolding count_round
first_round c k n h = rw (positive h) refl
  where
    positive : 0 < n → (n == 0) ≡ false
    positive h = ground arith

abbrev resized : Call → ℕ → Call
resized k n = record k { send_size = (k.send_size + n) % 2 ^ 32 }

count_sent-Finished :
    (f : ℕ) (c : Channel) (k : Call) (n : ℕ)
    → c.waitcall ≡ k ∷ []
    → 0 < n
    → k.pack_size + n ≤ 2 ^ 32
    → k.send_size < k.pack_size
    → k.pack_size < k.send_size + f
    → Finished c k (count_sent f c n)
count_sent-Finished zero c k n e h w l g = absurd (omega arith)
count_sent-Finished (suc f) c k n e h w l g =
    subst (λ d. Finished c k d)
      (sym (count_sent-round f c n (k ∷ []) e ∙ ap (next_round f c) (first_round c k n h)))
      (elim (Bool-cases (leb k.pack_size (resized k n).send_size)) [
        | inl t ↦ rw t (
            subst (λ d. Finished c k d) (sym (with_none f _ _ refl))
              (record { wait_is = refl; done_is = ids-append c.donecall (resized k n ∷ []) }))
        | inr t ↦ rw t (
            again (
              count_sent-Finished f (record c { waitcall = resized k n ∷ [] }) (resized k n) n refl
                h w (ground (arith, t)) (omega (arith, small))))
      ])
  where
    small : (k.send_size + n) % 2 ^ 32 ≡ k.send_size + n
    small = omega arith

    again :
        {d : Channel}
        → Finished (record c { waitcall = resized k n ∷ [] }) (resized k n) d
        → Finished c k d
    again v = record { wait_is = v.wait_is; done_is = v.done_is }

-- Where one call waits, `OnMessageSended` takes its packet for sent whatever number of bytes was
-- sent, if it is not 0: the rounds of the loop count the same bytes until the packet's size is
-- reached.
pub part_sent :
    (c : Channel) (k : Call) (n : ℕ)
    → c.waitcall ≡ k ∷ []
    → 0 < n
    → k.pack_size + n ≤ 2 ^ 32
    → k.send_size < k.pack_size
    → ((on_message_sended c n).waitcall ≡ [])
      × (ids (on_message_sended c n).donecall ≡ ids c.donecall ++ k.id ∷ [])
unfolding on_message_sended
part_sent c k n e h w l =
    let v = count_sent-Finished (rounds c.waitcall) c k n e h w l (omega (arith, ap rounds e)) in
    (v.wait_is, v.done_is)
