-- ===== src/Channel/Fifo.antt =====
-- The calls of a channel are answered in their order, one at a time.
use mtrpc.Base.{
  ℕ, zero, suc, ◌+◌, ◌%◌, ◌^◌, ◌≤◌, ◌≡◌, refl, ap, sym, ◌∙◌, arith, false, List, [], ◌∷◌, ◌++◌,
  append_assoc, length, length-append, Bool-cases, inl, inr, leb, ◌==◌, Option, none, some,
}
use mtrpc.Channel.{Call, Channel, count_round, count_sent}

abbrev pub ids : List Call → List ℕ
ids [] = []
ids (k ∷ ks) = k.id ∷ ids ks

abbrev pub answered : List (ℕ × ℕ) → List ℕ
answered [] = []
answered ((i, st) ∷ r) = i ∷ answered r

-- All calls, from the first that was answered to the last that is to be sent.
abbrev pub order : Channel → List ℕ
order c = answered c.statuses ++ (ids c.donecall ++ (ids c.waitcall ++ ids c.sendcall))

-- The calls that were sent, and not answered.
abbrev pub flight : Channel → ℕ
flight c = length c.donecall + length c.waitcall

pub ids-append : (a b : List Call) → ids (a ++ b) ≡ ids a ++ ids b
ids-append [] b = refl
ids-append (k ∷ a) b = ap (λ r. k.id ∷ r) (ids-append a b)

pub answered-append : (a b : List (ℕ × ℕ)) → answered (a ++ b) ≡ answered a ++ answered b
answered-append [] b = refl
answered-append ((i, st) ∷ a) b = ap (λ r. i ∷ r) (answered-append a b)

-- What one step does, if no error has occurred until its end: the calls keep their order, new ones
-- come last, at most one is under way, and no error had occurred before.
pub record Keeps (c d : Channel) (made : List ℕ) : Type 0 where
  pub order_is : order d ≡ order c ++ made
  pub flight_le : flight c ≤ 1 → flight d ≤ 1
  pub was_open : c.closing ≡ false

-- The last element of a list goes to the front of the next one.
pub shift : (a : List Call) (k : Call) (r : List ℕ) → ids (a ++ k ∷ []) ++ r ≡ ids a ++ (k.id ∷ r)
shift a k r = rw (ids-append a (k ∷ [])) (append_assoc (ids a) (k.id ∷ []) r)

-- What a round of the loop of `OnMessageSended` leaves as it is.
pub record Same (c d : Channel) : Type 0 where
  pub order_is : order d ≡ order c
  pub flight_is : flight d ≡ flight c
  pub closing_is : d.closing ≡ c.closing

abbrev IsSame : Channel → Option (Channel × ℕ) → Type 0
IsSame c none = Unit {0}
IsSame c (some (d, m)) = Same c d

count_round-Same :
    (c : Channel) (w : List Call) (n : ℕ) → c.waitcall ≡ w → IsSame c (count_round c w n)
unfolding count_round
count_round-Same c [] n e = tt
count_round-Same c (k ∷ ks) n e = elim (Bool-cases (n == 0)) [
  | inl t ↦ rw t tt
  | inr t ↦ rw t (elim (Bool-cases (leb k.pack_size ((k.send_size + n) % 2 ^ 32))) [
    | inl l ↦ rw l (record {
      order_is =
          ap (λ r. answered c.statuses ++ r)
            (shift c.donecall (record k { send_size = (k.send_size + n) % 2 ^ 32 })
                (ids ks ++ ids c.sendcall)
              ∙ ap (λ w. ids c.donecall ++ (ids w ++ ids c.sendcall)) (sym e));
      flight_is =
          rw (length-append c.donecall (record k { send_size = (k.send_size + n) % 2 ^ 32 } ∷ []))
            (omega (arith, ap length e));
      closing_is = refl;
    })
    | inr l ↦ rw l (record {
      order_is =
          ap (λ w. answered c.statuses ++ (ids c.donecall ++ (ids w ++ ids c.sendcall))) (sym e);
      flight_is = omega (arith, ap length e);
      closing_is = refl;
    })
  ])
]

pub count_sent-Same : (f : ℕ) (c : Channel) (n : ℕ) → Same c (count_sent f c n)
unfolding count_sent
count_sent-Same zero c n = record { order_is = refl; flight_is = refl; closing_is = refl }
count_sent-Same (suc f) c n =
    rest (count_round c c.waitcall n) (count_round-Same c c.waitcall n refl) (count_sent-Same f)
  where
    rest :
        (o : Option (Channel × ℕ))
        → IsSame c o
        → ((d : Channel) (m : ℕ) → Same d (count_sent f d m))
        → Same c (elim o [ none ↦ c | some (d, m) ↦ count_sent f d m ])
    rest none s g = record { order_is = refl; flight_is = refl; closing_is = refl }
    rest (some (d, m)) s g =
        let r = g d m in
        record {
          order_is = r.order_is ∙ s.order_is;
          flight_is = r.flight_is ∙ s.flight_is;
          closing_is = r.closing_is ∙ s.closing_is;
        }
