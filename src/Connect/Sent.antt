-- ===== src/Connect/Sent.antt =====
-- `OnMessageSended`: when a response has been sent, and what becomes of the next one.
use mtrpc.Base.{
  ℕ, ◌+◌, ◌%◌, ◌^◌, ◌<◌, ◌≤◌, ◌≡◌, refl, ap, arith, Bool, true, false, List, [], ◌∷◌, ◌++◌, ltb,
  if◌then◌else◌,
}
use mtrpc.Buffer.{Stream}
use mtrpc.Text.{Bytes}
use mtrpc.Connect.{
  Response, Connect, mod_event, delete, send_via, after_pop, sended_via, on_message_sended,
}

abbrev pub sum : List ℕ → ℕ
sum [] = 0
sum (n ∷ ns) = n + sum ns

-- What is left of a queue of one response, of whose packet some bytes were sent.
abbrev Left : Connect → Response → ℕ → Connect → Type 0
Left c k sent d =
    (d.pending ≡ (if ltb sent k.pack_size then record k { send_size = sent } ∷ [] else []))
    × (d.deleted ≡ (if ltb sent k.pack_size then c.deleted else c.deleted ++ k.id ∷ []))

module _ (serialize parse : Bytes → Stream → Stream × Bool) (is_method fails : Bytes → Bool) where
  -- `OnMessageSended` with one size after the other.
  abbrev pub sended_all : Connect → List ℕ → Connect
  sended_all c [] = c
  sended_all c (n ∷ ns) = sended_all (on_message_sended serialize parse is_method fails c n) ns

  -- What one round leaves, where one response waits.
  abbrev one_round : Connect → Response → ℕ → Connect
  one_round c k sent =
      if ltb sent k.pack_size
      then record c { pending = record k { send_size = sent } ∷ [] }
      else mod_event (delete (record c { pending = [] }) k.id) true false

  -- Where a second response waits, and the first one has been sent, `OnMessageSended` puts the
  -- second one at the end of the queue again, and writes nothing.
  pub second_unsent :
      (c : Connect) (k j : Response) (js : List Response) (n : ℕ)
      → c.pending ≡ k ∷ (j ∷ js)
      → c.closing ≡ false
      → k.send_size + n < 2 ^ 32
      → k.pack_size ≤ k.send_size + n
      → ((on_message_sended serialize parse is_method fails c n).pending ≡ (j ∷ js) ++ j ∷ [])
        × ((on_message_sended serialize parse is_method fails c n).writebuf ≡ c.writebuf)
  unfolding sended_via after_pop send_via
  second_unsent c k j js n e h l p =
      rw (ap (λ q. sended_via serialize parse is_method fails c q n) e)
        (rw (h, reached) (refl, refl))
    where
      reached : ltb ((k.send_size + n) % 2 ^ 32) k.pack_size ≡ false
      reached = ground (arith, l, p)
