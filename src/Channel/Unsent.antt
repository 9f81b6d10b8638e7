-- ===== src/Channel/Unsent.antt =====
-- `OnWriteable` where the request of the next call does not serialize.
use mtrpc.Base.{
  ℕ, ◌+◌, ◌%◌, ◌^◌, ◌≡◌, refl, ap, ◌∙◌, Bool, true, false, ◌&&◌, List, [], ◌∷◌, ◌++◌, append-nil,
  if◌then◌else◌, map,
}
use mtrpc.Buffer.{Stream}
use mtrpc.Text.{Bytes}
use mtrpc.Error.{value, client_cancel_by_error}
use mtrpc.Http.Request.{RequestHeader}
use mtrpc.Http.Serialize.{request_lines}
use mtrpc.Packet.{Packet, full, unserialized, packed, write_packet}
use mtrpc.Packet.Fails.{is_packed, write_packet-fails}
use mtrpc.Channel.{Call, Channel, on_message_error, is_empty_list, with_status}
use mtrpc.Channel.Send.{
  generate_seq, request_of, with_length, sent_packet, send_to_server, on_writeable, write_first,
  push_wait,
}
use mtrpc.Channel.Fifo.{ids, answered, answered-append}

answered-cancelled : (code : ℕ) (ks : List Call) → answered (map (with_status code) ks) ≡ ids ks
answered-cancelled code [] = refl
answered-cancelled code (k ∷ ks) = ap (λ r. k.id ∷ r) (answered-cancelled code ks)

-- What `SendToServer` leaves after an error: every call has its status, and none is queued.
record Failed (c : Channel) (k : Call) (r : Channel × Call) : Type 0 where
  wait_is : r.0.waitcall ≡ []
  id_is : r.1.id ≡ k.id
  closes : r.0.closing ≡ true
  told :
      answered r.0.statuses
      ≡ answered c.statuses ++ ids c.sendcall ++ ids c.waitcall ++ ids c.donecall ++ k.id ∷ []

error-told :
    (c : Channel) (k : Call) (code : ℕ)
    → answered ((on_message_error c code).statuses ++ (k.id, code) ∷ [])
      ≡ answered c.statuses ++ ids c.sendcall ++ ids c.waitcall ++ ids c.donecall ++ k.id ∷ []
unfolding on_message_error
error-told c k code =
    let a = map (with_status (value client_cancel_by_error)) c.sendcall in
    let b = map (with_status code) c.waitcall in
    let d = map (with_status code) c.donecall in
    rw (answered-append (c.statuses ++ a ++ b ++ d) ((k.id, code) ∷ [])) (
      rw (answered-append (c.statuses ++ a ++ b) d) (
        rw (answered-append (c.statuses ++ a) b) (
          rw (answered-append c.statuses a) (
            rw
              (
                answered-cancelled (value client_cancel_by_error) c.sendcall,
                answered-cancelled code c.waitcall,
                answered-cancelled code c.donecall,
              )
              refl))))

sent_packet-Failed :
    (c : Channel) (k : Call) (h : RequestHeader) (p : Packet)
    → is_packed p ≡ false
    → Failed c k (sent_packet c k h p)
unfolding sent_packet on_message_error
sent_packet-Failed c k h (packed w n size) e = absurd cc
sent_packet-Failed c k h (full w) e = record {
  wait_is = refl;
  id_is = refl;
  closes = refl;
  told = error-told c k _;
}
sent_packet-Failed c k h (unserialized w) e = record {
  wait_is = refl;
  id_is = refl;
  closes = refl;
  told = error-told c k _;
}

renumbered :
    {c : Channel} {k : Call} {n m : ℕ} {r : Channel × Call}
    → Failed (record c { last_seq = n }) (record k { seq = m }) r
    → Failed c k r
renumbered v = record { wait_is = v.wait_is; id_is = v.id_is; closes = v.closes; told = v.told }

send_to_server-Failed :
    (full_name : ℕ → Bytes) (serialize parse : ℕ → Stream → Stream × Bool) (c : Channel) (k : Call)
    → ((s : Stream) → (serialize k.id s).1 ≡ false)
    → Failed c k (send_to_server full_name serialize parse c k)
unfolding send_to_server
send_to_server-Failed full_name serialize parse c k h =
    let r = request_of full_name serialize parse c k in
    let lines : ℕ → List Bytes = λ n. request_lines (with_length r n) in
    renumbered {n = (c.last_seq + 1) % 2 ^ 32} {m = generate_seq c.last_seq} (
      sent_packet-Failed (record c { last_seq = (c.last_seq + 1) % 2 ^ 32 })
        (record k { seq = generate_seq c.last_seq }) r
        (write_packet (serialize k.id) lines c.writebuf)
        (write_packet-fails (serialize k.id) lines c.writebuf h))

first_written :
    (full_name : ℕ → Bytes) (serialize parse : ℕ → Stream → Stream × Bool) (c : Channel) (k : Call)
    (ks : List Call)
    → c.sendcall ≡ k ∷ ks
    → c.waitcall ≡ []
    → c.donecall ≡ []
    → on_writeable full_name serialize parse c
      ≡ push_wait (send_to_server full_name serialize parse (record c { sendcall = ks }) k)
unfolding write_first
first_written full_name serialize parse c k ks e w d =
    ap (λ q. write_first full_name serialize parse c q) e
    ∙ chosen (is_empty_list c.waitcall && is_empty_list c.donecall)
        (both (ap is_empty_list w) (ap is_empty_list d))
  where
    both : {a b : Bool} → a ≡ true → b ≡ true → (a && b) ≡ true
    both x y = rw (x, y) refl

    chosen :
        (b : Bool)
        → b ≡ true
        → (if b
            then push_wait (send_to_server full_name serialize parse (record c { sendcall = ks }) k)
            else c)
          ≡ push_wait (send_to_server full_name serialize parse (record c { sendcall = ks }) k)
    chosen b t = rw t refl

-- Where the request of the next call cannot be serialized and no other call is under way,
-- `OnWriteable` gives every call its status, the next one last; but then that call is queued as one
-- that was sent.
pub unsent_waits :
    (full_name : ℕ → Bytes) (serialize parse : ℕ → Stream → Stream × Bool) (c : Channel) (k : Call)
    (ks : List Call)
    → ((s : Stream) → (serialize k.id s).1 ≡ false)
    → c.sendcall ≡ k ∷ ks
    → c.waitcall ≡ []
    → c.donecall ≡ []
    → (ids (on_writeable full_name serialize parse c).waitcall ≡ k.id ∷ [])
      × (answered (on_writeable full_name serialize parse c).statuses
          ≡ answered c.statuses ++ ids ks ++ k.id ∷ [])
      × ((on_writeable full_name serialize parse c).closing ≡ true)
unsent_waits full_name serialize parse c k ks h e w d =
    rw (first_written full_name serialize parse c k ks e w d)
      (pushed (send_to_server-Failed full_name serialize parse (record c { sendcall = ks }) k h))
  where
    start : List ℕ
    start = answered c.statuses ++ ids ks

    none_else : start ++ ids c.waitcall ++ ids c.donecall ≡ start
    none_else = rw (w, d) (append-nil (start ++ []) ∙ append-nil start)

    pushed :
        {r : Channel × Call}
        → Failed (record c { sendcall = ks }) k r
        → (ids (push_wait r).waitcall ≡ k.id ∷ [])
          × (answered (push_wait r).statuses ≡ answered c.statuses ++ ids ks ++ k.id ∷ [])
          × ((push_wait r).closing ≡ true)
    pushed v = (
      rw (v.wait_is) (ap (λ i. i ∷ []) v.id_is),
      v.told ∙ ap (λ s. s ++ k.id ∷ []) none_else,
      v.closes,
    )
