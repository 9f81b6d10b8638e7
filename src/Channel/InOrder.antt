-- ===== src/Channel/InOrder.antt =====
-- The handlers of a channel, one after the other: calls are answered in the order in which they
-- were made, and one call is under way at a time.
use mtrpc.Base.{
  ℕ, ◌+◌, ◌≤◌, ◌≡◌, refl, ap, sym, ◌∙◌, arith, Bool, true, false, ◌&&◌, List, [], ◌∷◌, ◌++◌,
  append_assoc, append-nil, if◌then◌else◌, length, length-append,
}
use mtrpc.Buffer.{Stream, begin_packet}
use mtrpc.Text.{Bytes}
use mtrpc.Http.Request.{RequestHeader}
use mtrpc.Http.Response.{ResponseHeader}
use mtrpc.Packet.{Packet, full, unserialized, packed}
use mtrpc.Channel.{
  Call, Channel, tell, call_method, on_message_sended, on_message_error, del_read_time_out,
  is_empty_list, rounds,
}
use mtrpc.Channel.Send.{
  sent_packet, send_to_server, on_writeable, write_first, answer_first, send_next, answer,
  on_message_recived, push_wait,
}
use mtrpc.Channel.Fifo.{
  ids, answered, order, flight, shift, ids-append, answered-append, Keeps, count_sent-Same,
}

-- What `SendToServer` leaves as it is, if no error has occurred until its end.
record Sent (c : Channel) (k : Call) (r : Channel × Call) : Type 0 where
  statuses_is : r.0.statuses ≡ c.statuses
  done_is : r.0.donecall ≡ c.donecall
  wait_is : r.0.waitcall ≡ c.waitcall
  send_is : r.0.sendcall ≡ c.sendcall
  id_is : r.1.id ≡ k.id
  was_open : c.closing ≡ false

sent_packet-Sent :
    (c : Channel) (k : Call) (h : RequestHeader) (p : Packet)
    → (sent_packet c k h p).0.closing ≡ false
    → Sent c k (sent_packet c k h p)
unfolding sent_packet on_message_error
sent_packet-Sent c k h (full w) e = absurd cc
sent_packet-Sent c k h (unserialized w) e = absurd cc
sent_packet-Sent c k h (packed w n size) e = record {
  statuses_is = refl;
  done_is = refl;
  wait_is = refl;
  send_is = refl;
  id_is = refl;
  was_open = e;
}

renumbered :
    {c : Channel} {k : Call} {n m : ℕ} {r : Channel × Call}
    → Sent (record c { last_seq = n }) (record k { seq = m }) r
    → Sent c k r
renumbered s = record {
  statuses_is = s.statuses_is;
  done_is = s.done_is;
  wait_is = s.wait_is;
  send_is = s.send_is;
  id_is = s.id_is;
  was_open = s.was_open;
}

-- The next call goes behind those that wait: the order is the same.
push_wait-order :
    (c c' : Channel) (k k' : Call) (ks : List Call)
    → c.sendcall ≡ k ∷ ks
    → Sent (record c { sendcall = ks }) k (c', k')
    → order (push_wait (c', k')) ≡ order c
push_wait-order c c' k k' ks e s =
    rw (s.statuses_is, s.done_is, s.wait_is, s.send_is)
      (ap (λ r. answered c.statuses ++ (ids c.donecall ++ r))
        (shift c.waitcall k' (ids ks)
          ∙ ap (λ i. ids c.waitcall ++ (i ∷ ids ks)) s.id_is
          ∙ ap (λ w. ids c.waitcall ++ ids w) (sym e)))

push_wait-flight :
    (c c' : Channel) (k k' : Call) (ks : List Call)
    → Sent (record c { sendcall = ks }) k (c', k')
    → flight (push_wait (c', k')) ≡ flight c + 1
push_wait-flight c c' k k' ks s =
    rw (s.done_is, s.wait_is) (omega (arith, length-append c.waitcall (k' ∷ [])))

still : (c : Channel) → c.closing ≡ false → Keeps c c []
still c h = record { order_is = sym (append-nil (order c)); flight_le = λ f. f; was_open = h }

-- The call that is answered goes from the front of one list to the end of the other.
answered_next :
    (st : List (ℕ × ℕ)) (i s : ℕ) (r : List ℕ)
    → answered (st ++ (i, s) ∷ []) ++ r ≡ answered st ++ (i ∷ r)
answered_next st i s r =
    rw (answered-append st ((i, s) ∷ [])) (append_assoc (answered st) (i ∷ []) r)

-- A new call comes last.
called :
    (c : Channel) (k : Call)
    → order (record c { sendcall = c.sendcall ++ k ∷ [] }) ≡ order c ++ k.id ∷ []
called c k = rw (ids-append c.sendcall (k ∷ [])) (
    ap (λ r. answered c.statuses ++ r)
      (ap (λ r. ids c.donecall ++ r)
          (sym (append_assoc (ids c.waitcall) (ids c.sendcall) (k.id ∷ [])))
        ∙ sym (append_assoc (ids c.donecall) (ids c.waitcall ++ ids c.sendcall) (k.id ∷ [])))
    ∙ sym (
        append_assoc (answered c.statuses) (ids c.donecall ++ (ids c.waitcall ++ ids c.sendcall))
          (k.id ∷ [])))

none_in_flight :
    (c : Channel) → (is_empty_list c.waitcall && is_empty_list c.donecall) ≡ true → flight c ≡ 0
none_in_flight c h = zeros c.waitcall c.donecall h
  where
    zeros :
        (a b : List Call) → (is_empty_list a && is_empty_list b) ≡ true → length b + length a ≡ 0
    zeros [] [] h = refl
    zeros [] (k ∷ b) h = absurd (ground arith)
    zeros (k ∷ a) b h = absurd (ground arith)

module _ (full_name : ℕ → Bytes) (serialize parse : ℕ → Stream → Stream × Bool) where
  send_to_server-Sent :
      (c : Channel) (k : Call)
      → (send_to_server full_name serialize parse c k).0.closing ≡ false
      → Sent c k (send_to_server full_name serialize parse c k)
  unfolding send_to_server
  send_to_server-Sent c k e = renumbered (sent_packet-Sent _ _ _ _ e)

  write_first-Keeps :
      (c : Channel) (ks : List Call)
      → c.sendcall ≡ ks
      → (write_first full_name serialize parse c ks).closing ≡ false
      → Keeps c (write_first full_name serialize parse c ks) []
  unfolding write_first
  write_first-Keeps c [] e h = still c h
  write_first-Keeps c (k ∷ ks) e h =
      written (is_empty_list c.waitcall && is_empty_list c.donecall) refl
        (send_to_server full_name serialize parse (record c { sendcall = ks }) k)
        (send_to_server-Sent (record c { sendcall = ks }) k) h
    where
      written :
          (b : Bool)
          → (is_empty_list c.waitcall && is_empty_list c.donecall) ≡ b
          → (r : Channel × Call) → (r.0.closing ≡ false → Sent (record c { sendcall = ks }) k r)
          → (if b then push_wait r else c).closing ≡ false
          → Keeps c (if b then push_wait r else c) []
      written false t r s h = still c h
      written true t (c', k') s h =
          let v = s h in
          record {
            order_is = push_wait-order c c' k k' ks e v ∙ sym (append-nil (order c));
            flight_le = λ _. omega (arith, push_wait-flight c c' k k' ks v, none_in_flight c t);
            was_open = v.was_open;
          }

  -- The end of `OnMessageRecived`, which sends one call at most.
  send_next-Keeps :
      (c : Channel) (ks : List Call)
      → c.sendcall ≡ ks
      → (send_next full_name serialize parse c ks).closing ≡ false
      → (order (send_next full_name serialize parse c ks) ≡ order c)
        × (flight (send_next full_name serialize parse c ks) ≤ flight c + 1)
        × (c.closing ≡ false)
  unfolding send_next
  send_next-Keeps c [] e h = (refl, omega arith, h)
  send_next-Keeps c (k ∷ ks) e h =
      sent (send_to_server full_name serialize parse (record c { sendcall = ks }) k)
        (send_to_server-Sent (record c { sendcall = ks }) k) h
    where
      sent :
          (r : Channel × Call)
          → (r.0.closing ≡ false → Sent (record c { sendcall = ks }) k r)
          → r.0.closing ≡ false
          → (order (push_wait r) ≡ order c)
            × (flight (push_wait r) ≤ flight c + 1)
            × (c.closing ≡ false)
      sent (c', k') s h =
          let v = s h in
          (
            push_wait-order c c' k k' ks e v,
            omega (arith, push_wait-flight c c' k k' ks v),
            v.was_open,
          )

  answer_first-Keeps :
      (c : Channel) (ds : List Call)
      → c.donecall ≡ ds
      → (answer_first full_name serialize parse c ds).closing ≡ false
      → Keeps c (answer_first full_name serialize parse c ds) []
  unfolding answer_first answer on_message_error
  answer_first-Keeps c [] e h = still c h
  answer_first-Keeps c (k ∷ ks) e h = by_answer _ h
    where
      by_answer :
          (o : Stream × Bool)
          → (answer full_name serialize parse
              (record c { donecall = ks; readbuf = begin_packet c.readbuf })
              k
              o).closing
            ≡ false
          → Keeps c
              (answer full_name serialize parse
                (record c { donecall = ks; readbuf = begin_packet c.readbuf })
                k
                o)
              []
      by_answer (r, false) h = absurd cc
      by_answer (r, true) h =
          let v = send_next-Keeps _ c.sendcall refl h in
          record {
            order_is =
                v.0
                ∙ answered_next c.statuses k.id c.resheader.status
                    (ids ks ++ (ids c.waitcall ++ ids c.sendcall))
                ∙ ap (λ d. answered c.statuses ++ (ids d ++ (ids c.waitcall ++ ids c.sendcall)))
                    (sym e)
                ∙ sym (append-nil (order c));
            flight_le = λ f. omega (arith, v.1, ap length e);
            was_open = v.2;
          }

  -- The handlers that run for a channel whose stream is connected: a call, `OnWriteable`,
  -- `OnMessageSended` with a size, `OnMessageRecived` with the response and its bytes, and an error.
  pub data Handler : Type 0 where
    calls : Call → Handler
    writes : Handler
    sends : ℕ → Handler
    receives : ResponseHeader → Stream → Handler
    errs : ℕ → Handler

  abbrev pub handle : Channel → Handler → Channel
  handle c (calls k) = call_method true c k
  handle c writes = on_writeable full_name serialize parse c
  handle c (sends n) = on_message_sended c n
  handle c (receives r s) =
      on_message_recived full_name serialize parse (record c { resheader = r; readbuf = s })
  handle c (errs code) = on_message_error c code

  abbrev pub made : Handler → List ℕ
  made (calls k) = k.id ∷ []
  made _ = []

  handle-Keeps :
      (c : Channel) (h : Handler) → (handle c h).closing ≡ false → Keeps c (handle c h) (made h)
  unfolding call_method on_message_sended on_message_error
  handle-Keeps c (calls k) e = record { order_is = called c k; flight_le = λ f. f; was_open = e }
  handle-Keeps c writes e = write_first-Keeps c c.sendcall refl e
  handle-Keeps c (sends n) e =
      let s = count_sent-Same (rounds c.waitcall) c n in
      record {
        order_is = s.order_is ∙ sym (append-nil (order c));
        flight_le = λ f. omega (arith, s.flight_is);
        was_open = sym s.closing_is ∙ e;
      }
  handle-Keeps c (receives r s) e =
      let v =
        answer_first-Keeps (tell (record c { resheader = r; readbuf = s }) del_read_time_out)
          c.donecall refl e in
      record { order_is = v.order_is; flight_le = v.flight_le; was_open = v.was_open }
  handle-Keeps c (errs code) e = absurd cc

  -- The handlers of a list, one after the other, and the calls that they make.
  abbrev pub handle_all : Channel → List Handler → Channel
  handle_all c [] = c
  handle_all c (h ∷ hs) = handle_all (handle c h) hs

  abbrev pub all_made : List Handler → List ℕ
  all_made [] = []
  all_made (h ∷ hs) = made h ++ all_made hs

  handle_all-Keeps :
      (c : Channel) (hs : List Handler)
      → (handle_all c hs).closing ≡ false
      → Keeps c (handle_all c hs) (all_made hs)
  handle_all-Keeps c [] e = still c e
  handle_all-Keeps c (h ∷ hs) e =
      let v = handle_all-Keeps (handle c h) hs e in
      let w = handle-Keeps c h v.was_open in
      record {
        order_is =
            v.order_is
            ∙ ap (λ r. r ++ all_made hs) w.order_is
            ∙ append_assoc (order c) (made h) (all_made hs);
        flight_le = λ f. v.flight_le (w.flight_le f);
        was_open = w.was_open;
      }

  -- Whatever handlers run for a channel that starts with no calls, in whatever order: as long as no
  -- error has occurred, the calls that were answered, then those that were sent, then those that
  -- wait are all the calls in the order in which they were made, and at most one of them was sent
  -- and not answered.
  pub answered_in_order :
      (c : Channel) (hs : List Handler)
      → order c ≡ []
      → flight c ≤ 1
      → (handle_all c hs).closing ≡ false
      → (order (handle_all c hs) ≡ all_made hs) × (flight (handle_all c hs) ≤ 1)
  answered_in_order c hs o f e =
      let v = handle_all-Keeps c hs e in (v.order_is ∙ ap (λ r. r ++ all_made hs) o, v.flight_le f)
