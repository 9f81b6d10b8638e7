-- ===== src/Channel/Arrives.antt =====
-- A request of `RpcChannelImpl::SendToServer` in the read buffer of a server's connection.
use mtrpc.Base.{
  ℕ, ◌^◌, ◌≡◌, ◌⊎◌, ◌≤◌, ◌<◌, refl, ap, sym, ◌∙◌, suc, arith, true, false, [], ◌∷◌, ◌++◌, Bool,
  length, length-append, drop, Option, some, if_intro, Bool-cases, inl, inr, ℤ, pos, ◌-ℤ◌, lt_ℤ,
  add_sub_left,
}
use mtrpc.Text.{Bytes, codes, assign, bytes_eq, bytes_lt}
use mtrpc.Ring.{Que, Iterator, IsAt, IsFilled, difference}
use mtrpc.Ring.Sum.{total}
use mtrpc.Ring.Distance.{gap, difference_lem}
use mtrpc.Http.{set_seq, set_content_length}
use mtrpc.Http.Numbers.{get_content_length-small}
use mtrpc.Http.Status.{decimal-is_word}
use mtrpc.Http.Words.{in_path, is_word}
use mtrpc.Http.Request.{RequestHeader}
use mtrpc.Http.Serialize.{request_lines}
use mtrpc.Http.Written.{text}
use mtrpc.Http.Unread.{unread, length-unread, gap-le-total}
use mtrpc.Buffer.{IoBuffer, Stream, begin_packet, reset}
use mtrpc.Buffer.Uniform.{IsUniform-IsFilled, reset-uniform}
use mtrpc.SocketStream.{Hander, message_recived, ran, Shared, SocketStream, returned}
use mtrpc.SocketStream.Rounds.{Round, done, after, rounds, used_up, go_on}
use mtrpc.MessageStream.{max_length, take_packet, round, on_recived}
use mtrpc.MessageStream.Wire.{IsRequest, IsBetween}
use mtrpc.MessageStream.Framing.{with_request, deliver, deliver-go_on, request-IsFramed}
use mtrpc.ConnectStream.Client.{server_handers}
use mtrpc.Connect.Closures.{Owned, serve, serve-Served}
use mtrpc.Channel.{Call, Channel}
use mtrpc.Channel.Send.{request_of, with_length, generate_seq}

generate_seq_lt : (last : ℕ) → generate_seq last < 2 ^ 64
generate_seq_lt last = ground arith

module _ (full_name : ℕ → Bytes) (serialize parse : ℕ → Stream → Stream × Bool) where
  -- The header that `SendToServer` writes.
  abbrev pub header_of : Channel → Call → ℕ → RequestHeader
  header_of c k n = with_length (request_of full_name serialize parse c k) n

  header_of-IsRequest :
      (c : Channel) (k : Call) (body : Bytes)
      → is_word in_path 255 (codes "/" ++ full_name k.id) ≡ true
      → length body ≤ max_length
      → IsRequest (header_of c k (length body)) body
  unfolding set_seq set_content_length assign bytes_eq bytes_lt
  header_of-IsRequest c k body h l = record {
    method = refl;
    path = h;
    version = refl;
    lines =
        rw (decimal-is_word (length body) (omega arith))
          (rw (decimal-is_word (generate_seq c.last_seq) (generate_seq_lt c.last_seq)) refl);
    order = refl;
    size =
        get_content_length-small
          (set_seq (request_of full_name serialize parse c k).header (generate_seq c.last_seq))
          (length body) (omega arith);
    fits = l;
  }

-- A loop that has used up all of its bytes, or is to close, returns.
go_on-done :
    {U : Type 0} (from to : SocketStream U) (n : ℤ)
    → (to.shared.close_when_empty ≡ true) ⊎ (lt_ℤ (pos 0) (n -ℤ used_up from to) ≡ false)
    → go_on from to n ≡ done to
go_on-done from to n (inl c) = rw c refl
go_on-done from to n (inr l) =
    if_intro (λ r. r ≡ done to) to.shared.close_when_empty refl (rw l refl)

-- What was read up to the end of the buffer.
all_used :
    (q : Que) (e it : Iterator) (io : IoBuffer) (body : Bytes)
    → IsFilled q
    → IsAt q e
    → IsAt q it
    → io.que ≡ q
    → io.readpos ≡ e
    → unread (total q) q e it ≡ body
    → lt_ℤ (pos 0) (pos (length body) -ℤ difference io.que io.readpos it) ≡ false
all_used q e it io body full ve vi a b u =
    let d = difference_lem q e it ve vi in
    let l : length body ≡ gap q e it =
      ap length (sym u) ∙ length-unread q e full ve (total q) it vi (gap-le-total q e it ve vi) in
    rw (a, b, d) (none_left (length body) (gap q e it) l)
  where
    none_left : (n m : ℕ) → n ≡ m → lt_ℤ (pos 0) (pos n -ℤ pos m) ≡ false
    none_left n m h = ground (arith, h)

module _ (full_name : ℕ → Bytes) (pack unpack : ℕ → Stream → Stream × Bool)
    (serialize parse : Bytes → Stream → Stream × Bool) (has_method fails : Bytes → Bool)
    (list : Shared Owned → Shared Owned)
    (reads_all : (m : Bytes) (b : Stream)
      → (parse m b).1 ≡ true
      → (parse m b).0.io ≡ record (b.io) { readpos = b.io.writepos }) where
  abbrev pub handers : Hander → Option (Shared Owned → Shared Owned)
  handers = server_handers (serve serialize parse has_method fails list)

  -- `OnRecived`, told of `n` bytes, runs the closure once, on a stream where the message is all that
  -- is unread, and returns what the closure and the parser leave.
  pub record Arrived (s : SocketStream Owned) (n : ℕ) (method body : Bytes) : Type 0 where
    pub stream : SocketStream Owned
    pub method_is : drop 1 stream.shared.reqheader.path ≡ method
    pub message :
        unread
          (total stream.shared.readbuf.io.que)
          stream.shared.readbuf.io.que
          stream.shared.readbuf.io.writepos
          stream.shared.readbuf.io.readpos
        ≡ body
    pub same_owner : stream.shared.owner ≡ s.shared.owner
    pub after : SocketStream Owned
    pub takes :
        let h = message_recived (pos (length body)) in after ≡ take_packet h (handers h) stream
    pub is : on_recived handers s n ≡ returned after
    pub log : after.log ≡ s.log ++ ran (message_recived (pos (length body))) ∷ []
    pub read :
        let b = (parse method (begin_packet stream.shared.readbuf)).0 in
        after.shared.readbuf ≡ record b { io = reset b.io }

  -- Where the bytes of an event are the request that `SendToServer` makes of a call, and all that is
  -- unread, `OnRecived` of the server's stream returns after one round: the closure runs once, and the
  -- parser of the call's method is given exactly the message that was sent. The name of the method is
  -- not empty, has neither a blank nor a NUL in it and at most 254 bytes, the server has it, and the
  -- message fits into the ring; the server's stream is not closing, its header is as `Reset` leaves
  -- it, and the pieces of its read buffer have their whole size; the protobuf parser reads to the end
  -- of its stream if it succeeds.
  pub call_delivered :
      (s : SocketStream Owned) (c : Channel) (k : Call) (body : Bytes)
      → let w = header_of full_name pack unpack c k (length body) in
        let sent = text (request_lines w) ++ body in
        is_word in_path 255 (codes "/" ++ full_name k.id) ≡ true
        → 0 < length (full_name k.id)
        → has_method (full_name k.id) ≡ true
        → length body ≤ max_length
        → IsBetween s sent
        → Arrived s (length sent) (full_name k.id) body
  unfolding on_recived rounds
  call_delivered s c k body p l m f i =
      let w = header_of full_name pack unpack c k (length body) in
      let v = header_of-IsRequest full_name pack unpack c k body p f in
      let full = IsUniform-IsFilled s.shared.readbuf.io.que i.uniform in
      let n = length (text (request_lines w) ++ body) in
      let o =
        request-IsFramed handers s (pos n) i.earlier w body
          (record { filled = full; read_at = i.read_at; write_at = i.write_at }) i.header v.method
          v.path v.version v.lines v.order i.left in
      let t = with_request handers s w o.body in
      let h = message_recived (pos (length body)) in
      let g = serve serialize parse has_method fails list h in
      let to = take_packet h (some g) t in
      let b = begin_packet t.shared.readbuf in
      let d =
        serve-Served serialize parse has_method fails list (pos (length body)) t.shared
          (ground (arith, l)) m in
      let z = pos n -ℤ pos (length (text (request_lines w))) in
      let size : z ≡ pos (length body) =
        ap (λ x. pos x -ℤ pos (length (text (request_lines w))))
          (length-append (text (request_lines w)) body)
        ∙ add_sub_left (length (text (request_lines w))) (length body) in
      let ends : (to.shared.close_when_empty ≡ true)
          ⊎ (lt_ℤ (pos 0) (pos (length body) -ℤ used_up t to) ≡ false) =
        elim (Bool-cases (parse (full_name k.id) b).1) [
          | inr z ↦ inl (d.closing z)
          | inl z ↦
              let e : to.shared.readbuf.io ≡ record (b.io) { readpos = b.io.writepos } =
                ap reset (ap (λ (x : Stream). x.io) d.buf ∙ reads_all (full_name k.id) b z)
                ∙ reset-uniform (record (b.io) { readpos = b.io.writepos }) i.uniform in
              inr (
                all_used b.io.que b.io.writepos b.io.readpos to.shared.readbuf.io body full
                  i.write_at o.at (ap (λ (x : IoBuffer). x.que) e)
                  (ap (λ (x : IoBuffer). x.readpos) e) o.left)
        ] in
      record {
        stream = t;
        method_is = refl;
        message = o.left;
        same_owner = refl;
        after = to;
        takes = refl;
        is =
            ap
              (λ (r : Round Owned).
                after r (rounds (round handers) (suc (total s.shared.readbuf.io.que))))
              (o.is
                ∙ ap (λ x. deliver handers t x (length body) z) v.size
                ∙ ap (deliver handers t (pos (length body)) (length body)) size
                ∙ deliver-go_on handers t (pos (length body)) g (length body) (length body) refl f
                    (omega arith)
                ∙ go_on-done t to (pos (length body)) ends);
        log = refl;
        read = ap (λ (x : Stream). record x { io = reset x.io }) d.buf;
      }
