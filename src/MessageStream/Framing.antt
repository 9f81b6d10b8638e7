-- ===== src/MessageStream/Framing.antt =====
-- One round of `MessageStream::OnRecived` at a request that `SerializeHeader` wrote.
use mtrpc.Base.{
  ℕ, ◌≡◌, refl, ap, ◌∙◌, arith, true, false, ◌++◌, ◌≤◌, length, Option, some, if◌then◌else◌, ℤ, pos,
  ◌-ℤ◌, lt_ℤ, suc_sub_one,
}
use mtrpc.Ring.{Iterator, IsAt, increment, deref}
use mtrpc.Ring.Sum.{total}
use mtrpc.Ring.Distance.{difference_lem}
use mtrpc.Buffer.{IsValid}
use mtrpc.Text.{Bytes}
use mtrpc.Error.{http_request_overflow}
use mtrpc.Http.{get_content_length}
use mtrpc.Http.Request.{RequestHeader, reset_request, parser_header}
use mtrpc.Http.Serialize.{request_lines}
use mtrpc.Http.Written.{text}
use mtrpc.Http.Unread.{unread, increment-IsAt}
use mtrpc.Http.Words.{in_path, in_line, is_word, all_lines, ascends}
use mtrpc.Http.RequestText.{is_method}
use mtrpc.Http.ReadBack.{read_back, request-IsReadBack}
use mtrpc.SocketStream.{Hander, message_error, message_recived, Shared, SocketStream, run}
use mtrpc.SocketStream.Rounds.{Round, done, or_crash, go_on}
use mtrpc.MessageStream.{max_length, body_size, take_packet, with_header, by_code, parsed, round}

module _ {U : Type 0} (handers : Hander → Option (Shared U → Shared U)) where
  -- The stream once the header has been read, whose last byte stands at `body`.
  abbrev pub with_request : SocketStream U → RequestHeader → Iterator → SocketStream U
  with_request s w body =
      let b = s.shared.readbuf in
      record s {
        shared = record (s.shared) {
          readbuf = record b { io = record (b.io) { readpos = increment b.io.que body } };
          reqheader = read_back w body;
        };
      }

  -- What becomes of a request of `len` bytes behind its header, of which `have` are there.
  abbrev pub deliver : SocketStream U → ℤ → ℕ → ℤ → Round U
  deliver t len have n =
      if lt_ℤ (pos max_length) len
      then or_crash (run handers (message_error http_request_overflow) t)
      else if lt_ℤ (pos have) len
      then done t
      else go_on t (take_packet (message_recived n) (handers (message_recived n)) t) n

  pub deliver-go_on :
      (t : SocketStream U) (n : ℤ) (f : Shared U → Shared U) (len have : ℕ)
      → handers (message_recived n) ≡ some f
      → len ≤ max_length
      → len ≤ have
      → deliver t (pos len) have n ≡ go_on t (take_packet (message_recived n) (some f) t) n
  deliver-go_on t n f len have e h k = rw (e, small len h, there len have k) refl
    where
      small : (len : ℕ) → len ≤ max_length → lt_ℤ (pos max_length) (pos len) ≡ false
      small len h = ground arith

      there : (len have : ℕ) → len ≤ have → lt_ℤ (pos have) (pos len) ≡ false
      there len have k = ground arith

  -- The round reads one request, and delivers it.
  pub record IsFramed (s : SocketStream U) (n : ℤ) (w : RequestHeader) (rest : Bytes) : Type 0 where
    pub body : Iterator
    pub last : deref s.shared.readbuf.io.que body ≡ b'\n'
    pub is :
        round handers s n
        ≡ deliver
            (with_request s w body)
            (get_content_length w.header)
            (length rest)
            (n -ℤ pos (length (text (request_lines w))))
    pub at : IsAt s.shared.readbuf.io.que (increment s.shared.readbuf.io.que body)
    pub same_length : get_content_length (read_back w body).header ≡ get_content_length w.header
    pub left :
        unread
          (total s.shared.readbuf.io.que)
          s.shared.readbuf.io.que
          s.shared.readbuf.io.writepos
          (increment s.shared.readbuf.io.que body)
        ≡ rest

  with_header-deliver :
      (t : SocketStream U) (n len : ℤ) (have : ℕ)
      → get_content_length t.shared.reqheader.header ≡ len
      → body_size t ≡ pos have
      → with_header handers t n ≡ deliver t len have n
  unfolding with_header
  with_header-deliver t n len have l b = rw (l, b) refl

  -- At the start of what `SerializeHeader` writes of a request, with `rest` behind it, a round reads
  -- the header and then, of a body of `len` bytes that the header says: it reports an overflow if they
  -- are more than the ring has; it returns and waits if there are fewer bytes in `rest`; else it runs
  -- the closure at the start of the body. The number of bytes that the closure is given, and with
  -- which the loop goes on, is less by the size of the header. The stream's header is as `Reset`
  -- leaves it, and the request is one that the parser reads back.
  pub request-IsFramed :
      (s : SocketStream U) (n : ℤ) (r w : RequestHeader) (rest : Bytes)
      → IsValid s.shared.readbuf.io
      → s.shared.reqheader ≡ reset_request r
      → is_method w.method ≡ true
      → is_word in_path 255 w.path ≡ true
      → is_word in_line 255 w.header.version ≡ true
      → all_lines w.header.headers ≡ true
      → ascends w.header.headers ≡ true
      → unread
          (total s.shared.readbuf.io.que)
          s.shared.readbuf.io.que
          s.shared.readbuf.io.writepos
          s.shared.readbuf.io.readpos
        ≡ text (request_lines w) ++ rest
      → IsFramed s n w rest
  unfolding round parsed by_code
  request-IsFramed s n r w rest v e m p k h a u =
      let b = s.shared.readbuf in
      let q = b.io.que in
      let o = request-IsReadBack b r w rest v m p k h a u in
      let t = with_request s w o.body in
      let at = increment-IsAt q b.io.writepos v.filled v.write_at o.body o.at_body in
      let n' = n -ℤ pos (length (text (request_lines w))) in
      let used = difference_lem q (increment q o.body) b.io.readpos at v.read_at ∙ ap pos o.used in
      let size = difference_lem q b.io.writepos o.body v.write_at o.at_body ∙ ap pos o.size in
      record {
        body = o.body;
        last = o.last;
        is =
            ap (parsed handers s n) (ap (parser_header b) e ∙ o.is)
            ∙ ap (λ x. with_header handers t (n -ℤ x)) used
            ∙ with_header-deliver t n' (get_content_length w.header) (length rest)
                o.numbers.content_length (ap (λ x. x -ℤ pos 1) size ∙ suc_sub_one (length rest));
        at = at;
        same_length = o.numbers.content_length;
        left = o.left;
      }
