-- ===== src/ConnectStream/Framing.antt =====
-- One round of `ConnectStream::OnRecived` at a response that `SerializeHeader` wrote.
use mtrpc.Base.{
  ℕ, ◌≡◌, ◌<◌, ◌^◌, refl, ap, ◌∙◌, true, ◌++◌, length, Option, if◌then◌else◌, ℤ, pos, ◌-ℤ◌, lt_ℤ,
  suc_sub_one,
}
use mtrpc.Ring.{Iterator, increment, deref}
use mtrpc.Ring.Sum.{total}
use mtrpc.Ring.Distance.{difference_lem}
use mtrpc.Buffer.{IsValid}
use mtrpc.Text.{Bytes}
use mtrpc.Error.{http_req_nolength}
use mtrpc.Http.{get_content_length}
use mtrpc.Http.Response.{ResponseHeader, reset_response, parser_response}
use mtrpc.Http.Serialize.{response_lines}
use mtrpc.Http.Written.{text}
use mtrpc.Http.Unread.{unread, increment-IsAt}
use mtrpc.Http.Words.{in_path, in_line, is_word, all_lines, ascends}
use mtrpc.Http.ResponseBack.{taken_back, response-IsTakenBack}
use mtrpc.SocketStream.{Hander, message_error, message_recived, Shared, SocketStream, run}
use mtrpc.SocketStream.Rounds.{Round, done, or_crash, go_on}
use mtrpc.ConnectStream.{body_size, take_packet, with_header, by_code, parsed, round}

module _ {U : Type 0} (handers : Hander → Option (Shared U → Shared U)) where
  -- The stream once the header has been read, whose last byte stands at `body`.
  abbrev pub with_response : SocketStream U → ResponseHeader → Iterator → SocketStream U
  with_response s w body =
      let b = s.shared.readbuf in
      record s {
        shared = record (s.shared) {
          readbuf = record b { io = record (b.io) { readpos = increment b.io.que body } };
          resheader = taken_back w body;
        };
      }

  -- What becomes of a response of `len` bytes behind its header, of which `have` are there.
  abbrev pub deliver : SocketStream U → ℤ → ℕ → ℤ → Round U
  deliver t len have n =
      if lt_ℤ len (pos 0)
      then or_crash (run handers (message_error http_req_nolength) t)
      else if lt_ℤ (pos have) len
      then done t
      else go_on t (take_packet (message_recived n) (handers (message_recived n)) t) n

  -- The round reads one response, and delivers it.
  pub record IsWhole (s : SocketStream U) (n : ℤ) (w : ResponseHeader) (rest : Bytes) : Type 0 where
    pub body : Iterator
    pub last : deref s.shared.readbuf.io.que body ≡ b'\n'
    pub is :
        round handers s n
        ≡ deliver
            (with_response s w body)
            (get_content_length w.header)
            (length rest)
            (n -ℤ pos (length (text (response_lines w))))
    pub left :
        unread
          (total s.shared.readbuf.io.que)
          s.shared.readbuf.io.que
          s.shared.readbuf.io.writepos
          (increment s.shared.readbuf.io.que body)
        ≡ rest

  with_header-deliver :
      (t : SocketStream U) (n len : ℤ) (have : ℕ)
      → get_content_length t.shared.resheader.header ≡ len
      → body_size t ≡ pos have
      → with_header handers t n ≡ deliver t len have n
  unfolding with_header
  with_header-deliver t n len have l b = rw (l, b) refl

  -- At the start of what `SerializeHeader` writes of a response, with `rest` behind it, a round reads
  -- the header and then, of a body of `len` bytes that the header says: it reports an error if `len`
  -- is negative; it returns and waits if there are fewer bytes in `rest`; else it runs the closure at
  -- the start of the body. The number of bytes that the closure is given, and with which the loop
  -- goes on, is less by the size of the header. The stream's header is as `Reset` leaves it, and the
  -- response is one that the parser reads back.
  pub response-IsWhole :
      (s : SocketStream U) (n : ℤ) (r w : ResponseHeader) (rest : Bytes)
      → IsValid s.shared.readbuf.io
      → s.shared.resheader ≡ reset_response r
      → is_word in_path 255 w.header.version ≡ true
      → w.status < 2 ^ 32
      → is_word in_line 255 w.status_msg ≡ true
      → all_lines w.header.headers ≡ true
      → ascends w.header.headers ≡ true
      → unread
          (total s.shared.readbuf.io.que)
          s.shared.readbuf.io.que
          s.shared.readbuf.io.writepos
          s.shared.readbuf.io.readpos
        ≡ text (response_lines w) ++ rest
      → IsWhole s n w rest
  unfolding round parsed by_code
  response-IsWhole s n r w rest v e m p k h a u =
      let b = s.shared.readbuf in
      let q = b.io.que in
      let o = response-IsTakenBack b r w rest v m p k h a u in
      let t = with_response s w o.body in
      let at = increment-IsAt q b.io.writepos v.filled v.write_at o.body o.at_body in
      let n' = n -ℤ pos (length (text (response_lines w))) in
      let used = difference_lem q (increment q o.body) b.io.readpos at v.read_at ∙ ap pos o.used in
      let size = difference_lem q b.io.writepos o.body v.write_at o.at_body ∙ ap pos o.size in
      record {
        body = o.body;
        last = o.last;
        is =
            ap (parsed handers s n) (ap (parser_response b) e ∙ o.is)
            ∙ ap (λ x. with_header handers t (n -ℤ x)) used
            ∙ with_header-deliver t n' (get_content_length w.header) (length rest)
                o.numbers.content_length (ap (λ x. x -ℤ pos 1) size ∙ suc_sub_one (length rest));
        left = o.left;
      }
