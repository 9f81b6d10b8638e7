-- ===== src/Connect/Swallowed.antt =====
-- A request behind another one in the read buffer of a server's connection.
use mtrpc.Base.{
  ℕ, suc, zero, ◌≡◌, ◌⊎◌, refl, ap, sym, ◌∙◌, arith, Bool, true, false, [], ◌++◌, Option, some, leb,
  length, length-append, drop, Bool-cases, inl, inr, ℤ, pos, ◌-ℤ◌, if_intro,
}
use mathlib.Core.Path.{subst}
use mtrpc.Ring.{Que, Iterator}
use mtrpc.Ring.Sum.{total}
use mtrpc.Buffer.{IoBuffer, Stream, begin_packet, reset}
use mtrpc.Buffer.Socket.{same_refl}
use mtrpc.Buffer.Uniform.{IsUniform-IsFilled, reset-uniform}
use mtrpc.Text.{Bytes}
use mtrpc.Http.Request.{RequestHeader}
use mtrpc.Http.Serialize.{request_lines}
use mtrpc.Http.Written.{text}
use mtrpc.Http.Unread.{unread}
use mtrpc.SocketStream.{Hander, message_recived, Shared, SocketStream}
use mtrpc.SocketStream.Rounds.{Round, done, next, used_up, go_on}
use mtrpc.MessageStream.{round, take_packet}
use mtrpc.MessageStream.Wire.{IsRequest, IsBetween}
use mtrpc.MessageStream.Framing.{with_request, deliver, deliver-go_on, request-IsFramed}
use mtrpc.ConnectStream.Client.{server_handers}
use mtrpc.Connect.Closures.{Owned, serve, serve-Served}

unread_self : (n : ℕ) (q : Que) (e : Iterator) → unread n q e e ≡ []
unfolding unread
unread_self zero q e = refl
unread_self (suc n) q e = rw (same_refl e) refl

nothing_left :
    (io b : IoBuffer)
    → io ≡ record b { readpos = b.writepos }
    → unread (total io.que) io.que io.writepos io.readpos ≡ []
nothing_left io b e =
    subst (λ (io : IoBuffer). unread (total io.que) io.que io.writepos io.readpos ≡ []) (sym e)
      (unread_self (total b.que) b.que b.writepos)

-- A round goes on or not, with one stream or the other.
abbrev pub LeavesOff : Round Owned → SocketStream Owned → Type 0
LeavesOff r t = (r ≡ done t) ⊎ ((m : ℤ) × (r ≡ next t m))

go_on-LeavesOff : (from to : SocketStream Owned) (n : ℤ) → LeavesOff (go_on from to n) to
go_on-LeavesOff from to n =
    if_intro (λ r. LeavesOff r to) _ (inl refl)
      (if_intro (λ r. LeavesOff r to) _ (inr (n -ℤ used_up from to, refl)) (inl refl))

module _ (serialize parse : Bytes → Stream → Stream × Bool) (is_method fails : Bytes → Bool)
    (list : Shared Owned → Shared Owned)
    (reads_all : (m : Bytes) (b : Stream)
      → (parse m b).1 ≡ true
      → (parse m b).0.io ≡ record (b.io) { readpos = b.io.writepos }) where
  abbrev pub handers : Hander → Option (Shared Owned → Shared Owned)
  handers = server_handers (serve serialize parse is_method fails list)

  -- A request for a method that exists takes all that stands behind it in the read buffer: after its
  -- round nothing is left unread there, or the connection is closing. So it is where the protobuf
  -- parser reads to the end of its stream if it succeeds, whatever the stream holds behind the body
  -- that the request's header announces, and also if that is another request.
  pub swallowed :
      (s : SocketStream Owned) (n : ℤ) (w : RequestHeader) (body more : Bytes)
      → IsRequest w body
      → leb (length w.path) 1 ≡ false
      → is_method (drop 1 w.path) ≡ true
      → IsBetween s (text (request_lines w) ++ (body ++ more))
      → (t : SocketStream Owned) × LeavesOff (round handers s n) t
        × ((t.shared.close_when_empty ≡ true)
            ⊎ (unread
                  (total t.shared.readbuf.io.que)
                  t.shared.readbuf.io.que
                  t.shared.readbuf.io.writepos
                  t.shared.readbuf.io.readpos
                ≡ []))
  swallowed s n w body more v l m i =
      let full = IsUniform-IsFilled s.shared.readbuf.io.que i.uniform in
      let o =
        request-IsFramed handers s n i.earlier w (body ++ more)
          (record { filled = full; read_at = i.read_at; write_at = i.write_at }) i.header v.method
          v.path v.version v.lines v.order i.left in
      let t = with_request handers s w o.body in
      let k = n -ℤ pos (length (text (request_lines w))) in
      let f = serve serialize parse is_method fails list (message_recived k) in
      let to = take_packet (message_recived k) (some f) t in
      let b = begin_packet t.shared.readbuf in
      let d = serve-Served serialize parse is_method fails list k t.shared l m in
      let is =
        o.is
        ∙ ap (λ x. deliver handers t x (length (body ++ more)) k) v.size
        ∙ deliver-go_on handers t k f (length body) (length (body ++ more)) refl v.fits
            (omega (arith, length-append body more)) in
      (
        to,
        subst (λ r. LeavesOff r to) (sym is) (go_on-LeavesOff t to k),
        elim (Bool-cases (parse (drop 1 w.path) b).1) [
          | inl g ↦ inr (
              nothing_left to.shared.readbuf.io b.io (
                ap reset (ap (λ (x : Stream). x.io) d.buf ∙ reads_all (drop 1 w.path) b g)
                ∙ reset-uniform (record (b.io) { readpos = b.io.writepos }) i.uniform))
          | inr g ↦ inl (d.closing g)
        ],
      )
