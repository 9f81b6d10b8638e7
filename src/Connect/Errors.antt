-- ===== src/Connect/Errors.antt =====
-- The errors of a server's connection.
use mtrpc.Base.{
  ℕ, ◌^◌, ◌<◌, ◌≡◌, refl, ap, sym, ◌∙◌, Bool, true, false, List, [], ◌∷◌, ◌++◌, Option, none, some,
  leb, Bool-cases, inl, inr, length, drop,
}
use mtrpc.Buffer.{Stream}
use mtrpc.Text.{Bytes, codes}
use mtrpc.Error.{value, ok, http_method_notfound}
use mtrpc.Http.{get_seq}
use mtrpc.Http.Numbers.{get_seq-set_seq}
use mtrpc.Http.Request.{RequestHeader}
use mtrpc.Http.Response.{ResponseHeader, reset_response}
use mtrpc.Http.Serialize.{response_lines}
use mtrpc.Packet.{Packet, full, unserialized, packed, write_packet}
use mtrpc.Packet.Fails.{is_packed, write_packet-fails}
use mtrpc.Connect.{
  Response, Connect, front_seq, new_header, body_header, on_message_error, sent_response, send_via,
  send_message, on_message_recived, on_close, release,
}

sent_response-fails :
    (c : Connect) (k : Response) (r : ResponseHeader) (p : Packet)
    → is_packed p ≡ false
    → ((sent_response c k r p).pending ≡ c.pending)
      × ((sent_response c k r p).deleted ≡ c.deleted ++ k.id ∷ [])
unfolding sent_response on_message_error
sent_response-fails c k r (full w) e = (refl, refl)
sent_response-fails c k r (unserialized w) e = (refl, refl)
sent_response-fails c k r (packed w n size) e = absurd cc

-- An error is answered with its code, and the sequence number of the response that waits first.
error_answer :
    (c : Connect) (code : ℕ)
    → front_seq c.pending < 2 ^ 64
    → (get_seq (on_message_error c code).resheader.header ≡ front_seq c.pending)
      × ((on_message_error c code).resheader.status ≡ code)
      × ((on_message_error c code).closing ≡ true)
unfolding on_message_error
error_answer c code l =
    ((get_seq-set_seq (reset_response c.resheader).header (front_seq c.pending) 0 l).0, refl, refl)

code_is : value http_method_notfound ≡ 424
unfolding value
code_is = refl

module _ (serialize parse : Bytes → Stream → Stream × Bool) (is_method fails : Bytes → Bool) where
  -- A response whose message does not serialize is deleted by `SendMessage`, stays in the queue,
  -- and is deleted once more when the connection closes.
  pub deleted_twice :
      (c : Connect) (k : Response)
      → ((s : Stream) → (serialize k.method s).1 ≡ false)
      → c.pending ≡ []
      → (on_close serialize parse is_method fails
          (send_message serialize parse is_method fails c k)).deleted
        ≡ c.deleted ++ k.id ∷ [] ++ k.id ∷ []
  unfolding send_via
  deleted_twice c k h e =
      ap
        (λ q.
          (on_close serialize parse is_method fails
            (send_via serialize parse is_method fails c k q)).deleted)
        e
      ∙ closed
          (sent_response (record c { pending = k ∷ [] }) k r
            (write_packet (serialize k.method) lines c.writebuf))
          (sent_response-fails (record c { pending = k ∷ [] }) k r
            (write_packet (serialize k.method) lines c.writebuf)
            (write_packet-fails (serialize k.method) lines c.writebuf h))
    where
      r : ResponseHeader
      r = new_header c.resheader k.seq (value ok) (codes "OK")

      lines : ℕ → List Bytes
      lines n = response_lines (body_header r n)

      closed :
          (d : Connect)
          → (d.pending ≡ k ∷ []) × (d.deleted ≡ c.deleted ++ k.id ∷ [])
          → d.deleted ++ release serialize parse is_method fails d.pending
            ≡ c.deleted ++ k.id ∷ [] ++ k.id ∷ []
      closed d (p, q) = rw (p, q) refl

  -- A request for a method that is not there is answered by status 424 and with the sequence number
  -- of the response that waits first, or 0 where none waits, whatever number the request had; then
  -- the connection is to close.
  pub not_found :
      (c : Connect) (req : RequestHeader) (i : ℕ) {d : Connect}
      → is_method (drop 1 req.path) ≡ false
      → front_seq c.pending < 2 ^ 64
      → on_message_recived serialize parse is_method fails c req i ≡ some d
      → (get_seq d.resheader.header ≡ front_seq c.pending)
        × (d.resheader.status ≡ 424)
        × (d.closing ≡ true)
  unfolding on_message_recived
  not_found c req i {d} h l e = elim (Bool-cases (leb (length req.path) 1)) [
    | inl t ↦ absurd (none-some (sym (none_is t) ∙ e))
    | inr t ↦
        let q = sym (error_is t) ∙ e in
        let a = error_answer c (value http_method_notfound) l in
        (
          ap (λ o. get_seq ((got o).resheader.header)) (sym q) ∙ a.0,
          ap (λ o. (got o).resheader.status) (sym q) ∙ a.1 ∙ code_is,
          ap (λ o. (got o).closing) (sym q) ∙ a.2,
        )
  ]
    where
      got : Option Connect → Connect
      got none = c
      got (some x) = x

      none_is :
          leb (length req.path) 1 ≡ true
          → on_message_recived serialize parse is_method fails c req i ≡ none
      none_is t = rw t refl

      error_is :
          leb (length req.path) 1 ≡ false
          → on_message_recived serialize parse is_method fails c req i
            ≡ some (on_message_error c (value http_method_notfound))
      error_is t = rw (t, h) refl

      none-some : none ≡ some d → ⊥
      none-some k = cc
