-- ===== src/ConnectStream/Tame.antt =====
-- A ConnectStream closes in `OnClose` alone.
use mtrpc.Base.{suc, refl, Bool, Option, none, some, ℤ, pos, if_intro}
use mtrpc.Buffer.{Stream}
use mtrpc.Error.{ErrorCode, http_parser_fail, http_paser_half, http_req_nolength}
use mtrpc.Http.Response.{ResponseHeader, parser_response}
use mtrpc.Ring.Sum.{total}
use mtrpc.SocketStream.{
  Hander, connected, message_error, message_recived, message_sended, ran, Shared, SocketStream,
  on_connect,
}
use mtrpc.SocketStream.Keeps.{
  gives, Keeps, Keeps-refl, did-Keeps, run-Keeps, run_if-Keeps, on_close-IsSettled,
}
use mtrpc.SocketStream.Closing.{IsTame}
use mtrpc.SocketStream.Packets.{
  Spares, done_so, crash_so, or_crash-Spares, if-Spares, Spares-shared, go_on-Spares, rounds-Keeps,
}
use mtrpc.ConnectStream.{
  Connecting, take_packet, with_header, by_code, parsed, round, on_recived, connect_stream,
}

module _ {U : Type 0} (handers : Hander → Option (Shared U → Shared U)) where
  take_packet-Keeps :
      (s : SocketStream U) (n : ℤ) (o : Option (Shared U → Shared U))
      → Keeps s (take_packet (message_recived n) o s)
  take_packet-Keeps s n none = Keeps-refl s
  take_packet-Keeps s n (some f) = did-Keeps s _ (ran (message_recived n)) refl refl

  with_header-Spares : (s : SocketStream U) (n : ℤ) → Spares s (with_header handers s n)
  unfolding with_header
  with_header-Spares s n =
      if-Spares s _ (or_crash-Spares s (run-Keeps handers (message_error http_req_nolength) s refl))
        (if-Spares s _ (done_so (Keeps-refl s))
          (go_on-Spares s s _ n (take_packet-Keeps s n (handers (message_recived n)))))

  by_code-Spares : (c : ErrorCode) (s : SocketStream U) (n : ℤ) → Spares s (by_code handers c s n)
  unfolding by_code
  by_code-Spares http_parser_fail s n =
      or_crash-Spares s (run-Keeps handers (message_error http_parser_fail) s refl)
  by_code-Spares http_paser_half s n = done_so (Keeps-refl s)
  by_code-Spares _ s n = with_header-Spares s n

  round-Spares : (s : SocketStream U) (n : ℤ) → Spares s (round handers s n)
  unfolding round parsed
  round-Spares s n = by_parse (parser_response s.shared.readbuf s.shared.resheader)
    where
      by_parse :
          (o : Option (ErrorCode × Stream × ResponseHeader)) → Spares s (parsed handers s n o)
      by_parse none = crash_so (Keeps-refl s)
      by_parse (some (code, buf, header)) = Spares-shared s _ (by_code-Spares code _ _)

module _ {V : Type 0}
    (handers : Hander → Option (Shared (Connecting V) → Shared (Connecting V))) where
  pub connect_stream-IsTame : (known : Bool) → IsTame handers (connect_stream handers known)
  unfolding on_recived on_connect
  connect_stream-IsTame known = record {
    connects = λ s.
        let k =
          if_intro (λ (r : SocketStream (Connecting V) × Bool). Keeps s r.0) known
            (run_if-Keeps handers connected s refl) (Keeps-refl s) in
        record { same_closed = k.same_closed; deletes = k.deletes; closes = k.closes };
    receives = λ s n.
        rounds-Keeps (round handers) (round-Spares handers)
          (suc (suc (total s.shared.readbuf.io.que))) s (pos n);
    sends = λ s n. gives (run_if-Keeps handers (message_sended n) s refl);
    closes = λ s v.
        let w = on_close-IsSettled handers s v in record { deletes = w.deletes; closes = w.closes };
  }
