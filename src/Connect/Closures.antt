-- ===== src/Connect/Closures.antt =====
-- rpc/rpc_server_connect.cpp, `ServerConnect::Start`: the handlers of a connection as the closures of
-- its MessageStream. `OnListServer`, and the protobuf code, are parameters.
use mtrpc.Base.{
  ℕ, ◌+◌, ◌≡◌, refl, Bool, true, false, List, [], ◌∷◌, Option, none, some, leb, length, drop,
  if_intro, ℤ,
}
use mtrpc.Buffer.{Stream, begin_packet}
use mtrpc.Text.{Bytes, codes}
use mtrpc.Error.{value, ok}
use mtrpc.Http.{get_seq}
use mtrpc.Http.Response.{ResponseHeader}
use mtrpc.Http.Serialize.{response_lines}
use mtrpc.Packet.{Packet, full, unserialized, packed, write_packet}
use mtrpc.SocketStream.{Hander, closed, message_error, message_recived, message_sended, Shared}
use mtrpc.Connect.{
  Response, Connect, new_header, body_header, on_message_error, sent_response, send_via, process,
  on_message_recived, on_message_sended, on_close,
}

-- What belongs to a connection, beside its stream: the queue, the deleted controllers, the calls of
-- `ModEventAsync`, and a number for the next controller.
pub record Owned : Type 0 where
  pub pending : List Response
  pub deleted : List ℕ
  pub mods : List (Bool × Bool)
  pub made : ℕ

abbrev pub connect_of : Shared Owned → Connect
connect_of x = record {
  pending = x.owner.pending;
  deleted = x.owner.deleted;
  writebuf = x.writebuf;
  readbuf = x.readbuf;
  resheader = x.resheader;
  closing = x.close_when_empty;
  mods = x.owner.mods;
}

abbrev pub shared_of : Shared Owned → Connect → Shared Owned
shared_of x c = record x {
  readbuf = c.readbuf;
  writebuf = c.writebuf;
  resheader = c.resheader;
  close_when_empty = c.closing;
  owner = record {
    pending = c.pending;
    deleted = c.deleted;
    mods = c.mods;
    made = x.owner.made + 1;
  };
}

module _ (serialize parse : Bytes → Stream → Stream × Bool) (is_method fails : Bytes → Bool)
    (list : Shared Owned → Shared Owned) where
  -- `none` is a request for the list of services.
  abbrev pub answered : Shared Owned → Option Connect → Shared Owned
  answered x none = list x
  answered x (some c) = shared_of x c

  abbrev pub serve : Hander → Shared Owned → Shared Owned
  serve (message_recived n) x =
      answered x
        (on_message_recived serialize parse is_method fails (connect_of x) x.reqheader x.owner.made)
  serve (message_sended n) x =
      shared_of x (on_message_sended serialize parse is_method fails (connect_of x) n)
  serve (message_error e) x = shared_of x (on_message_error (connect_of x) (value e))
  serve closed x = shared_of x (on_close serialize parse is_method fails (connect_of x))
  serve _ x = x

  sent_response-readbuf :
      (c : Connect) (k : Response) (r : ResponseHeader) (p : Packet)
      → (sent_response c k r p).readbuf ≡ c.readbuf
  unfolding sent_response on_message_error
  sent_response-readbuf c k r (full w) = refl
  sent_response-readbuf c k r (unserialized w) = refl
  sent_response-readbuf c k r (packed w n size) = refl

  send_via-readbuf :
      (c : Connect) (k : Response) (ks : List Response)
      → (send_via serialize parse is_method fails c k ks).readbuf ≡ c.readbuf
  unfolding send_via
  send_via-readbuf c k (j ∷ js) = refl
  send_via-readbuf c k [] =
      let r = new_header c.resheader k.seq (value ok) (codes "OK") in
      sent_response-readbuf (record c { pending = k ∷ [] }) k r
        (write_packet (serialize k.method) (λ n. response_lines (body_header r n)) c.writebuf)

  -- `OnMessageRecived` leaves the read buffer where the message's parser did.
  process-readbuf :
      (c : Connect) (k : Response) (o : Stream × Bool)
      → (process serialize parse is_method fails c k o).readbuf ≡ o.0
  unfolding process on_message_error
  process-readbuf c k (r, false) = refl
  process-readbuf c k (r, true) =
      if_intro (λ (d : Connect). d.readbuf ≡ r) (fails k.method) refl
        (send_via-readbuf (record c { readbuf = r }) k c.pending)

  process-closing :
      (c : Connect) (k : Response) (o : Stream × Bool)
      → o.1 ≡ false
      → (process serialize parse is_method fails c k o).closing ≡ true
  unfolding process on_message_error
  process-closing c k (r, false) e = refl
  process-closing c k (r, true) e = absurd cc

  -- What a request for a method that exists leaves.
  pub record Served (x y : Shared Owned) : Type 0 where
    pub buf : y.readbuf ≡ (parse (drop 1 x.reqheader.path) (begin_packet x.readbuf)).0
    pub closing :
        (parse (drop 1 x.reqheader.path) (begin_packet x.readbuf)).1 ≡ false
        → y.close_when_empty ≡ true

  pub serve-Served :
      (n : ℤ) (x : Shared Owned)
      → leb (length x.reqheader.path) 1 ≡ false
      → is_method (drop 1 x.reqheader.path) ≡ true
      → Served x (serve (message_recived n) x)
  unfolding on_message_recived
  serve-Served n x l m =
      let method = drop 1 x.reqheader.path in
      let k : Response = record {
        id = x.owner.made;
        method = method;
        seq = get_seq x.reqheader.header;
        pack_size = 0;
        send_size = 0;
      } in
      let o = parse method (begin_packet x.readbuf) in
      rw (l, m)
        (record {
          buf = process-readbuf (connect_of x) k o;
          closing = process-closing (connect_of x) k o;
        })
