-- ===== src/Connect.antt =====
-- rpc/rpc_server_connect.h and rpc/rpc_server_connect.cpp: a server's end of a connection, with the
-- queue of responses. The services, and the protobuf messages of a method, are parameters. The
-- answer to a request for the list of services goes through `SerializeBody` and is left out.
pub mod Sent
pub mod Errors
pub mod Closures
pub mod Swallowed
use mtrpc.Base.{
  ℕ, zero, suc, ◌+◌, ◌%◌, ◌^◌, Bool, true, false, List, [], ◌∷◌, ◌++◌, Option, none, some, ltb, leb,
  if◌then◌else◌, length, drop,
}
use mtrpc.Buffer.{Stream, align_write_pos, begin_packet}
use mtrpc.Text.{Bytes, codes}
use mtrpc.Error.{
  value, ok, error_string, http_method_notfound, server_req_parser_failed, server_wriebuffer_full,
  server_res_seria_failed,
}
use mtrpc.Http.{HttpHeader, set_header, set_seq, get_seq, set_content_length}
use mtrpc.Http.Request.{RequestHeader}
use mtrpc.Http.Response.{ResponseHeader, reset_response, set_status}
use mtrpc.Http.Serialize.{response_lines, serialize_lines}
use mtrpc.Packet.{Packet, full, unserialized, packed, write_packet}

-- The fields of `RpcServerController`.
pub record Response : Type 0 where
  pub id : ℕ
  pub method : Bytes
  pub seq : ℕ
  pub pack_size : ℕ
  pub send_size : ℕ

pub record Connect : Type 0 where
  pub pending : List Response
  -- The controllers that were deleted, in their order.
  pub deleted : List ℕ
  -- The stream: its buffers, the header of its response, `_close_when_empty`, and what it asked the
  -- event loop for with `ModEventAsync`.
  pub writebuf : Stream
  pub readbuf : Stream
  pub resheader : ResponseHeader
  pub closing : Bool
  pub mods : List (Bool × Bool)

-- `stream->ModEventAsync(p, r, w)`
abbrev pub mod_event : Connect → Bool → Bool → Connect
mod_event c r w = record c { mods = c.mods ++ (r, w) ∷ [] }

-- `delete cntl`
abbrev pub delete : Connect → ℕ → Connect
delete c i = record c { deleted = c.deleted ++ i ∷ [] }

-- The sequence number that `OnMessageError` answers with.
abbrev pub front_seq : List Response → ℕ
front_seq [] = 0
front_seq (k ∷ ks) = k.seq

-- The header of a response, with a number, a status and its text.
abbrev pub new_header : ResponseHeader → ℕ → ℕ → Bytes → ResponseHeader
new_header r seq st msg =
    let z = reset_response r in set_status (record z { header = set_seq z.header seq }) st msg

-- The header of an error.
abbrev pub error_header : Connect → ℕ → ResponseHeader
error_header c code =
    let z = new_header c.resheader (front_seq c.pending) code (codes (error_string code)) in
    record z { header = set_content_length z.header 0 }

-- `OnMessageError`: an answer without a body, behind what is in the write buffer.
unfoldable pub on_message_error : Connect → ℕ → Connect
unfolding serialize_lines error_string
on_message_error c code =
    let w = record (c.writebuf) { io = align_write_pos c.writebuf.io } in
    let que =
      (serialize_lines (response_lines (error_header c code)) w.io.que c.writebuf.io.writepos).0 in
    record (mod_event c true true) {
      writebuf = record w { io = record (w.io) { que = que } };
      resheader = error_header c code;
      closing = true;
    }

-- The header of a response with a protobuf body of `n` bytes.
abbrev pub body_header : ResponseHeader → ℕ → ResponseHeader
body_header r n = record r {
  header =
      set_header (set_content_length r.header n) (codes "Content-Type")
        (codes " application/x-protobuf");
}

-- What `SendMessage` does once the packet is made, or is not; `k` stands alone in the queue.
unfoldable pub sent_response : Connect → Response → ResponseHeader → Packet → Connect
unfolding on_message_error
sent_response c k r (full w) =
    delete
      (on_message_error (record c { writebuf = w; resheader = r }) (value server_wriebuffer_full))
      k.id
sent_response c k r (unserialized w) =
    delete
      (on_message_error (record c { writebuf = w; resheader = r }) (value server_res_seria_failed))
      k.id
sent_response c k r (packed w n size) =
    mod_event
      (record c {
        pending = record k { pack_size = size } ∷ [];
        writebuf = w;
        resheader = body_header r n;
      })
      true true

module _ (serialize parse : Bytes → Stream → Stream × Bool) (is_method fails : Bytes → Bool) where
  -- `SendMessage` of a response with a message, with the queue that it finds. The test of
  -- HTTP_MAX_REQUEST_PENDING follows the return for a queue that is not empty, and is never true.
  unfoldable pub send_via : Connect → Response → List Response → Connect
  unfolding sent_response write_packet
  send_via c k (j ∷ js) = mod_event (record c { pending = (j ∷ js) ++ k ∷ [] }) true true
  send_via c k [] =
      let r = new_header c.resheader k.seq (value ok) (codes "OK") in
      sent_response (record c { pending = k ∷ [] }) k r
        (write_packet (serialize k.method) (λ n. response_lines (body_header r n)) c.writebuf)

  abbrev pub send_message : Connect → Response → Connect
  send_message c k = send_via c k c.pending

  -- The end of `OnMessageSended`, with the queue that is left.
  unfoldable pub after_pop : Connect → List Response → Connect
  unfolding send_via
  after_pop c [] = mod_event c true false
  after_pop c (j ∷ js) = send_message c j

  -- `OnMessageSended`, with the queue that it finds.
  unfoldable pub sended_via : Connect → List Response → ℕ → Connect
  unfolding after_pop
  sended_via c [] n = mod_event c true false
  sended_via c (k ∷ ks) n =
      let sent = (k.send_size + n) % 2 ^ 32 in
      let next = after_pop (delete (record c { pending = ks }) k.id) ks in
      if c.closing
      then c
      else if ltb sent k.pack_size
      then record c { pending = record k { send_size = sent } ∷ ks }
      else next

  abbrev pub on_message_sended : Connect → ℕ → Connect
  on_message_sended c n = sended_via c c.pending n

  -- The end of `OnMessageRecived`, with the request's message parsed or not.
  unfoldable pub process : Connect → Response → Stream × Bool → Connect
  unfolding on_message_error send_via
  process c k (r, false) =
      on_message_error (record c { readbuf = r }) (value server_req_parser_failed)
  process c k (r, true) =
      let d = record c { readbuf = r } in
      if fails k.method
      then on_message_error (delete d k.id) (value server_req_parser_failed)
      else send_message d k

  -- `OnMessageRecived` of a request, with the number of its controller. `none` is a request for the
  -- list of services, whose path has at most one character.
  unfoldable pub on_message_recived : Connect → RequestHeader → ℕ → Option Connect
  unfolding process
  on_message_recived c req i =
      let method = drop 1 req.path in
      let k : Response = record {
        id = i;
        method = method;
        seq = get_seq req.header;
        pack_size = 0;
        send_size = 0;
      } in
      if leb (length req.path) 1
      then none
      else if is_method method
      then some (process c k (parse method (begin_packet c.readbuf)))
      else some (on_message_error c (value http_method_notfound))

  -- `OnClose`, up to the release of the stream and of the connection.
  abbrev pub release : List Response → List ℕ
  release [] = []
  release (k ∷ ks) = k.id ∷ release ks

  abbrev pub on_close : Connect → Connect
  on_close c = record c { pending = []; deleted = c.deleted ++ release c.pending }
