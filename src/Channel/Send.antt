-- ===== src/Channel/Send.antt =====
-- rpc/rpc_channel_impl.cpp: the handlers that send a request or take a response. The protobuf code
-- is a parameter: the full name of a call's method, `SerializeToZeroCopyStream` of its request and
-- `ParseFromZeroCopyStream` of its response, with whether they succeed.
use mtrpc.Base.{
  ℕ, ◌+◌, ◌-◌, ◌%◌, ◌^◌, Bool, true, false, ◌&&◌, List, [], ◌∷◌, ◌++◌, if◌then◌else◌, ltb, ℤ, pos,
  negsuc,
}
use mtrpc.Buffer.{Stream, begin_packet}
use mtrpc.Text.{Bytes, codes}
use mtrpc.Error.{value, server_wriebuffer_full, server_res_seria_failed, server_req_parser_failed}
use mtrpc.Http.{get_content_length, set_seq, set_content_length}
use mtrpc.Http.Request.{RequestHeader, reset_request, set_path}
use mtrpc.Http.Response.{reset_response}
use mtrpc.Http.Serialize.{request_lines}
use mtrpc.Packet.{Packet, full, unserialized, packed, write_packet}
use mtrpc.Channel.{
  Call, Channel, tell, mod_event, del_read_time_out, set_write_time_out, set_call_status,
  on_message_error, is_empty_list,
}

-- `0 < n`
abbrev pub is_positive : ℤ → Bool
is_positive (pos n) = ltb 0 n
is_positive (negsuc n) = false

-- The header with a content length.
abbrev pub with_length : RequestHeader → ℕ → RequestHeader
with_length r n = record r { header = set_content_length r.header n }

-- An error of `SendToServer`: `OnMessageError`, and `SetStatus` of the call.
abbrev pub send_failed : Channel → Call → ℕ → Channel × Call
send_failed c k code = (set_call_status (on_message_error c code) k.id code, k)

-- What `SendToServer` does once the packet is made, or is not.
unfoldable pub sent_packet : Channel → Call → RequestHeader → Packet → Channel × Call
sent_packet c k r (full w) =
    send_failed (record c { writebuf = w; reqheader = r }) k (value server_wriebuffer_full)
sent_packet c k r (unserialized w) =
    send_failed (record c { writebuf = w; reqheader = r }) k (value server_res_seria_failed)
sent_packet c k r (packed w n size) = (
  tell (record c { writebuf = w; reqheader = with_length r n }) (mod_event true true),
  record k { pack_size = size },
)

-- The call behind all that wait for their packet to be sent.
abbrev pub push_wait : Channel × Call → Channel
push_wait (c, k) = record c { waitcall = c.waitcall ++ k ∷ [] }

-- `GenerateSeq`, from the last value of its `int32_t` counter: the next one, as a `uint64_t`.
abbrev pub generate_seq : ℕ → ℕ
generate_seq last = let n = (last + 1) % 2 ^ 32 in if ltb n (2 ^ 31) then n else 2 ^ 64 - 2 ^ 32 + n

module _ (full_name : ℕ → Bytes) (serialize parse : ℕ → Stream → Stream × Bool) where
  -- The header of a request, without its content length.
  abbrev pub request_of : Channel → Call → RequestHeader
  request_of c k =
      let r = set_path (reset_request c.reqheader) (codes "/" ++ full_name k.id) in
      record r { header = set_seq r.header (generate_seq c.last_seq) }

  -- `SendToServer`: the channel, and the call with its new number and size.
  unfoldable pub send_to_server : Channel → Call → Channel × Call
  unfolding sent_packet write_packet
  send_to_server c k =
      sent_packet (record c { last_seq = (c.last_seq + 1) % 2 ^ 32 })
        (record k { seq = generate_seq c.last_seq }) (request_of c k)
        (write_packet (serialize k.id) (λ n. request_lines (with_length (request_of c k) n))
          c.writebuf)

  -- `OnWriteable`, with the calls that are to be sent.
  unfoldable pub write_first : Channel → List Call → Channel
  unfolding send_to_server
  write_first c [] = c
  write_first c (k ∷ ks) =
      if is_empty_list c.waitcall && is_empty_list c.donecall
      then push_wait (send_to_server (record c { sendcall = ks }) k)
      else c

  abbrev pub on_writeable : Channel → Channel
  on_writeable c = write_first c c.sendcall

  -- The end of `OnMessageRecived`: the next call is sent.
  unfoldable pub send_next : Channel → List Call → Channel
  unfolding send_to_server
  send_next c [] = c
  send_next c (k ∷ ks) =
      let (c', k') = send_to_server (record c { sendcall = ks }) k in
      push_wait (tell c' set_write_time_out, k')

  -- The response of a call, whose message parses or does not.
  unfoldable pub answer : Channel → Call → Stream × Bool → Channel
  unfolding send_next
  answer c k (r, false) =
      set_call_status
        (on_message_error (record c { readbuf = r; resheader = reset_response c.resheader })
          (value server_req_parser_failed))
        k.id (value server_req_parser_failed)
  answer c k (r, true) =
      send_next
        (record (set_call_status c k.id c.resheader.status) {
          dones = if k.has_done then c.dones ++ k.id ∷ [] else c.dones;
          readbuf = r;
          resheader = reset_response c.resheader;
        })
        c.sendcall

  -- `OnMessageRecived`, with the calls that wait for a response.
  unfoldable pub answer_first : Channel → List Call → Channel
  unfolding answer
  answer_first c [] = c
  answer_first c (k ∷ ks) =
      let r = begin_packet c.readbuf in
      answer (record c { donecall = ks; readbuf = r }) k
        (if is_positive (get_content_length c.resheader.header) then parse k.id r else (r, true))

  abbrev pub on_message_recived : Channel → Channel
  on_message_recived c = answer_first (tell c del_read_time_out) c.donecall
