-- ===== src/Channel.antt =====
-- rpc/rpc_channel_impl.h and rpc/rpc_channel_impl.cpp: the three queues of calls of a client's
-- channel, and the handlers that move the calls. A controller is its number with the fields that
-- the channel uses; the protobuf messages of a call are parameters.
pub mod Send
pub mod Fifo
pub mod InOrder
pub mod PartSent
pub mod Unsent
pub mod Arrives
use mtrpc.Base.{
  ℕ, zero, suc, ◌+◌, ◌-◌, ◌%◌, ◌^◌, Bool, true, false, not, ◌&&◌, ◌||◌, Option, none, some, List,
  [], ◌∷◌, ◌++◌, map, ltb, leb, ◌==◌, if◌then◌else◌, ℤ, pos, negsuc,
}
use mtrpc.Buffer.{Stream, begin_packet}
use mtrpc.Text.{Bytes}
use mtrpc.Error.{
  ErrorCode, value, server_wriebuffer_full, server_res_seria_failed, server_req_parser_failed,
  client_cancel_by_error, client_cancel_by_close, client_recv_timeout, client_send_timeout,
  client_connect_fail,
}
use mtrpc.Http.{get_content_length, set_seq, set_content_length}
use mtrpc.Http.Request.{RequestHeader, reset_request, set_path}
use mtrpc.Http.Response.{ResponseHeader, reset_response}
use mtrpc.Http.Serialize.{request_lines}
use mtrpc.Packet.{Packet, full, unserialized, packed, write_packet}

-- The fields of `RpcClientController`.
pub record Call : Type 0 where
  pub id : ℕ
  pub seq : ℕ
  pub pack_size : ℕ
  pub send_size : ℕ
  -- `_done` is not NULL.
  pub has_done : Bool

-- The requests to the event loop.
pub data Effect : Type 0 where
  mod_event : Bool → Bool → Effect
  set_read_time_out del_read_time_out set_write_time_out : Effect

pub record Channel : Type 0 where
  pub sendcall : List Call
  pub waitcall : List Call
  pub donecall : List Call
  -- The calls of `SetStatus`, in their order, and of `Run` on a call's `_done`.
  pub statuses : List (ℕ × ℕ)
  pub dones : List ℕ
  -- The stream: its buffers, its headers and `_close_when_empty`.
  pub writebuf : Stream
  pub readbuf : Stream
  pub reqheader : RequestHeader
  pub resheader : ResponseHeader
  pub closing : Bool
  pub effects : List Effect
  -- The last number that `GenerateSeq` has given out.
  pub last_seq : ℕ

abbrev pub tell : Channel → Effect → Channel
tell c e = record c { effects = c.effects ++ e ∷ [] }

-- `cntl->SetStatus(status)`
abbrev pub set_call_status : Channel → ℕ → ℕ → Channel
set_call_status c i st = record c { statuses = c.statuses ++ (i, st) ∷ [] }

abbrev pub with_status : ℕ → Call → ℕ × ℕ
with_status st k = (k.id, st)

-- `OnMessageError`: every call ends with a status.
unfoldable pub on_message_error : Channel → ℕ → Channel
on_message_error c code = record c {
  sendcall = [];
  waitcall = [];
  donecall = [];
  statuses =
      c.statuses
      ++ map (with_status (value client_cancel_by_error)) c.sendcall
      ++ map (with_status code) c.waitcall
      ++ map (with_status code) c.donecall;
  effects = c.effects ++ mod_event true true ∷ [];
  closing = true;
}

unfoldable pub on_send_timeout : Channel → Channel
unfolding on_message_error
on_send_timeout c = on_message_error c (value client_send_timeout)

unfoldable pub on_recv_timeout : Channel → Channel
unfolding on_message_error
on_recv_timeout c = on_message_error c (value client_recv_timeout)

abbrev pub is_empty_list : {A : Type 0} → List A → Bool
is_empty_list [] = true
is_empty_list _ = false

-- `OnClose`, up to the release of the stream and of the channel.
unfoldable pub on_close : Channel → Channel
unfolding on_message_error
on_close c =
    if is_empty_list c.sendcall && is_empty_list c.waitcall && is_empty_list c.donecall
    then c
    else on_message_error c (value client_cancel_by_close)

-- `Close`, of a stream that is not closed.
abbrev pub close : Channel → Channel
close c = tell (record c { closing = true }) (mod_event true true)

-- `CallMethod`, where the first argument says whether the stream is connected. The calling thread
-- then waits, if it has no closure.
unfoldable pub call_method : Bool → Channel → Call → Channel
call_method connected c k =
    if connected
    then tell (record c { sendcall = c.sendcall ++ k ∷ [] }) (mod_event true true)
    else record (set_call_status c k.id (value client_connect_fail)) {
      dones = if k.has_done then c.dones ++ k.id ∷ [] else c.dones;
    }

-- The body of the loop of `OnMessageSended`, with the call that it is about; the sizes are
-- `uint32_t`. It leaves the channel and `buffer_size`.
abbrev pub count_call : Channel → Call → List Call → ℕ → Channel × ℕ
count_call c k ks n =
    let sent = (k.send_size + n) % 2 ^ 32 in
    let k' = record k { send_size = sent } in
    if leb k.pack_size sent
    then (
      tell (record c { waitcall = ks; donecall = c.donecall ++ k' ∷ [] }) set_read_time_out,
      sent - k.pack_size,
    )
    else (record c { waitcall = k' ∷ ks }, n)

-- One round of the loop, with the calls that wait; `none` is its end.
unfoldable pub count_round : Channel → List Call → ℕ → Option (Channel × ℕ)
count_round c [] n = none
count_round c (k ∷ ks) n = if n == 0 then none else some (count_call c k ks n)

unfoldable pub count_sent : ℕ → Channel → ℕ → Channel
unfolding count_round
count_sent zero c n = c
count_sent (suc fuel) c n = elim (count_round c c.waitcall n) [
  | none ↦ c
  | some (c', n') ↦ count_sent fuel c' n'
]

-- `OnMessageSended`. Each round adds to what was sent of a packet, so that the packets' sizes and
-- number bound the rounds.
abbrev pub rounds : List Call → ℕ
rounds [] = 1
rounds (k ∷ ks) = k.pack_size + 1 + rounds ks

unfoldable pub on_message_sended : Channel → ℕ → Channel
unfolding count_sent
on_message_sended c n = count_sent (rounds c.waitcall) c n
