-- ===== src/Tests/Calls.antt =====
-- Runs of a channel.
use mtrpc.Base.{ℕ, ◌≡◌, ◌≤◌, refl, arith, Bool, true, false, List, [], ◌∷◌, ◌++◌}
use mtrpc.Buffer.{Stream}
use mtrpc.Text.{Bytes, codes}
use mtrpc.Http.{http_header}
use mtrpc.Http.Request.{request_header}
use mtrpc.Http.Response.{ResponseHeader, reset_response}
use mtrpc.Channel.{Call, Channel, call_method, on_message_sended}
use mtrpc.Channel.Fifo.{ids, order, flight}
use mtrpc.Channel.InOrder.{Handler, calls, sends, handle_all, all_made, answered_in_order}
use mtrpc.Channel.PartSent.{part_sent}

abbrev empty : Stream
empty = record {
  io = record {
    que = λ i. record { buffer = λ j. 0; size = 100 };
    readpos = record { idx = 0; ofs = 0 };
    writepos = record { idx = 0; ofs = 0 };
  };
  begin_pos = record { idx = 0; ofs = 0 };
}

abbrev no_response : ResponseHeader
no_response = reset_response (record { header = http_header; status = 0; status_msg = [] })

abbrev channel : Channel
channel = record {
  sendcall = [];
  waitcall = [];
  donecall = [];
  statuses = [];
  dones = [];
  writebuf = empty;
  readbuf = empty;
  reqheader = request_header;
  resheader = no_response;
  closing = false;
  effects = [];
  last_seq = 0;
}

abbrev call : ℕ → Call
call i = record { id = i; seq = 0; pack_size = 50; send_size = 0; has_done = false }

abbrev full_name : ℕ → Bytes
full_name i = codes "S.m"

abbrev works : ℕ → Stream → Stream × Bool
works i s = (s, true)

abbrev fails : ℕ → Stream → Stream × Bool
fails i s = (s, false)

abbrev two_calls : List (Handler full_name works works)
two_calls = calls (call 7) ∷ calls (call 8) ∷ sends 5 ∷ []

answered_in_order_example :
    (order (handle_all full_name works works channel two_calls)
      ≡ all_made full_name works works two_calls)
    × (flight (handle_all full_name works works channel two_calls) ≤ 1)
unfolding on_message_sended call_method
answered_in_order_example =
    answered_in_order full_name works works channel two_calls refl (omega arith) refl

abbrev waiting_call : Channel
waiting_call = record channel { waitcall = call 7 ∷ [] }

part_sent_example :
    ((on_message_sended waiting_call 1).waitcall ≡ [])
    × (ids (on_message_sended waiting_call 1).donecall ≡ ids waiting_call.donecall ++ 7 ∷ [])
part_sent_example = part_sent waiting_call (call 7) 1 refl (omega arith) (omega arith) (omega arith)

abbrev to_send : Channel
to_send = record channel { sendcall = call 7 ∷ call 8 ∷ [] }
