-- ===== src/SocketStream.antt =====
-- mio/mio_socket_stream.h and .cpp: a stream over a socket. The closures that the server and the
-- client hang into it are a parameter, `handers`, and so are the methods that MessageStream and
-- ConnectStream override. What `readv` and `writev` return, one call after the other, is a list.
--
-- A closure can change the buffers, the headers, `_close_when_empty` and what is its owner's.
pub mod Keeps
pub mod Closing
pub mod Transfer
pub mod Rounds
pub mod Packets
use mtrpc.Base.{
  ℕ, ◌+◌, Bool, true, false, not, ◌&&◌, ◌||◌, List, [], ◌∷◌, ◌++◌, Option, none, some, ltb,
  if◌then◌else◌, ℤ,
}
use mtrpc.Buffer.{
  IoBuffer, Stream, is_empty, get_recive_buffer, move_recive_ptr, get_send_buffer, move_send_ptr,
}
use mtrpc.Error.{ErrorCode, server_readbuffer_full}
use mtrpc.Event.{Mask}
use mtrpc.Http.Request.{RequestHeader}
use mtrpc.Http.Response.{ResponseHeader}

-- The closures, with what they are given beside the stream and the poller.
pub data Hander : Type 0 where
  connected readable writeable closed read_timed_out write_timed_out : Hander
  message_error : ErrorCode → Hander
  message_recived : ℤ → Hander
  message_sended : ℕ → Hander

-- What one call of `readv` or `writev` returns: -1 with EAGAIN, EWOULDBLOCK or EINTR, -1 with
-- another error, or a number of bytes.
pub data Io : Type 0 where
  again : Io
  broken : Io
  moved : ℕ → Io

-- What the stream did: closures run, tasks posted to the event loop, references released.
pub data Effect : Type 0 where
  ran : Hander → Effect
  mod_event : Bool → Bool → Effect
  del_event : Effect
  release_ref : Effect

-- What the closures can change; `owner` is the state of the channel or connection.
pub record Shared (U : Type 0) : Type 0 where
  pub readbuf : Stream
  pub writebuf : Stream
  pub reqheader : RequestHeader
  pub resheader : ResponseHeader
  pub close_when_empty : Bool
  pub owner : U

pub record SocketStream (U : Type 0) : Type 0 where
  pub shared : Shared U
  pub is_connected : Bool
  pub is_closed : Bool
  pub log : List Effect

-- Why a method does not return: it calls a closure that is a null pointer, a parser steps outside of
-- its buffer, or the model's loop has used its fuel up.
pub data Fault : Type 0 where
  null_call stepped_out out_of_fuel : Fault

-- What a method gives, or the stream as it is where the method stops.
pub data Result (U A : Type 0) : Type 0 where
  returned : A → Result U A
  stopped : Fault → SocketStream U → Result U A

infixl 5 ◌>>=◌
abbrev pub ◌>>=◌ : {U A B : Type 0} → Result U A → (A → Result U B) → Result U B
returned a >>= f = f a
stopped e s >>= f = stopped e s

-- Another entry of the log.
abbrev pub did : {U : Type 0} → SocketStream U → Effect → SocketStream U
did s e = record s { log = s.log ++ e ∷ [] }

abbrev pub set_read : {U : Type 0} → SocketStream U → IoBuffer → SocketStream U
set_read s b = record s {
  shared = record (s.shared) { readbuf = record (s.shared.readbuf) { io = b } };
}

abbrev pub set_write : {U : Type 0} → SocketStream U → IoBuffer → SocketStream U
set_write s b = record s {
  shared = record (s.shared) { writebuf = record (s.shared.writebuf) { io = b } };
}

-- `writebuf.isEmpty()`
abbrev pub nothing_to_send : {U : Type 0} → SocketStream U → Bool
nothing_to_send s = is_empty s.shared.writebuf.io

-- `if(hander) hander->Run(...)`, and the call without the test, for a pointer.
abbrev pub call_if :
    {U : Type 0} → Hander → Option (Shared U → Shared U) → SocketStream U → SocketStream U
call_if h none s = s
call_if h (some f) s = did (record s { shared = f s.shared }) (ran h)

abbrev pub call :
    {U : Type 0}
    → Hander
    → Option (Shared U → Shared U)
    → SocketStream U
    → Result U (SocketStream U)
call h none s = stopped null_call s
call h (some f) s = returned (did (record s { shared = f s.shared }) (ran h))

-- The methods that a subclass overrides. `on_connect` gives false for a negative result; what
-- `OnRecived` returns is not looked at.
pub record Methods (U : Type 0) : Type 0 where
  pub on_connect : SocketStream U → SocketStream U × Bool
  pub on_recived : SocketStream U → ℕ → Result U (SocketStream U)
  pub on_sended : SocketStream U → ℕ → Result U (SocketStream U)
  pub on_close : SocketStream U → SocketStream U

module _ {U : Type 0} (handers : Hander → Option (Shared U → Shared U)) where
  unfoldable pub run_if : Hander → SocketStream U → SocketStream U
  run_if h s = call_if h (handers h) s

  unfoldable pub run : Hander → SocketStream U → Result U (SocketStream U)
  run h s = call h (handers h) s

  -- `SocketStream::OnClose`
  unfoldable pub on_close : SocketStream U → SocketStream U
  unfolding run_if
  on_close s =
      if s.is_closed
      then s
      else did (run_if closed (record s { is_closed = true; is_connected = false })) del_event

  -- `SocketStream::OnConnect`; the first argument is whether both addresses are known.
  unfoldable pub on_connect : Bool → SocketStream U → SocketStream U × Bool
  unfolding run_if
  on_connect known s = if known then (run_if connected s, true) else (s, false)

  -- `GetReciveBuffer` offers nothing: the error goes to a closure, and `OnReadable` returns -1.
  abbrev overfull : SocketStream U → Result U (SocketStream U × Option ℕ)
  overfull s = run (message_error server_readbuffer_full) s >>= λ s'. returned (s', none)

  -- The loop of `OnReadable`: the bytes received, or `none` in their place for a return of -1. The
  -- socket has nothing more behind the end of the list.
  unfoldable pub read_loop : List Io → SocketStream U → ℕ → Result U (SocketStream U × Option ℕ)
  unfolding run get_recive_buffer move_recive_ptr
  read_loop [] s n =
      if (get_recive_buffer s.shared.readbuf.io).0 then returned (s, some n) else overfull s
  read_loop (again ∷ ios) s n =
      if (get_recive_buffer s.shared.readbuf.io).0 then returned (s, some n) else overfull s
  read_loop (broken ∷ ios) s n =
      if (get_recive_buffer s.shared.readbuf.io).0 then returned (s, none) else overfull s
  read_loop (moved k ∷ ios) s n =
      let rest = read_loop ios (set_read s (move_recive_ptr s.shared.readbuf.io k)) (n + k) in
      if (get_recive_buffer s.shared.readbuf.io).0
      then (if ltb 0 k then rest else returned (s, none))
      else overfull s

  -- The loop of `OnWriteable`, in the same way.
  unfoldable pub write_loop : List Io → SocketStream U → ℕ → SocketStream U × Option ℕ
  unfolding get_send_buffer move_send_ptr
  write_loop [] s n = (s, some n)
  write_loop (again ∷ ios) s n = (s, some n)
  write_loop (broken ∷ ios) s n =
      if (get_send_buffer s.shared.writebuf.io).0 then (s, none) else (s, some n)
  write_loop (moved k ∷ ios) s n =
      let rest = write_loop ios (set_write s (move_send_ptr s.shared.writebuf.io k)) (n + k) in
      if (get_send_buffer s.shared.writebuf.io).0
      then (if ltb 0 k then rest else (s, none))
      else (s, some n)

  module _ (m : Methods U) where
    -- The ends of `OnReadable` and `OnWriteable`; false is a return of -1.
    abbrev pub received : SocketStream U × Option ℕ → Result U (SocketStream U × Bool)
    received (s, none) = returned (s, false)
    received (s, some n) =
        (if ltb 0 n then m.on_recived s n else returned s) >>= λ s'. returned (s', true)

    -- A last `ModEventAsync(p, true, false)` where there is nothing to send.
    abbrev pub rest_write : SocketStream U → SocketStream U
    rest_write s = if nothing_to_send s then did s (mod_event true false) else s

    abbrev pub sent : SocketStream U × Option ℕ → Result U (SocketStream U × Bool)
    sent (s, none) = returned (s, false)
    sent (s, some n) =
        (if ltb 0 n then m.on_sended s n else returned s) >>= λ s'. returned (rest_write s', true)

    -- `SocketStream::OnReadable` and `SocketStream::OnWriteable`
    unfoldable pub on_readable : List Io → SocketStream U → Result U (SocketStream U × Bool)
    unfolding run_if read_loop
    on_readable ios s = read_loop ios (run_if readable s) 0 >>= received

    unfoldable pub on_writeable : List Io → SocketStream U → Result U (SocketStream U × Bool)
    unfolding run_if write_loop
    on_writeable ios s =
        let s' = run_if writeable (rest_write s) in
        if nothing_to_send s' then returned (s', true) else sent (write_loop ios s' 0)

    -- The end of `OnEvent`, and its answer to EVENT_CLOSE: the stream closes once it has sent all.
    unfoldable pub close_soon : SocketStream U → SocketStream U
    close_soon s =
        if nothing_to_send s
        then m.on_close s
        else did (record s { shared = record (s.shared) { close_when_empty = true } })
            (mod_event true true)

    -- The time-outs of `OnEvent`.
    abbrev pub time_out : Bool → Hander → SocketStream U → SocketStream U
    time_out b h s = if b then did (run_if h s) release_ref else s

    unfoldable pub time_outs : Mask → SocketStream U → SocketStream U
    unfolding run_if
    time_outs mask s =
        time_out mask.write_time_out write_timed_out (time_out mask.read_time_out read_timed_out s)

    -- What follows the two transfers, with what they returned.
    unfoldable pub settle : Mask → SocketStream U → Bool → Bool → SocketStream U
    unfolding time_outs close_soon
    settle mask s read_ok write_ok =
        let t = time_outs mask s in
        if not read_ok || not write_ok || t.shared.close_when_empty then close_soon t else t

    -- `OnEvent` of a connected stream without EVENT_CLOSE and EVENT_ERR.
    unfoldable pub transfer : List Io → List Io → Mask → SocketStream U → Result U (SocketStream U)
    unfolding on_readable on_writeable settle
    transfer readvs writevs mask s =
        (if mask.event_read then on_readable readvs s else returned (s, true)) >>= λ r.
        (if mask.event_write then on_writeable writevs (r.0) else returned (r.0, true)) >>= λ w.
        returned (settle mask (w.0) (r.1) (w.1))

    -- The first connection in `OnEvent`; false where it fails.
    unfoldable pub connect_first : Mask → SocketStream U → SocketStream U × Bool
    connect_first mask s =
        if not s.is_connected && (mask.event_read || mask.event_write)
        then (let r = m.on_connect s in
            if r.1 then (record (r.0) { is_connected = true }, true) else (r.0, false))
        else (s, true)

    -- `SocketStream::OnEvent`
    unfoldable pub on_event : List Io → List Io → Mask → SocketStream U → Result U (SocketStream U)
    unfolding close_soon connect_first transfer
    on_event readvs writevs mask s =
        if s.is_closed
        then returned s
        else if mask.event_close
        then returned (close_soon s)
        else if mask.event_err
        then returned (m.on_close s)
        else if (connect_first mask s).1
        then transfer readvs writevs mask ((connect_first mask s).0)
        else returned (m.on_close ((connect_first mask s).0))
