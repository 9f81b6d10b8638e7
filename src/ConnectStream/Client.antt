-- ===== src/ConnectStream/Client.antt =====
-- rpc/rpc_channel_impl.cpp and rpc/rpc_server_connect.cpp, the closures that `Connect` of a channel
-- and `Start` of a server's connection hang into their streams, and what the client's lacks.
use mtrpc.Base.{
  ◌≡◌, refl, Bool, true, false, Option, none, some, ℤ, pos, ◌-ℤ◌, lt_ℤ, if◌then◌else◌, if_intro,
}
use mtrpc.Buffer.{Stream}
use mtrpc.Error.{ErrorCode, http_parser_fail, http_paser_half}
use mtrpc.Http.{get_content_length}
use mtrpc.Http.Response.{ResponseHeader, parser_response}
use mtrpc.SocketStream.{
  Hander, connected, readable, writeable, read_timed_out, write_timed_out, message_error,
  message_recived, Shared, SocketStream, run, null_call,
}
use mtrpc.SocketStream.Rounds.{Round, done, next, crash, used_up, go_on}
use mtrpc.ConnectStream.{body_size, take_packet, with_header, by_code, parsed, round}

module _ {U : Type 0} (f : Hander → Shared U → Shared U) where
  -- The closures that `RpcChannelImpl::Connect` sets.
  abbrev pub channel_handers : Hander → Option (Shared U → Shared U)
  channel_handers connected = none
  channel_handers readable = none
  channel_handers (message_error code) = none
  channel_handers h = some (f h)

  -- The closures that `ServerConnect::Start` sets.
  abbrev pub server_handers : Hander → Option (Shared U → Shared U)
  server_handers connected = none
  server_handers readable = none
  server_handers writeable = none
  server_handers read_timed_out = none
  server_handers write_timed_out = none
  server_handers h = some (f h)

-- Whether a round calls a null pointer.
abbrev pub is_null_call : {U : Type 0} → Round U → Bool
is_null_call (crash null_call s) = true
is_null_call _ = false

-- Whether the parser has failed, or the header that it gives has a negative content length.
abbrev pub is_bad_code : ErrorCode → ResponseHeader → Bool
is_bad_code http_parser_fail r = true
is_bad_code http_paser_half r = false
is_bad_code _ r = lt_ℤ (get_content_length r.header) (pos 0)

-- The same of all that a parser gives.
abbrev pub is_bad : Option (ErrorCode × Stream × ResponseHeader) → Bool
is_bad none = false
is_bad (some (code, buf, r)) = is_bad_code code r

module _ {U : Type 0} (f : Hander → Shared U → Shared U) where
  go_on-is_null_call : (from s : SocketStream U) (n : ℤ) → is_null_call (go_on from s n) ≡ false
  go_on-is_null_call from s n =
      by_tests s.shared.close_when_empty (lt_ℤ (pos 0) (n -ℤ used_up from s))
    where
      by_tests :
          (a b : Bool)
          → is_null_call (if a then done s else if b then next s (n -ℤ used_up from s) else done s)
            ≡ false
      by_tests true b = refl
      by_tests false true = refl
      by_tests false false = refl

  with_header-is_null_call :
      (s : SocketStream U) (n : ℤ)
      → is_null_call (with_header (channel_handers f) s n)
        ≡ lt_ℤ (get_content_length s.shared.resheader.header) (pos 0)
  unfolding with_header run
  with_header-is_null_call s n =
      split (lt_ℤ (get_content_length s.shared.resheader.header) (pos 0)) _ (
        if_intro (λ (r : Round U). is_null_call r ≡ false)
          (lt_ℤ (body_size s) (get_content_length s.shared.resheader.header)) refl
          (go_on-is_null_call s (take_packet (message_recived n) (some (f (message_recived n))) s)
            n))
    where
      split :
          (b : Bool) (r : Round U)
          → is_null_call r ≡ false
          → is_null_call (if b then crash null_call s else r) ≡ b
      split true r h = refl
      split false r h = h

  by_code-is_null_call :
      (code : ErrorCode) (s : SocketStream U) (n : ℤ)
      → is_null_call (by_code (channel_handers f) code s n) ≡ is_bad_code code s.shared.resheader
  unfolding by_code run
  by_code-is_null_call http_parser_fail s n = refl
  by_code-is_null_call http_paser_half s n = refl
  by_code-is_null_call _ s n = with_header-is_null_call s n

  -- A client's stream calls a null pointer exactly where the response's parser fails, or gives a
  -- header with a negative content length: no closure for errors is set.
  pub response_crash :
      (s : SocketStream U) (n : ℤ)
      → is_null_call (round (channel_handers f) s n)
        ≡ is_bad (parser_response s.shared.readbuf s.shared.resheader)
  unfolding round parsed
  response_crash s n = by_parse (parser_response s.shared.readbuf s.shared.resheader)
    where
      by_parse :
          (o : Option (ErrorCode × Stream × ResponseHeader))
          → is_null_call (parsed (channel_handers f) s n o) ≡ is_bad o
      by_parse none = refl
      by_parse (some (code, buf, r)) = by_code-is_null_call code _ _
