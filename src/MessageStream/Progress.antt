-- ===== src/MessageStream/Progress.antt =====
-- `MessageStream::OnRecived` ends: every round but the first uses up a byte.
use mtrpc.Base.{
  ℕ, zero, suc, ◌+◌, ◌≡◌, ◌≤◌, ◌<◌, refl, ap, sym, arith, Bool, true, false, Option, none, some,
  if◌then◌else◌, if_intro, Bool-cases, inl, inr, ℤ, pos,
}
use mathlib.Core.Path.{subst}
use mtrpc.Ring.{Iterator, IsAt}
use mtrpc.Ring.Sum.{total}
use mtrpc.Ring.Distance.{gap}
use mtrpc.Buffer.{IoBuffer, reset}
use mtrpc.Buffer.Socket.{used}
use mtrpc.Buffer.Uniform.{IsUniform, IsUniform-IsFilled, reset-uniform}
use mtrpc.Http.{is_end}
use mtrpc.Http.Feed.{Outcome, more, failed, fault}
use mtrpc.Http.Request.{ReqParse, step_req, done_req, enter_req, returned_req, parser_header}
use mtrpc.Http.Progress.{Moves, feed-Moves}
use mtrpc.Http.Unread.{gap-le-total}
use mtrpc.SocketStream.{
  Hander, message_recived, Shared, SocketStream, Fault, out_of_fuel, Result, returned, stopped,
  call, run,
}
use mtrpc.SocketStream.Rounds.{Round, done, next, crash, or_crash, after, rounds, go_on}
use mtrpc.MessageStream.{take_packet, with_header, by_code, parsed, round, on_recived}

-- The read buffer is in order, and its pieces have their whole size.
pub record IsReady (b : IoBuffer) : Type 0 where
  pub uniform : IsUniform b.que
  pub read_at : IsAt b.que b.readpos
  pub write_at : IsAt b.que b.writepos

-- `c` is `b` after some of its bytes, or none, were read.
pub record Later (b c : IoBuffer) : Type 0 where
  pub same_que : c.que ≡ b.que
  pub same_end : c.writepos ≡ b.writepos
  pub at : IsAt b.que c.readpos
  pub no_more : gap b.que b.writepos c.readpos ≤ gap b.que b.writepos b.readpos

pub Later-IsReady : (b c : IoBuffer) → IsReady b → Later b c → IsReady c
Later-IsReady b c v l = record {
  uniform = subst IsUniform (sym l.same_que) v.uniform;
  read_at = subst (λ q. IsAt q c.readpos) (sym l.same_que) l.at;
  write_at = rw (l.same_que, l.same_end) v.write_at;
}

pub Later-used : (b c : IoBuffer) → Later b c → used c ≤ used b
Later-used b c l = rw (l.same_que, l.same_end) l.no_more

-- Whether the fuel of the model is used up.
abbrev pub is_fuel : Fault → Bool
is_fuel out_of_fuel = true
is_fuel _ = false

abbrev pub has_run_out : {U A : Type 0} → Result U A → Bool
has_run_out (returned a) = false
has_run_out (stopped e s) = is_fuel e

module _ {U : Type 0} where
  abbrev pub in_buf : SocketStream U → IoBuffer
  in_buf s = s.shared.readbuf.io

  -- The bytes that are to be read, and one for a header that is parsed.
  abbrev pub measure : SocketStream U → ℕ
  measure s = used (in_buf s) + (if is_end s.shared.reqheader.header.state then 1 else 0)

  -- A round that goes on leaves the buffer in order and less to do.
  pub data Lessens (s : SocketStream U) : Round U → Type 0 where
    returns : {t : SocketStream U} → Lessens s (done t)
    crashes : {e : Fault} {t : SocketStream U} → is_fuel e ≡ false → Lessens s (crash e t)
    lessens :
        {t : SocketStream U} {n : ℤ}
        → IsReady (in_buf t)
        → measure t < measure s
        → Lessens s (next t n)

  or_crash-Lessens :
      (s t : SocketStream U) (h : Hander) (o : Option (Shared U → Shared U))
      → Lessens s (or_crash (call h o t))
  or_crash-Lessens s t h none = crashes refl
  or_crash-Lessens s t h (some f) = returns

  -- A closure that takes a packet reads on in the read buffer, or leaves it alone.
  abbrev pub Reads : (Shared U → Shared U) → Type 0
  Reads f = (x : Shared U) → IsReady x.readbuf.io → Later x.readbuf.io (f x).readbuf.io

  take_packet-Lessens :
      (s0 s : SocketStream U) (h : Hander) (n : ℤ) (f : Shared U → Shared U)
      → Reads f
      → IsReady (in_buf s)
      → used (in_buf s) < measure s0
      → Lessens s0 (go_on s (take_packet h (some f) s) n)
  take_packet-Lessens s0 s h n f reads v l =
      if_intro (Lessens s0) _ returns (if_intro (Lessens s0) _ (lessens ready less) returns)
    where
      later : Later (in_buf s) (f s.shared).readbuf.io
      later = reads s.shared v

      ready' : IsReady (f s.shared).readbuf.io
      ready' = Later-IsReady (in_buf s) (f s.shared).readbuf.io v later

      same : reset (f s.shared).readbuf.io ≡ (f s.shared).readbuf.io
      same = reset-uniform (f s.shared).readbuf.io ready'.uniform

      ready : IsReady (reset (f s.shared).readbuf.io)
      ready = subst IsReady (sym same) ready'

      less : used (reset (f s.shared).readbuf.io) + 0 < measure s0
      less = omega (arith, ap used same, Later-used (in_buf s) (f s.shared).readbuf.io later)

  module _ (handers : Hander → Option (Shared U → Shared U)) (recived : ℤ → Shared U → Shared U)
      (is_set : (n : ℤ) → handers (message_recived n) ≡ some (recived n))
      (reads : (n : ℤ) → Reads (recived n)) where
    with_header-Lessens :
        (s0 s : SocketStream U) (n : ℤ)
        → IsReady (in_buf s)
        → used (in_buf s) < measure s0
        → Lessens s0 (with_header handers s n)
    unfolding with_header run
    with_header-Lessens s0 s n v l = if_intro (Lessens s0) _ (or_crash-Lessens s0 s _ (handers _)) (
        if_intro (Lessens s0) _ returns (
          subst (λ o. Lessens s0 (go_on s (take_packet (message_recived n) o s) n)) (sym (is_set n))
            (take_packet-Lessens s0 s (message_recived n) n (recived n) (reads n) v l)))

    -- The stream with the read position where the parser left it.
    parsed-Lessens :
        (s : SocketStream U) (n : ℤ) (v : IsReady (in_buf s)) (o : Outcome ReqParse × Iterator)
        → Moves
            (in_buf s).que
            (in_buf s).writepos
            (IsUniform-IsFilled (in_buf s).que v.uniform)
            v.write_at
            step_req
            done_req
            (in_buf s).readpos
            (enter_req s.shared.reqheader)
            o
        → Lessens s (parsed handers s n (returned_req s.shared.readbuf o))
    unfolding parsed by_code run
    parsed-Lessens s n v (failed p, at) m = or_crash-Lessens s _ _ (handers _)
    parsed-Lessens s n v (fault, at) m = crashes refl
    parsed-Lessens s n v (more p, at) m = elim (Bool-cases (done_req p)) [
      | inl t ↦ rw t (
          with_header-Lessens s _ _
            (record { uniform = v.uniform; read_at = m.at; write_at = v.write_at })
            (less t (is_end s.shared.reqheader.header.state) refl))
      | inr t ↦ rw t returns
    ]
      where
        less :
            done_req p ≡ true
            → (b : Bool) → is_end s.shared.reqheader.header.state ≡ b
            → gap (in_buf s).que (in_buf s).writepos at < used (in_buf s) + (if b then 1 else 0)
        less t true e = omega (arith, m.no_more)
        less t false e = omega (arith, m.uses_one t e)

    round-Lessens :
        (s : SocketStream U) (n : ℤ) → IsReady (in_buf s) → Lessens s (round handers s n)
    unfolding round parser_header
    round-Lessens s n v = parsed-Lessens s n v _ (
        feed-Moves (in_buf s).que (in_buf s).writepos (IsUniform-IsFilled (in_buf s).que v.uniform)
          v.write_at step_req done_req (total (in_buf s).que) (in_buf s).readpos
          (enter_req s.shared.reqheader) v.read_at)

    rounds-end :
        (fuel : ℕ) (s : SocketStream U) (n : ℤ)
        → IsReady (in_buf s)
        → measure s < fuel
        → has_run_out (rounds (round handers) fuel s n) ≡ false
    unfolding rounds
    rounds-end zero s n v l = absurd (omega arith)
    rounds-end (suc fuel) s n v l =
        go (round handers s n) (round-Lessens s n v)
          (λ t k w m. rounds-end fuel t k w (omega (arith, l, m)))
      where
        go :
            (r : Round U)
            → Lessens s r
            → ((t : SocketStream U) (k : ℤ)
                → IsReady (in_buf t)
                → measure t < measure s
                → has_run_out (rounds (round handers) fuel t k) ≡ false)
            → has_run_out (after r (rounds (round handers) fuel)) ≡ false
        go r returns rest = refl
        go r (crashes {e} {t} w) rest = w
        go r (lessens {t = t} {n = k} w m) rest = rest t k w m

    -- `OnRecived` never goes on for ever: it returns, or calls a null pointer, or its parser steps
    -- outside of a buffer. This is so if the read buffer is in order with pieces of their whole size,
    -- and `handerMessageRecived` is set and reads on in the buffer or leaves it alone.
    pub on_recived-ends :
        (s : SocketStream U) (n : ℕ)
        → IsReady (in_buf s)
        → has_run_out (on_recived handers s n) ≡ false
    unfolding on_recived
    on_recived-ends s n v = rounds-end (suc (suc (total (in_buf s).que))) s (pos n) v (
        small (is_end s.shared.reqheader.header.state)
          (gap-le-total (in_buf s).que (in_buf s).writepos (in_buf s).readpos v.write_at v.read_at))
      where
        small :
            (b : Bool)
            → used (in_buf s) ≤ total (in_buf s).que
            → used (in_buf s) + (if b then 1 else 0) < suc (suc (total (in_buf s).que))
        small b h = ground arith
