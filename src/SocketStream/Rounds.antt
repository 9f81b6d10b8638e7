-- ===== src/SocketStream/Rounds.antt =====
-- The loop in which `MessageStream::OnRecived` and `ConnectStream::OnRecived` take packets out of the
-- read buffer: both go on while the number of bytes, less those that were used up, is positive.
use mtrpc.Base.{ℕ, zero, suc, if◌then◌else◌, ℤ, pos, ◌-ℤ◌, lt_ℤ}
use mtrpc.Ring.{difference}
use mtrpc.SocketStream.{SocketStream, Fault, out_of_fuel, Result, returned, stopped}

-- What one round does: it returns, goes on with a number of bytes, or stops there.
pub data Round (U : Type 0) : Type 0 where
  done : SocketStream U → Round U
  next : SocketStream U → ℤ → Round U
  crash : Fault → SocketStream U → Round U

abbrev pub or_crash : {U : Type 0} → Result U (SocketStream U) → Round U
or_crash (returned s) = done s
or_crash (stopped e s) = crash e s

abbrev pub after :
    {U : Type 0}
    → Round U
    → (SocketStream U → ℤ → Result U (SocketStream U))
    → Result U (SocketStream U)
after (done s) rest = returned s
after (next s n) rest = rest s n
after (crash e s) rest = stopped e s

-- `readbuf.readpos - from.readbuf.readpos`
abbrev pub used_up : {U : Type 0} → SocketStream U → SocketStream U → ℤ
used_up from s =
    let b = s.shared.readbuf.io in difference b.que b.readpos from.shared.readbuf.io.readpos

-- A packet has been handed on, if there is a closure for it; `from` is the stream before.
abbrev pub go_on : {U : Type 0} → SocketStream U → SocketStream U → ℤ → Round U
go_on from s n =
    let left = n -ℤ used_up from s in
    if s.shared.close_when_empty then done s else if lt_ℤ (pos 0) left then next s left else done s

module _ {U : Type 0} (round : SocketStream U → ℤ → Round U) where
  unfoldable pub rounds : ℕ → SocketStream U → ℤ → Result U (SocketStream U)
  rounds zero s n = stopped out_of_fuel s
  rounds (suc fuel) s n = after (round s n) (rounds fuel)
