-- ===== src/Waiter.antt =====
-- A thread that waits for a value and one that sets it, in the steps between which the other can
-- come: `Wait` and `SetStatus` of RpcClientController (rpc/rpc_controller_impl.cpp), `Wait` and `Run`
-- of Reply (thread/workpool.h), `Wait` and `OnConnect` of ConnectStream (mio/mio_connect_stream.cpp).
-- All three test the value outside of the mutex. A value not yet set is none.
pub mod Woken
use mtrpc.Base.{ℕ, ◌≡◌, ◌≢◌, Bool, true, false, Option, none, some}

-- Where `Wait` stands: before its test, before it locks the mutex, in `cv.wait`, signalled and about
-- to have the mutex again, and at its end.
pub data Waiter : Type 0 where
  testing locking waiting signalled returned : Waiter

-- Where the other thread stands: before it locks the mutex, with the mutex and the value set, with
-- the mutex and behind `notifyOne`, and at its end.
pub data Setter : Type 0 where
  setting notifying unlocking finished : Setter

pub record State : Type 0 where
  pub value : Option ℕ
  pub waiter : Waiter
  pub setter : Setter

abbrev pub holds_mutex : Setter → Bool
holds_mutex notifying = true
holds_mutex unlocking = true
holds_mutex _ = false

-- `cv.notifyOne()`
abbrev pub notify : Waiter → Waiter
notify waiting = signalled
notify w = w

-- `Wait` gives the mutex back in `cv.wait`, at once, so that it never holds it between two steps.
-- Where `spurious` is true, `cv.wait` may return without a signal.
pub data Step (spurious : Bool) (s : State) : State → Type 0 where
  goes_on : s.waiter ≡ testing → s.value ≡ none → Step spurious s (record s { waiter = locking })
  returns :
      {v : ℕ}
      → s.waiter ≡ testing
      → s.value ≡ some v
      → Step spurious s (record s { waiter = returned })
  waits :
      s.waiter ≡ locking
      → holds_mutex s.setter ≡ false
      → Step spurious s (record s { waiter = waiting })
  wakes :
      s.waiter ≡ signalled
      → holds_mutex s.setter ≡ false
      → Step spurious s (record s { waiter = testing })
  rouses : spurious ≡ true → s.waiter ≡ waiting → Step spurious s (record s { waiter = signalled })
  sets :
      (v : ℕ)
      → s.setter ≡ setting
      → Step spurious s (record s { value = some v; setter = notifying })
  notifies :
      s.setter ≡ notifying
      → Step spurious s (record s { waiter = notify s.waiter; setter = unlocking })
  unlocks : s.setter ≡ unlocking → Step spurious s (record s { setter = finished })

-- Any number of steps, the last one first.
pub data Steps (spurious : Bool) (s : State) : State → Type 0 where
  stay : Steps spurious s s
  go : {t u : State} → Steps spurious s t → Step spurious t u → Steps spurious s u

-- `Wait` is called before the value is set.
abbrev pub start : State
start = record { value = none; waiter = testing; setter = setting }
