-- ===== src/Event.antt =====
-- mio/mio_event.h and mio/mio_event.cpp, and `EventToMask` of mio/mio_poller.cpp: the sets of
-- events, and how an event's handler is scheduled. A `uint32_t` of flags is a record of its bits.
pub mod Epoll
pub mod Names
pub mod Schedule
pub mod Once
pub mod Delivery
use mtrpc.Base.{ℕ, Bool, true, false, not, ◌&&◌, ◌||◌, if◌then◌else◌}

-- The bits of `EVENT_STATUS` but for EVENT_PENDING and EVENT_PROCESSING.
pub record Mask : Type 0 where
  pub event_read : Bool
  pub event_write : Bool
  pub event_close : Bool
  pub read_time_out : Bool
  pub write_time_out : Bool
  pub event_err : Bool

abbrev pub no_events : Mask
no_events = record {
  event_read = false;
  event_write = false;
  event_close = false;
  read_time_out = false;
  write_time_out = false;
  event_err = false;
}

-- `a | b`
unfoldable pub union : Mask → Mask → Mask
union a b = record {
  event_read = a.event_read || b.event_read;
  event_write = a.event_write || b.event_write;
  event_close = a.event_close || b.event_close;
  read_time_out = a.read_time_out || b.read_time_out;
  write_time_out = a.write_time_out || b.write_time_out;
  event_err = a.event_err || b.event_err;
}

-- `a & ~b`
unfoldable pub minus : Mask → Mask → Mask
minus a b = record {
  event_read = a.event_read && not b.event_read;
  event_write = a.event_write && not b.event_write;
  event_close = a.event_close && not b.event_close;
  read_time_out = a.read_time_out && not b.read_time_out;
  write_time_out = a.write_time_out && not b.write_time_out;
  event_err = a.event_err && not b.event_err;
}

-- `a == 0`
unfoldable pub is_none : Mask → Bool
is_none a = not (
    a.event_read || a.event_write || a.event_close || a.read_time_out || a.write_time_out
    || a.event_err)
