-- ===== src/Event/Epoll.antt =====
-- The events of epoll: `SetEvent` of mio/mio_event.cpp registers them, `EventToMask` of
-- mio/mio_poller.cpp turns what is reported into a mask. READ_TIME_OUT is the value of EPOLLRDBAND,
-- WRITE_TIME_OUT that of EPOLLWRNORM.
use mtrpc.Base.{◌≡◌, arith, Bool, true, false, ◌||◌}
use mtrpc.Event.{Mask}

-- The bits of `epoll_event::events`, in the order of `EventToStr`.
pub record EpollEvents : Type 0 where
  pub et : Bool
  pub readable : Bool
  pub pri : Bool
  pub out : Bool
  pub rdnorm : Bool
  pub rdband : Bool
  pub wrnorm : Bool
  pub wrband : Bool
  pub msg : Bool
  pub err : Bool
  pub hup : Bool
  pub rdhup : Bool
  pub oneshot : Bool

-- `SetEvent` with its default trigger EPOLLET: the events that it leaves in `ev`.
abbrev pub set_event : Bool → Bool → EpollEvents
set_event r w = record {
  et = true;
  readable = r;
  pri = r;
  out = w;
  rdnorm = false;
  rdband = false;
  wrnorm = false;
  wrband = false;
  msg = false;
  err = false;
  hup = false;
  rdhup = false;
  oneshot = false;
}

-- `EventToMask` on x86-64.
unfoldable pub event_to_mask : EpollEvents → Mask
event_to_mask e = record {
  event_read = e.readable || e.pri;
  event_write = e.out;
  event_close = e.hup || e.rdhup;
  write_time_out = e.wrnorm;
  read_time_out = e.rdband;
  event_err = e.err;
}

-- What epoll may report: the events that are registered, and EPOLLERR and EPOLLHUP always.
pub record IsReport (reg got : EpollEvents) : Type 0 where
  pub readables : got.readable ≡ true → reg.readable ≡ true
  pub pris : got.pri ≡ true → reg.pri ≡ true
  pub outs : got.out ≡ true → reg.out ≡ true
  pub rdbands : got.rdband ≡ true → reg.rdband ≡ true
  pub wrnorms : got.wrnorm ≡ true → reg.wrnorm ≡ true
  pub rdhups : got.rdhup ≡ true → reg.rdhup ≡ true

-- What epoll reports of an event that `SetEvent` registered never looks like a time-out; it reads
-- or writes only where that was asked for, and closes exactly on EPOLLHUP.
pub event_to_mask-set_event :
    (r w : Bool) (got : EpollEvents)
    → IsReport (set_event r w) got
    → ((event_to_mask got).read_time_out ≡ false)
      × ((event_to_mask got).write_time_out ≡ false)
      × ((event_to_mask got).event_read ≡ true → r ≡ true)
      × ((event_to_mask got).event_write ≡ true → w ≡ true)
      × ((event_to_mask got).event_close ≡ got.hup)
unfolding event_to_mask
event_to_mask-set_event r w got h = (
  ground (arith, h.rdbands),
  ground (arith, h.wrnorms),
  λ k. ground (arith, h.readables, h.pris),
  h.outs,
  ground (arith, h.rdhups),
)
