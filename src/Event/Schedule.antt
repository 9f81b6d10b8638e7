-- ===== src/Event/Schedule.antt =====
-- `OnEventAsync` and `OnEventWrapper` of mio/mio_event.cpp for an event with a work group, in their
-- atomic steps. Any number of threads may be inside of either; how many are where is counted.
use mtrpc.Base.{ℕ, ◌+◌, ◌-◌, ◌<◌, Bool, true, false, not, ◌&&◌, ◌||◌, if◌then◌else◌}
use mtrpc.Event.{Mask, no_events, union, minus, is_none}

-- `_events`: the bits EVENT_PENDING and EVENT_PROCESSING, and the others.
pub record Status : Type 0 where
  pub pending : Bool
  pub processing : Bool
  pub mask : Mask

pub record State : Type 0 where
  pub events : Status
  -- Threads in `OnEventAsync` that are to take a reference, and that are to post the wrapper.
  pub claimed : ℕ
  pub referred : ℕ
  -- Wrappers posted, wrappers in `OnEvent`, and wrappers whose compare-and-swap failed.
  pub queued : ℕ
  pub running : ℕ
  pub retrying : ℕ
  -- Wrappers that have left their loop and are to release their reference.
  pub releasing : ℕ
  pub ref_count : ℕ
  -- The references that others hold; the events raised that `OnEvent` was not given yet; whether
  -- the `assert` has failed.
  pub owners : ℕ
  pub due : Mask
  pub has_failed : Bool

-- `__sync_fetch_and_or(&_events, event_mask | EVENT_PENDING)`, and the two tests of what it returns.
unfoldable pub on_event_async : State → Mask → State
on_event_async s m = record s {
  events = record (s.events) { pending = true; mask = union s.events.mask m };
  claimed = s.claimed + (if s.events.pending || s.events.processing then 0 else 1);
  due = union s.due m;
}

-- `RequireRef()`
unfoldable pub require_ref : State → State
require_ref s = record s {
  claimed = s.claimed - 1;
  referred = s.referred + 1;
  ref_count = s.ref_count + 1;
}

-- `group->Post(closure)`
unfoldable pub post : State → State
post s = record s { referred = s.referred - 1; queued = s.queued + 1 }

-- `__sync_lock_test_and_set(&_events, EVENT_PROCESSING)`, the `assert` on what it returns, and the
-- call of `OnEvent` with it.
unfoldable pub take_events : State → State
take_events s = record s {
  events = record { pending = false; processing = true; mask = no_events };
  running = s.running + 1;
  due = minus s.due s.events.mask;
  has_failed = s.has_failed || not s.events.pending;
}

-- A wrapper starts, and one goes round its loop again.
unfoldable pub start_wrapper : State → State
unfolding take_events
start_wrapper s = take_events (record s { queued = s.queued - 1 })

unfoldable pub retry_wrapper : State → State
unfolding take_events
retry_wrapper s = take_events (record s { retrying = s.retrying - 1 })

-- `_events == EVENT_PROCESSING`
unfoldable pub is_unchanged : Status → Bool
is_unchanged e = e.processing && not e.pending && is_none e.mask

-- `OnEvent` returns: the compare-and-swap.
unfoldable pub finish : State → State
unfolding is_unchanged is_none
finish s =
    if is_unchanged s.events
    then record s {
      events = record { pending = false; processing = false; mask = no_events };
      running = s.running - 1;
      releasing = s.releasing + 1;
    }
    else record s { running = s.running - 1; retrying = s.retrying + 1 }

-- `ReleaseRef()` after the loop.
unfoldable pub release_ref : State → State
release_ref s = record s { releasing = s.releasing - 1; ref_count = s.ref_count - 1 }

-- One step of any thread. Others take a reference, and release one that they hold.
pub data Step : State → State → Type 0 where
  raises : {s : State} (m : Mask) → Step s (on_event_async s m)
  requires : {s : State} → 0 < s.claimed → Step s (require_ref s)
  posts : {s : State} → 0 < s.referred → Step s (post s)
  starts : {s : State} → 0 < s.queued → Step s (start_wrapper s)
  retries : {s : State} → 0 < s.retrying → Step s (retry_wrapper s)
  finishes : {s : State} → 0 < s.running → Step s (finish s)
  releases : {s : State} → 0 < s.releasing → Step s (release_ref s)
  owns : {s : State} → Step s (record s { ref_count = s.ref_count + 1; owners = s.owners + 1 })
  disowns :
      {s : State}
      → 0 < s.owners
      → Step s (record s { ref_count = s.ref_count - 1; owners = s.owners - 1 })

pub data Steps : State → State → Type 0 where
  stay : {s : State} → Steps s s
  follow : {s t u : State} → Steps s t → Step t u → Steps s u

-- `IOEvent()`
abbrev pub io_event : State
io_event = record {
  events = record { pending = false; processing = false; mask = no_events };
  claimed = 0;
  referred = 0;
  queued = 0;
  running = 0;
  retrying = 0;
  releasing = 0;
  ref_count = 0;
  owners = 0;
  due = no_events;
  has_failed = false;
}
