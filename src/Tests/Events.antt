-- ===== src/Tests/Events.antt =====
-- Runs of the scheduling of an event, and of the header's writer.
use mtrpc.Base.{
  ◌+◌, ◌-◌, ◌≡◌, ◌<◌, refl, arith, true, false, ◌&&◌, ◌||◌, not, if◌then◌else◌, length, get_or, ltb,
  ◌==◌, List,
}
use mtrpc.Ring.{Que, Iterator, size_at}
use mtrpc.Text.{Bytes, codes}
use mtrpc.Event.{Mask, no_events, is_none}
use mtrpc.Event.Epoll.{EpollEvents, set_event, IsReport}
use mtrpc.Event.Names.{status_to_str}
use mtrpc.Event.Schedule.{
  Status, State, on_event_async, io_event, Steps, stay, follow, raises, requires, require_ref,
}
use mtrpc.Event.Once.{waiting, scheduled_once, wrapper_safe}
use mtrpc.Event.Delivery.{Delivers, all_delivered}
use mtrpc.Http.Request.{request_header}
use mtrpc.Http.Serialize.{serialize_lines, request_lines}
use mtrpc.Http.Written.{text, serialize_lines_lem}

abbrev reads : Mask
reads = record no_events { event_read = true }

-- A read event was raised, and its thread has taken its reference.
abbrev claimed : State
claimed = require_ref (on_event_async io_event reads)

claimed-Steps : Steps io_event claimed
unfolding on_event_async
claimed-Steps = follow (follow stay (raises reads)) (requires (omega arith))

scheduled_once_example : waiting claimed + claimed.running ≡ (
    if claimed.events.pending || claimed.events.processing || not (is_none claimed.events.mask)
    then 1
    else 0)
scheduled_once_example = scheduled_once claimed-Steps

wrapper_safe_example :
    (claimed.has_failed ≡ false)
    × (0
          < claimed.referred + claimed.queued + claimed.retrying + claimed.running
            + claimed.releasing
        → 0 < claimed.ref_count)
wrapper_safe_example = wrapper_safe claimed-Steps

all_delivered_example : Delivers claimed
all_delivered_example = all_delivered claimed-Steps

abbrev reported : EpollEvents
reported = record (set_event true false) { out = false; hup = true }

reported-IsReport : IsReport (set_event true false) reported
reported-IsReport = record {
  readables = λ h. h;
  pris = λ h. h;
  outs = λ h. h;
  rdbands = λ h. h;
  wrnorms = λ h. h;
  rdhups = λ h. h;
}

abbrev pending_reads : Status
pending_reads = record { pending = true; processing = false; mask = reads }

pending_reads_name : status_to_str pending_reads ≡ codes "PEND|RD|"
unfolding status_to_str
pending_reads_name = refl

abbrev room : Que
room i = record { buffer = λ j. 0; size = 100 }

abbrev place_3 : Iterator
place_3 = record { idx = 2; ofs = 3 }

abbrev lines : List Bytes
lines = request_lines (record (request_header) { path = codes "/S.m" })

serialize_lines_example :
    ((serialize_lines lines room place_3).1 ≡ ltb (length (text lines)) (size_at room 2 - 3))
    × (size_at (serialize_lines lines room place_3).0 2 ≡ (
        if (serialize_lines lines room place_3).1 && 2 == 2
        then 3 + length (text lines)
        else size_at room 2))
    × ((serialize_lines lines room place_3).1 ≡ true
        → 2 < length (text lines)
        → ((serialize_lines lines room place_3).0 2).buffer (3 + 2) ≡ get_or (text lines) 2 0)
    × (2 < 3 → ((serialize_lines lines room place_3).0 2).buffer 2 ≡ (room 2).buffer 2)
serialize_lines_example =
    serialize_lines_lem lines room place_3 2 (record { idx_lt = omega arith; ofs_lt = omega arith })
