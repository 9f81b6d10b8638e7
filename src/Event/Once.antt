-- ===== src/Event/Once.antt =====
-- An event's handler is scheduled once at a time, and no event is lost.
use mtrpc.Base.{
  ◌&&◌, Bool, ℕ, ◌+◌, ◌<◌, ◌≡◌, refl, arith, true, false, not, ◌||◌, if◌then◌else◌, Bool-cases, inl,
  inr,
}
use mtrpc.Event.{Mask, no_events, union, minus, is_none}
use mtrpc.Event.Schedule.{
  Status, State, on_event_async, require_ref, post, start_wrapper, retry_wrapper, is_unchanged,
  finish, Step, raises, requires, posts, starts, retries, finishes, releases, release_ref, owns,
  disowns, Steps, stay, follow, io_event,
}

-- Every event of the first is in the second.
unfoldable pub is_within : Mask → Mask → Bool
unfolding minus is_none
is_within a b = is_none (minus a b)

-- The threads that are to hand events to `OnEvent`, and all that are busy with the event.
abbrev pub waiting : State → ℕ
waiting s = s.claimed + s.referred + s.queued + s.retrying

-- What holds of an event at any time.
pub record IsSound (s : State) : Type 0 where
  pub busy : waiting s + s.running ≡ (if s.events.pending || s.events.processing then 1 else 0)
  pub waits : 0 < waiting s → s.events.pending ≡ true
  pub runs : 0 < s.running → s.events.processing ≡ true
  pub quiet : s.events.pending ≡ false → is_none s.events.mask ≡ true
  pub nothing_lost : is_within s.due s.events.mask ≡ true
  pub counted :
      s.ref_count ≡ s.owners + s.referred + s.queued + s.retrying + s.running + s.releasing
  pub holds : s.has_failed ≡ false

-- The bits of a mask that is 0, and a mask whose bits are all 0.
pub record IsClear (a : Mask) : Type 0 where
  pub reads : a.event_read ≡ false
  pub writes : a.event_write ≡ false
  pub closes : a.event_close ≡ false
  pub read_outs : a.read_time_out ≡ false
  pub write_outs : a.write_time_out ≡ false
  pub errs : a.event_err ≡ false

all_false :
    (a b c d e f : Bool)
    → not (a || b || c || d || e || f) ≡ true
    → (a ≡ false) × (b ≡ false) × (c ≡ false) × (d ≡ false) × (e ≡ false) × (f ≡ false)
all_false false false false false false false h = (refl, refl, refl, refl, refl, refl)
all_false true b c d e f h = absurd (ground arith)
all_false false true c d e f h = absurd (ground arith)
all_false false false true d e f h = absurd (ground arith)
all_false false false false true e f h = absurd (ground arith)
all_false false false false false true f h = absurd (ground arith)
all_false false false false false false true h = absurd (ground arith)

pub is_none-IsClear : (a : Mask) → is_none a ≡ true → IsClear a
unfolding is_none
is_none-IsClear a h =
    let (r, w, c, ro, wo, e) =
      all_false a.event_read a.event_write a.event_close a.read_time_out a.write_time_out
        a.event_err h in
    record { reads = r; writes = w; closes = c; read_outs = ro; write_outs = wo; errs = e }

pub IsClear-is_none : (a : Mask) → IsClear a → is_none a ≡ true
unfolding is_none
IsClear-is_none a h = rw (h.reads, h.writes, h.closes, h.read_outs, h.write_outs, h.errs) refl

bit-union : (d e m : Bool) → (d && not e) ≡ false → ((d || m) && not (e || m)) ≡ false
bit-union d e m h = ground arith

bit-minus : (d e f : Bool) → (d && not e) ≡ false → ((d && not e) && not f) ≡ false
bit-minus d e f h = ground arith

bit-none : (d e f : Bool) → e ≡ false → (d && not e) ≡ false → (d && not f) ≡ false
bit-none d e f h k = ground arith

within-union : (d e m : Mask) → is_within d e ≡ true → is_within (union d m) (union e m) ≡ true
unfolding is_within union
within-union d e m h =
    let c = is_none-IsClear (minus d e) h in
    IsClear-is_none (minus (union d m) (union e m)) (record {
      reads = bit-union d.event_read e.event_read m.event_read c.reads;
      writes = bit-union d.event_write e.event_write m.event_write c.writes;
      closes = bit-union d.event_close e.event_close m.event_close c.closes;
      read_outs = bit-union d.read_time_out e.read_time_out m.read_time_out c.read_outs;
      write_outs = bit-union d.write_time_out e.write_time_out m.write_time_out c.write_outs;
      errs = bit-union d.event_err e.event_err m.event_err c.errs;
    })

within-minus : (d e f : Mask) → is_within d e ≡ true → is_within (minus d e) f ≡ true
unfolding is_within
within-minus d e f h =
    let c = is_none-IsClear (minus d e) h in
    IsClear-is_none (minus (minus d e) f) (record {
      reads = bit-minus d.event_read e.event_read f.event_read c.reads;
      writes = bit-minus d.event_write e.event_write f.event_write c.writes;
      closes = bit-minus d.event_close e.event_close f.event_close c.closes;
      read_outs = bit-minus d.read_time_out e.read_time_out f.read_time_out c.read_outs;
      write_outs = bit-minus d.write_time_out e.write_time_out f.write_time_out c.write_outs;
      errs = bit-minus d.event_err e.event_err f.event_err c.errs;
    })

pub within-none : (d e f : Mask) → is_none e ≡ true → is_within d e ≡ true → is_within d f ≡ true
unfolding is_within
within-none d e f n h =
    let c = is_none-IsClear (minus d e) h in
    let k = is_none-IsClear e n in
    IsClear-is_none (minus d f) (record {
      reads = bit-none d.event_read e.event_read f.event_read k.reads c.reads;
      writes = bit-none d.event_write e.event_write f.event_write k.writes c.writes;
      closes = bit-none d.event_close e.event_close f.event_close k.closes c.closes;
      read_outs = bit-none d.read_time_out e.read_time_out f.read_time_out k.read_outs c.read_outs;
      write_outs =
          bit-none d.write_time_out e.write_time_out f.write_time_out k.write_outs c.write_outs;
      errs = bit-none d.event_err e.event_err f.event_err k.errs c.errs;
    })

raise-IsSound : (s : State) (m : Mask) → IsSound s → IsSound (on_event_async s m)
unfolding on_event_async
raise-IsSound s m v = record {
  busy = ground (arith, v.busy);
  waits = λ h. refl;
  runs = v.runs;
  quiet = λ h. absurd cc;
  nothing_lost = within-union s.due s.events.mask m v.nothing_lost;
  counted = ground (arith, v.counted);
  holds = v.holds;
}

pub require-IsSound : (s : State) → 0 < s.claimed → IsSound s → IsSound (require_ref s)
unfolding require_ref
require-IsSound s h v = record {
  busy = omega (arith, v.busy);
  waits = λ k. v.waits (omega arith);
  runs = v.runs;
  quiet = v.quiet;
  nothing_lost = v.nothing_lost;
  counted = omega (arith, v.counted);
  holds = v.holds;
}

pub post-IsSound : (s : State) → 0 < s.referred → IsSound s → IsSound (post s)
unfolding post
post-IsSound s h v = record {
  busy = omega (arith, v.busy);
  waits = λ k. v.waits (omega arith);
  runs = v.runs;
  quiet = v.quiet;
  nothing_lost = v.nothing_lost;
  counted = omega (arith, v.counted);
  holds = v.holds;
}

-- A wrapper that waits for `_events` is the only thread that is busy with the event.
start-IsSound : (s : State) → 0 < s.queued → IsSound s → IsSound (start_wrapper s)
unfolding start_wrapper is_none
start-IsSound s h v =
    let p = v.waits (omega arith) in
    record {
      busy = ground (arith, v.busy, p);
      waits = λ k. absurd (ground (arith, v.busy, p));
      runs = λ k. refl;
      quiet = λ k. refl;
      nothing_lost = within-minus s.due s.events.mask no_events v.nothing_lost;
      counted = omega (arith, v.counted);
      holds = ground (arith, v.holds, p);
    }

retry-IsSound : (s : State) → 0 < s.retrying → IsSound s → IsSound (retry_wrapper s)
unfolding retry_wrapper is_none
retry-IsSound s h v =
    let p = v.waits (omega arith) in
    record {
      busy = ground (arith, v.busy, p);
      waits = λ k. absurd (ground (arith, v.busy, p));
      runs = λ k. refl;
      quiet = λ k. refl;
      nothing_lost = within-minus s.due s.events.mask no_events v.nothing_lost;
      counted = omega (arith, v.counted);
      holds = ground (arith, v.holds, p);
    }

-- A compare-and-swap that fails has found an event that was raised since.
raised :
    (e : Status)
    → is_unchanged e ≡ false
    → e.processing ≡ true
    → (e.pending ≡ false → is_none e.mask ≡ true)
    → e.pending ≡ true
unfolding is_unchanged
raised e h r q = ground (arith, q)

pub settled : (e : Status) → is_unchanged e ≡ true → (e.pending ≡ false) × (is_none e.mask ≡ true)
unfolding is_unchanged
settled e h = (ground arith, ground arith)

pub finish-IsSound : (s : State) → 0 < s.running → IsSound s → IsSound (finish s)
unfolding finish is_none
finish-IsSound s h v = elim (Bool-cases (is_unchanged s.events)) [
  | inl t ↦
      let c = settled s.events t in
      rw t (record {
        busy = ground (arith, v.busy, v.runs h);
        waits = λ k. absurd (ground (arith, v.busy, c));
        runs = λ k. absurd (ground (arith, v.busy, c));
        quiet = λ k. refl;
        nothing_lost = within-none s.due s.events.mask no_events c.1 v.nothing_lost;
        counted = omega (arith, v.counted);
        holds = v.holds;
      })
  | inr t ↦
      let p = raised s.events t (v.runs h) v.quiet in
      rw t (record {
        busy = ground (arith, v.busy);
        waits = λ k. p;
        runs = λ k. v.runs h;
        quiet = v.quiet;
        nothing_lost = v.nothing_lost;
        counted = omega (arith, v.counted);
        holds = v.holds;
      })
]

pub Step-IsSound : {s t : State} → Step s t → IsSound s → IsSound t
unfolding release_ref
Step-IsSound {s} (raises m) v = raise-IsSound s m v
Step-IsSound {s} (requires h) v = require-IsSound s h v
Step-IsSound {s} (posts h) v = post-IsSound s h v
Step-IsSound {s} (starts h) v = start-IsSound s h v
Step-IsSound {s} (retries h) v = retry-IsSound s h v
Step-IsSound {s} (finishes h) v = finish-IsSound s h v
Step-IsSound {s} (releases h) v = record {
  busy = v.busy;
  waits = v.waits;
  runs = v.runs;
  quiet = v.quiet;
  nothing_lost = v.nothing_lost;
  counted = omega (arith, v.counted);
  holds = v.holds;
}
Step-IsSound {s} owns v = record {
  busy = v.busy;
  waits = v.waits;
  runs = v.runs;
  quiet = v.quiet;
  nothing_lost = v.nothing_lost;
  counted = omega (arith, v.counted);
  holds = v.holds;
}
Step-IsSound {s} (disowns h) v = record {
  busy = v.busy;
  waits = v.waits;
  runs = v.runs;
  quiet = v.quiet;
  nothing_lost = v.nothing_lost;
  counted = omega (arith, v.counted);
  holds = v.holds;
}

io_event-IsSound : IsSound io_event
unfolding is_within is_none minus
io_event-IsSound = record {
  busy = refl;
  waits = λ h. absurd (omega arith);
  runs = λ h. absurd (omega arith);
  quiet = λ h. refl;
  nothing_lost = refl;
  counted = refl;
  holds = refl;
}

Steps-IsSound : {s t : State} → Steps s t → IsSound s → IsSound t
Steps-IsSound stay v = v
Steps-IsSound (follow ss h) v = Step-IsSound h (Steps-IsSound ss v)

pub reached-IsSound : {s : State} → Steps io_event s → IsSound s
reached-IsSound h = Steps-IsSound h io_event-IsSound

-- Whatever threads raise events of an event with a work group, in whatever order their steps come:
-- the handler is scheduled or running exactly once while `_events` is not 0, and not otherwise.
pub scheduled_once :
    {s : State}
    → Steps io_event s
    → waiting s + s.running
      ≡ (if s.events.pending || s.events.processing || not (is_none s.events.mask) then 1 else 0)
scheduled_once {s} h = let v = reached-IsSound h in ground (arith, v.busy, v.quiet)

-- In every state that can be reached the assertion of `OnEventWrapper` has not failed, and a thread
-- that has taken the reference for the wrapper, or runs the wrapper, keeps the event alive.
pub wrapper_safe :
    {s : State}
    → Steps io_event s
    → (s.has_failed ≡ false)
      × (0 < s.referred + s.queued + s.retrying + s.running + s.releasing → 0 < s.ref_count)
wrapper_safe h = let v = reached-IsSound h in (v.holds, λ k. omega (arith, v.counted))
