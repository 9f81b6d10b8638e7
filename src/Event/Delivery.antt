-- ===== src/Event/Delivery.antt =====
-- Every event that was raised can be handed to `OnEvent` by the threads that are busy already.
use mtrpc.Base.{◌&&◌, not, Bool, ◌+◌, ◌<◌, ◌≡◌, arith, true, false, Bool-cases, inl, inr}
use native.Mathlib.Decide.{dec_lt}
use mtrpc.Event.{no_events, minus, is_none}
use mtrpc.Event.Schedule.{
  State, require_ref, post, start_wrapper, retry_wrapper, is_unchanged, finish, Step, raises, owns,
  disowns, requires, posts, starts, retries, finishes, Steps, io_event,
}
use mtrpc.Event.Once.{
  is_within, within-none, is_none-IsClear, IsClear-is_none, IsSound, waiting, require-IsSound,
  post-IsSound, finish-IsSound, settled, reached-IsSound,
}

-- Not the step of a thread that raises events or that owns references.
abbrev pub IsBusy : {s t : State} → Step s t → Type 0
IsBusy (raises m) = ⊥
IsBusy owns = ⊥
IsBusy (disowns h) = ⊥
IsBusy _ = Unit {0}

-- The steps of the threads that are busy with the event: all but those that raise events or that
-- own references.
pub data BusySteps : State → State → Type 0 where
  here : {s : State} → BusySteps s s
  on : {s t u : State} (h : Step s t) → IsBusy h → BusySteps t u → BusySteps s u

-- A state that follows by the steps of busy threads, in which `OnEvent` has been given every event.
pub record Delivers (s : State) : Type 0 where
  pub later : State
  pub steps : BusySteps s later
  pub all : is_none later.due ≡ true

prepend : {s t : State} (h : Step s t) → IsBusy h → Delivers t → Delivers s
prepend h b d = record { later = d.later; steps = on h b d.steps; all = d.all }

by_start : (s : State) → 0 < s.queued → IsSound s → Delivers s
unfolding start_wrapper is_within
by_start s h v = record {
  later = start_wrapper s;
  steps = on (starts h) tt here;
  all = v.nothing_lost;
}

by_retry : (s : State) → 0 < s.retrying → IsSound s → Delivers s
unfolding retry_wrapper is_within
by_retry s h v = record {
  later = retry_wrapper s;
  steps = on (retries h) tt here;
  all = v.nothing_lost;
}

by_post : (s : State) → 0 < s.referred → IsSound s → Delivers s
unfolding post
by_post s h v = prepend (posts h) tt (by_start (post s) (omega arith) (post-IsSound s h v))

by_require : (s : State) → 0 < s.claimed → IsSound s → Delivers s
unfolding require_ref
by_require s h v =
    prepend (requires h) tt (by_post (require_ref s) (omega arith) (require-IsSound s h v))

and_true : (a : Bool) → (a && not false) ≡ false → a ≡ false
and_true a h = ground arith

due_none : (s : State) → is_none s.events.mask ≡ true → IsSound s → is_none s.due ≡ true
unfolding is_within
due_none s h v =
    let c =
      is_none-IsClear (minus s.due no_events)
        (within-none s.due s.events.mask no_events h v.nothing_lost) in
    IsClear-is_none s.due (record {
      reads = and_true s.due.event_read c.reads;
      writes = and_true s.due.event_write c.writes;
      closes = and_true s.due.event_close c.closes;
      read_outs = and_true s.due.read_time_out c.read_outs;
      write_outs = and_true s.due.write_time_out c.write_outs;
      errs = and_true s.due.event_err c.errs;
    })

by_finish : (s : State) → 0 < s.running → IsSound s → Delivers s
unfolding finish
by_finish s h v = elim (Bool-cases (is_unchanged s.events)) [
  | inl t ↦ record { later = s; steps = here; all = due_none s (settled s.events t).1 v }
  | inr t ↦ prepend (finishes h) tt (by_retry (finish s) (failed s t) (finish-IsSound s h v))
]
  where
    failed : (s : State) → is_unchanged s.events ≡ false → 0 < (finish s).retrying
    failed s t = rw t (omega arith)

idle : (s : State) → IsSound s → waiting s + s.running ≡ 0 → is_none s.due ≡ true
idle s v h = due_none s (v.quiet (ground (arith, v.busy))) v

-- From every state that can be reached, steps of the threads that are busy with the event alone
-- lead to a state in which `OnEvent` has been given every event that was raised.
pub all_delivered : {s : State} → Steps io_event s → Delivers s
all_delivered {s} r =
    let v = reached-IsSound r in
    elim (dec_lt 0 s.claimed) [
      | yes h ↦ by_require s h v
      | no h0 ↦ elim (dec_lt 0 s.referred) [
        | yes h ↦ by_post s h v
        | no h1 ↦ elim (dec_lt 0 s.queued) [
          | yes h ↦ by_start s h v
          | no h2 ↦ elim (dec_lt 0 s.retrying) [
            | yes h ↦ by_retry s h v
            | no h3 ↦ elim (dec_lt 0 s.running) [
              | yes h ↦ by_finish s h v
              | no h4 ↦ record { later = s; steps = here; all = idle s v (omega arith) }
            ]
          ]
        ]
      ]
    ]
