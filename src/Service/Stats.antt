-- ===== src/Service/Stats.antt =====
-- rpc/rpc_service_pool.h, `StatSlot` and `MethodBoard`: a ring of 602 slots of counts and times. The
-- numbers are `int64`; they count calls and their microseconds, and stay below 2^63.
use mtrpc.Base.{ℕ, zero, suc, ◌+◌, ◌-◌, Bool, true, false, if◌then◌else◌, ltb, ◌==◌}

abbrev pub stat_slot_count : ℕ
stat_slot_count = 602

pub record StatSlot : Type 0 where
  pub succeed_count : ℕ
  pub succeed_process_time : ℕ
  pub succeed_max_process_time : ℕ
  pub failed_count : ℕ
  pub failed_process_time : ℕ
  pub failed_max_process_time : ℕ

-- `memset(slot, 0, sizeof(StatSlot))`
abbrev pub zero_slot : StatSlot
zero_slot = record {
  succeed_count = 0;
  succeed_process_time = 0;
  succeed_max_process_time = 0;
  failed_count = 0;
  failed_process_time = 0;
  failed_max_process_time = 0;
}

pub record MethodBoard : Type 0 where
  pub slots : ℕ → StatSlot
  pub slot_index : ℕ

-- `MethodBoard()`
abbrev pub method_board : MethodBoard
method_board = record { slots = λ i. zero_slot; slot_index = 0 }

abbrev pub max_time : ℕ → ℕ → ℕ
max_time a b = if ltb a b then b else a

-- What `ReportProcessEnd` does to the slot.
unfoldable pub count_call : StatSlot → Bool → ℕ → StatSlot
count_call s true t = record s {
  succeed_count = s.succeed_count + 1;
  succeed_process_time = s.succeed_process_time + t;
  succeed_max_process_time = max_time s.succeed_max_process_time t;
}
count_call s false t = record s {
  failed_count = s.failed_count + 1;
  failed_process_time = s.failed_process_time + t;
  failed_max_process_time = max_time s.failed_max_process_time t;
}

abbrev pub set_slot : (ℕ → StatSlot) → ℕ → StatSlot → ℕ → StatSlot
set_slot f i s j = if j == i then s else f j

unfoldable pub report_process_end : MethodBoard → Bool → ℕ → MethodBoard
unfolding count_call
report_process_end b succeed t = record b {
  slots = set_slot b.slots b.slot_index (count_call (b.slots b.slot_index) succeed t);
}

unfoldable pub next_slot : MethodBoard → MethodBoard
next_slot b =
    let i = if b.slot_index + 1 == stat_slot_count then 0 else b.slot_index + 1 in
    record { slots = set_slot b.slots i zero_slot; slot_index = i }

-- What `LatestStats` does with one slot.
unfoldable pub add_slot : StatSlot → StatSlot → StatSlot
add_slot out s = record {
  succeed_count = out.succeed_count + s.succeed_count;
  succeed_process_time = out.succeed_process_time + s.succeed_process_time;
  succeed_max_process_time = max_time out.succeed_max_process_time s.succeed_max_process_time;
  failed_count = out.failed_count + s.failed_count;
  failed_process_time = out.failed_process_time + s.failed_process_time;
  failed_max_process_time = max_time out.failed_max_process_time s.failed_max_process_time;
}

-- One slot back.
abbrev pub index_before : ℕ → ℕ
index_before i = if i == 0 then stat_slot_count - 1 else i - 1

-- The loop of `LatestStats`.
unfoldable pub latest_from : ℕ → MethodBoard → ℕ → StatSlot → StatSlot
unfolding add_slot
latest_from zero b i out = out
latest_from (suc n) b i out = latest_from n b (index_before i) (add_slot out (b.slots i))

unfoldable pub latest_stats : MethodBoard → ℕ → StatSlot
unfolding latest_from
latest_stats b slot_count = latest_from slot_count b (index_before b.slot_index) zero_slot
