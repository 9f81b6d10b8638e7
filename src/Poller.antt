-- ===== src/Poller.antt =====
-- mio/mio_poller.h and mio/mio_poller.cpp: the time-outs of the events. An event is a number. The
-- trees of nginx are a parameter, and so is the clock, in seconds.
pub mod Calls
pub mod Fired
pub mod Wait
use mtrpc.Base.{
  ℕ, zero, suc, ◌+◌, ◌-◌, ◌*◌, ◌≡◌, ◌≢◌, ◌≤◌, ◌<◌, Bool, true, false, not, ◌&&◌, ◌||◌, List, [],
  ◌∷◌, Option, none, some, if◌then◌else◌, ◌==◌, ltb, leb, ◌%◌, ℤ, pos, negsuc, lt_ℤ,
}
use mtrpc.Text.{to_int32}

-- What ngx_rbtree does, as its documentation has it: `key_in` is the key that a node of the tree was
-- inserted with, `size` the number of the nodes. A node is deleted where it is in the tree, and
-- inserted where it is not. For a tree without nodes `min` gives the sentinel, which is none here.
pub record RbTree (T : Type 0) : Type 0 where
  pub empty : T
  pub insert : T → ℕ → ℕ → T
  pub delete : T → ℕ → T
  pub min : T → Option ℕ
  pub key_in : T → ℕ → Option ℕ
  pub size : T → ℕ
  pub key_in-empty : (i : ℕ) → key_in empty i ≡ none
  pub key_in-insert :
      (t : T) (k i j : ℕ)
      → key_in t i ≡ none
      → key_in (insert t k i) j ≡ (if j == i then some k else key_in t j)
  pub key_in-delete :
      (t : T) (k i j : ℕ)
      → key_in t i ≡ some k
      → key_in (delete t i) j ≡ (if j == i then none else key_in t j)
  pub size-delete : (t : T) (k i : ℕ) → key_in t i ≡ some k → size (delete t i) < size t
  pub min-none : (t : T) (i : ℕ) → min t ≡ none → key_in t i ≡ none
  pub min-some :
      (t : T) (i : ℕ)
      → min t ≡ some i
      → (k : ℕ) × (key_in t i ≡ some k) × ((j l : ℕ) → key_in t j ≡ some l → k ≤ l)

-- The timers of reading, or of writing: the tree, the `key` of each event's node, and whether a node
-- was deleted that was not in the tree, which breaks it.
pub record Timers (T : Type 0) : Type 0 where
  pub tree : T
  pub key : ℕ → ℕ
  pub has_failed : Bool

-- The poller's two trees, and the reference counts of the events.
pub record Epoller (T : Type 0) : Type 0 where
  pub rtimer : Timers T
  pub wtimer : Timers T
  pub ref_count : ℕ → ℕ

abbrev pub update : (ℕ → ℕ) → ℕ → ℕ → ℕ → ℕ
update f e v j = if j == e then v else f j

abbrev pub is_in : Option ℕ → Bool
is_in none = false
is_in (some k) = true

module _ {T : Type 0} (r : RbTree T) where
  -- `Epoller()` with events that have `refs` references.
  abbrev pub no_timers : Timers T
  no_timers = record { tree = r.empty; key = λ e. 0; has_failed = false }

  abbrev pub epoller : (ℕ → ℕ) → Epoller T
  epoller refs = record { rtimer = no_timers; wtimer = no_timers; ref_count = refs }

  -- `ngx_rbtree_delete` of an event's node.
  abbrev pub delete_node : Timers T → ℕ → Timers T
  delete_node m e = record m {
    tree = r.delete m.tree e;
    has_failed = m.has_failed || not (is_in (r.key_in m.tree e));
  }

  abbrev pub insert_node : Timers T → ℕ → ℕ → Timers T
  insert_node m k e = record m { tree = r.insert m.tree k e; key = update m.key e k }

  -- What `SetReadTimeOut` and `SetWriteTimeOut` do to their timers, at the time `now`.
  abbrev pub set_time_out : ℕ → ℕ → ℕ → Timers T → Timers T
  set_time_out now e time_sec m =
      insert_node (if m.key e == 0 then m else delete_node m e) (now + time_sec) e

  -- What `DelReadTimeOut` and `DelWriteTimeOut` do to them.
  abbrev pub del_time_out : ℕ → Timers T → Timers T
  del_time_out e m = if m.key e == 0 then m else delete_node (record m { key = update m.key e 0 }) e

  -- The references that they take and give back.
  abbrev pub set_refs : ℕ → Timers T → (ℕ → ℕ) → ℕ → ℕ
  set_refs e m f = if m.key e == 0 then update f e (f e + 1) else f

  abbrev pub del_refs : ℕ → Timers T → (ℕ → ℕ) → ℕ → ℕ
  del_refs e m f = if m.key e == 0 then f else update f e (f e - 1)

  unfoldable pub set_read_time_out : ℕ → ℕ → ℕ → Epoller T → Epoller T
  set_read_time_out now e time_sec p = record p {
    rtimer = set_time_out now e time_sec p.rtimer;
    ref_count = set_refs e p.rtimer p.ref_count;
  }

  unfoldable pub set_write_time_out : ℕ → ℕ → ℕ → Epoller T → Epoller T
  set_write_time_out now e time_sec p = record p {
    wtimer = set_time_out now e time_sec p.wtimer;
    ref_count = set_refs e p.wtimer p.ref_count;
  }

  unfoldable pub del_read_time_out : ℕ → Epoller T → Epoller T
  del_read_time_out e p = record p {
    rtimer = del_time_out e p.rtimer;
    ref_count = del_refs e p.rtimer p.ref_count;
  }

  unfoldable pub del_write_time_out : ℕ → Epoller T → Epoller T
  del_write_time_out e p = record p {
    wtimer = del_time_out e p.wtimer;
    ref_count = del_refs e p.wtimer p.ref_count;
  }

  -- `DelEvent`, but for `epoll_ctl`.
  unfoldable pub del_event : ℕ → Epoller T → Epoller T
  del_event e p =
      let q = del_write_time_out e (del_read_time_out e p) in
      record q { ref_count = update q.ref_count e (q.ref_count e - 1) }

  -- The test of the loops of `ProcessTimeOut` on the first node.
  abbrev pub is_due : ℕ → ℕ → Bool
  is_due now k = ltb 0 k && leb k now

  abbrev pub test_due : ℕ → Timers T → Option ℕ → Option ℕ
  test_due now m none = none
  test_due now m (some e) = if is_due now (m.key e) then some e else none

  abbrev pub due : ℕ → Timers T → Option ℕ
  due now m = test_due now m (r.min m.tree)

  -- One of those loops, with the events that it calls `OnEventAsync` of. Each round deletes a node,
  -- so the size of the tree is enough fuel.
  abbrev pub fire_first : Option ℕ → Timers T → (ℕ → Timers T × List ℕ) → Timers T × List ℕ
  fire_first none m rest = (m, [])
  fire_first (some e) m rest = let (m', es) = rest e in (m', e ∷ es)

  unfoldable pub fire : ℕ → ℕ → Timers T → Timers T × List ℕ
  fire zero now m = (m, [])
  fire (suc n) now m = fire_first (due now m) m (λ e. fire n now (delete_node m e))

  -- The key of the first node, which is 0 for the sentinel.
  abbrev pub key_of : Timers T → Option ℕ → ℕ
  key_of m none = 0
  key_of m (some e) = m.key e

  -- How long the first node has still to wait, if the source sets it.
  abbrev pub wait_for : ℕ → Timers T → Option ℤ
  wait_for now m =
      let k = key_of m (r.min m.tree) in if leb now k then some (to_int32 (k - now)) else none

-- The first value of `waittime`, and what the timers of writing set it to.
abbrev pub or_minus_one : Option ℤ → ℤ
or_minus_one none = negsuc 0
or_minus_one (some z) = z

abbrev pub at_least_one : ℤ → ℤ
at_least_one (pos n) = if n == 0 then pos 1 else pos n
at_least_one (negsuc n) = negsuc n

-- `waittime` after the timers of reading: the smaller one, but for a negative one of writing.
abbrev pub smaller : ℤ → ℤ → ℤ
smaller (pos a) b = if lt_ℤ (pos a) b then pos a else b
smaller (negsuc a) b = b

abbrev pub wait_both : ℤ → Option ℤ → ℤ
wait_both w none = w
wait_both w (some b) = at_least_one (smaller w b)

-- `waittime == -1 ? -1 : waittime*1000`. What overflows, which is not defined, wraps around.
abbrev pub to_ms : ℤ → ℤ
to_ms (pos n) = to_int32 (n * 1000)
to_ms (negsuc zero) = negsuc 0
to_ms (negsuc (suc n)) = to_int32 (4294967296 - (n + 2) * 1000 % 4294967296)

-- What `ProcessTimeOut` leaves, the events that it fires for writing and for reading, and what it
-- returns.
pub record Processed (T : Type 0) : Type 0 where
  pub poller : Epoller T
  pub write_fired : List ℕ
  pub read_fired : List ℕ
  pub waittime : ℤ

unfoldable pub process_time_out : {T : Type 0} → RbTree T → ℕ → Epoller T → Processed T
process_time_out r now p =
    let (w, ws) = fire r (r.size p.wtimer.tree) now p.wtimer in
    let (d, ds) = fire r (r.size p.rtimer.tree) now p.rtimer in
    record {
      poller = record p { rtimer = d; wtimer = w };
      write_fired = ws;
      read_fired = ds;
      waittime = to_ms (wait_both (or_minus_one (wait_for r now w)) (wait_for r now d));
    }
