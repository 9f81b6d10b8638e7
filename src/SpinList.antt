-- ===== src/SpinList.antt =====
-- common/spinlist.h: the doubly linked list that hands tasks from thread to thread. Its lock makes
-- each operation one step. A node is a number, NULL is none.
pub mod Segment
pub mod Queue
pub mod Fifo
use mtrpc.Base.{ℕ, ◌+◌, Bool, true, false, Option, none, some, if◌then◌else◌, ◌==◌}

-- The nodes: their fields, which of them are allocated, and the first that never was.
pub record Heap (A : Type 0) : Type 0 where
  pub value : ℕ → A
  pub next : ℕ → Option ℕ
  pub pre : ℕ → Option ℕ
  pub live : ℕ → Bool
  pub top : ℕ

pub record SpinList : Type 0 where
  pub head : Option ℕ
  pub tail : Option ℕ
  pub cache : Option ℕ

abbrev pub spin_list : SpinList
spin_list = record { head = none; tail = none; cache = none }

abbrev pub write : {B : Type 0} → (ℕ → B) → ℕ → B → ℕ → B
write f i v j = if j == i then v else f j

module _ {A : Type 0} where
  -- `new Node(t)`
  abbrev pub new_node : Heap A → A → Heap A
  new_node h t = record {
    value = write h.value h.top t;
    next = write h.next h.top none;
    pre = write h.pre h.top none;
    live = write h.live h.top true;
    top = h.top + 1;
  }

  -- A node out of the cache, whose `next` is reset before it is read.
  abbrev pub reuse_node : Heap A → ℕ → A → Heap A
  reuse_node h c t = record h { value = write h.value c t; next = write h.next c none }

  abbrev pub node_from : Heap A → SpinList → A → Option ℕ → Heap A × SpinList × ℕ
  node_from h l t none = (new_node h t, l, h.top)
  node_from h l t (some c) = let h' = reuse_node h c t in (h', record l { cache = h'.next c }, c)

  abbrev pub set_next : Heap A → ℕ → Option ℕ → Heap A
  set_next h i o = record h { next = write h.next i o }

  abbrev pub set_pre : Heap A → ℕ → Option ℕ → Heap A
  set_pre h i o = record h { pre = write h.pre i o }

  -- `delete`
  abbrev pub delete_node : Heap A → ℕ → Heap A
  delete_node h i = record h { live = write h.live i false }

  -- The node `n` in front of the head.
  abbrev pub link_head : Heap A → SpinList → ℕ → Option ℕ → Heap A × SpinList
  link_head h l n none = (h, record l { head = some n; tail = some n })
  link_head h l n (some d) =
      (set_pre (set_next h n (some d)) d (some n), record l { head = some n })

  unfoldable pub push : Heap A → SpinList → A → Heap A × SpinList
  push h l t = let (h', l', n) = node_from h l t l.cache in link_head h' l' n l'.head

  -- The last node goes, and the one before it, if there is one, becomes the tail.
  abbrev pub unlink_tail : Heap A → SpinList → ℕ → Option ℕ → Heap A × SpinList
  unlink_tail h l n none = (delete_node h n, record l { head = none; tail = none })
  unlink_tail h l n (some p) = (delete_node (set_next h p none) n, record l { tail = some p })

  abbrev pub pop_tail : Heap A → SpinList → Option ℕ → Heap A × SpinList × Option A
  pop_tail h l none = (h, l, none)
  pop_tail h l (some n) = let (h', l') = unlink_tail h l n (h.pre n) in (h', l', some (h.value n))

  -- The value is none where `pop` returns false.
  unfoldable pub pop : Heap A → SpinList → Heap A × SpinList × Option A
  pop h l = pop_tail h l l.tail

-- What this list and the other are after `MoveTo`.
unfoldable pub move_to : SpinList → SpinList → SpinList × SpinList
move_to l other =
    (record l { head = none; tail = none }, record other { head = l.head; tail = l.tail })

abbrev pub is_empty : SpinList → Bool
is_empty l = elim l.head [ none ↦ true | some n ↦ false ]

-- `Merge`; none where it goes through `list.tail` and that is NULL.
abbrev pub link_lists :
    {A : Type 0}
    → Heap A
    → SpinList
    → SpinList
    → Option ℕ
    → Option ℕ
    → Option (Heap A × SpinList × SpinList)
link_lists h l other none o = some (
  h,
  record l { head = other.head; tail = other.tail },
  record other { head = none; tail = none },
)
link_lists h l other (some d) none = none
link_lists h l other (some d) (some b) = some (
  set_pre (set_next h b (some d)) d (some b),
  record l { head = other.head },
  record other { head = none; tail = none },
)

unfoldable pub merge :
    {A : Type 0} → Heap A → SpinList → SpinList → Option (Heap A × SpinList × SpinList)
merge h l other = link_lists h l other l.head other.tail
