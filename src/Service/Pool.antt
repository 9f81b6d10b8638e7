-- ===== src/Service/Pool.antt =====
-- rpc/rpc_service_pool.h, `ServiceBoard` and `ServicePool`. A board is known by its address: the
-- number of boards that were made before it. The hash of a name is a parameter.
use mtrpc.Base.{
  ℕ, ◌+◌, ◌%◌, Bool, true, false, List, [], ◌∷◌, map, Option, none, some, if◌then◌else◌, ◌==◌, ltb,
}
use mtrpc.Text.{Bytes, bytes_eq, find, assign}
use mtrpc.Service.Stats.{MethodBoard, method_board, report_process_end, next_slot}

abbrev pub service_cache_slot_count : ℕ
service_cache_slot_count = 1019

pub record ServiceBoard : Type 0 where
  pub service_name : Bytes
  pub service : ℕ
  pub own : Bool
  pub method_count : ℕ
  pub method_boards : ℕ → MethodBoard

-- What a service is to the pool: its number, its full name, and the number of its methods.
pub record Service : Type 0 where
  pub number : ℕ
  pub full_name : Bytes
  pub methods : ℕ

-- `ServiceBoard(next, svc, own)`
abbrev pub service_board : Service → Bool → ServiceBoard
service_board s own = record {
  service_name = s.full_name;
  service = s.number;
  own = own;
  method_count = s.methods;
  method_boards = λ i. method_board;
}

pub record ServicePool : Type 0 where
  pub boards : ℕ → ServiceBoard
  pub service_map : List (Bytes × ℕ)
  -- The list of boards from `_head` on.
  pub links : List ℕ
  pub cache : ℕ → Option ℕ
  pub count : ℕ

-- A function with another value at one place.
abbrev pub set_at {ℓ} : {A : Type ℓ} → (ℕ → A) → ℕ → A → ℕ → A
set_at f i a j = if j == i then a else f j

-- `ServicePool()`
abbrev pub service_pool : ServiceBoard → ServicePool
service_pool junk = record {
  boards = λ i. junk;
  service_map = [];
  links = [];
  cache = λ i. none;
  count = 0;
}

-- `ServiceBoard::NextSlot`
abbrev pub next_slots : ServiceBoard → ServiceBoard
next_slots b = record b {
  method_boards =
      λ i. if ltb i b.method_count then next_slot (b.method_boards i) else b.method_boards i;
}

abbrev pub next_all : (ℕ → ServiceBoard) → List ℕ → ℕ → ServiceBoard
next_all bs [] = bs
next_all bs (p ∷ ps) = next_all (set_at bs p (next_slots (bs p))) ps

-- `ServicePool::NextSlot`
abbrev pub next_slot_all : ServicePool → ServicePool
next_slot_all s = record s { boards = next_all s.boards s.links }

-- `ServiceBoard::ReportProcessEnd` of the board at `p`
abbrev pub report_end : ServicePool → ℕ → ℕ → Bool → ℕ → ServicePool
report_end s p method succeed t =
    let b = s.boards p in
    record s {
      boards = set_at s.boards p (record b {
        method_boards =
            set_at b.method_boards method (report_process_end (b.method_boards method) succeed t);
      });
    }

-- `GetRealPeriod`, for a period that is not negative; STAT_SLOT_SECONDS is 1.
abbrev pub get_real_period : ℕ → ℕ × ℕ
get_real_period expect =
    let sc = if ltb 1 expect then expect else 1 in let n = if ltb 600 sc then 600 else sc in (n, n)

-- `ListService`
abbrev pub by_name : (ℕ → ServiceBoard) → List ℕ → List (Bytes × ℕ) → List (Bytes × ℕ)
by_name bs [] m = m
by_name bs (p ∷ ps) m = by_name bs ps (assign m (bs p).service_name p)

abbrev pub list_service : ServicePool → List ℕ
list_service s = map (λ (e : Bytes × ℕ). e.1) (by_name s.boards s.links [])

-- The cache with a board in a slot, if that is empty.
unfoldable pub fill_as : (ℕ → Option ℕ) → ℕ → ℕ → Option ℕ → ℕ → Option ℕ
fill_as f i p none = set_at f i (some p)
fill_as f i p (some q) = f

-- `FindService`, with what is in the cache's slot.
unfoldable pub find_via : ServicePool → Bytes → Option ℕ → Option ℕ
unfolding bytes_eq
find_via s name none = find s.service_map name
find_via s name (some p) =
    if bytes_eq (s.boards p).service_name name then some p else find s.service_map name

module _ (murmurhash : Bytes → ℕ) where
  abbrev pub cache_index : Bytes → ℕ
  cache_index name = murmurhash name % service_cache_slot_count

  abbrev pub fill_cache : (ℕ → Option ℕ) → Bytes → ℕ → ℕ → Option ℕ
  fill_cache f name p = fill_as f (cache_index name) p (f (cache_index name))

  -- `RegisterService`, with what was found under the name.
  unfoldable pub register_as : ServicePool → Service → Bool → Option ℕ → ServicePool × Bool
  unfolding fill_as
  register_as s svc own (some p) = (s, false)
  register_as s svc own none = (
    record {
      boards = set_at s.boards s.count (service_board svc own);
      service_map = assign s.service_map svc.full_name s.count;
      links = s.count ∷ s.links;
      cache = fill_cache s.cache svc.full_name s.count;
      count = s.count + 1;
    },
    true,
  )

  abbrev pub register_service : ServicePool → Service → Bool → ServicePool × Bool
  register_service s svc own = register_as s svc own (find s.service_map svc.full_name)

  -- `FindService`
  abbrev pub find_service : ServicePool → Bytes → Option ℕ
  find_service s name = find_via s name (s.cache (cache_index name))
