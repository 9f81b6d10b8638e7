-- ===== src/Server.antt =====
-- rpc/rpc_server_impl.cpp: how a server finds the service and the method of a request, and the list
-- of its methods. What protobuf's descriptors hold is a parameter: the number of the method that
-- `FindMethodByName` finds, and the names of a method.
pub mod Resolve
use mtrpc.Base.{
  ℕ, zero, suc, ◌+◌, Bool, true, false, List, [], ◌∷◌, ◌++◌, Option, none, some, if◌then◌else◌,
  ◌==◌, take, drop,
}
use mtrpc.Text.{Bytes, codes}
use mtrpc.Service.Pool.{ServiceBoard, ServicePool, find_service}

-- `s.rfind(c)`; none for npos.
abbrev pub found_last : Option ℕ → Bool → Option ℕ
found_last (some i) b = some (suc i)
found_last none true = some 0
found_last none false = none

abbrev pub rfind : Bytes → ℕ → Option ℕ
rfind [] c = none
rfind (x ∷ s) c = found_last (rfind s c) (x == c)

-- `ParseMethodFullName`: the names of the service and of the method; none where it returns false.
abbrev pub split_at : Bytes → Option ℕ → Option (Bytes × Bytes)
split_at s none = none
split_at s (some i) = some (take i s, drop (suc i) s)

unfoldable pub parse_method_full_name : Bytes → Option (Bytes × Bytes)
parse_method_full_name s = split_at s (rfind s b'.')

-- What `handlerGetServiceAndMethod` returns, and what it sets of the service and of the method.
pub record Resolved : Type 0 where
  pub is_found : Bool
  pub service : Option ℕ
  pub method : Option ℕ

abbrev pub not_resolved : Resolved
not_resolved = record { is_found = false; service = none; method = none }

abbrev pub is_some : Option ℕ → Bool
is_some none = false
is_some (some k) = true

abbrev pub with_method : ℕ → Option ℕ → Resolved
with_method n m = record { is_found = is_some m; service = some n; method = m }

module _ (murmurhash : Bytes → ℕ) (find_method_by_name : ℕ → Bytes → Option ℕ) where
  abbrev pub in_board : ServicePool → Bytes → Option ℕ → Resolved
  in_board p name none = not_resolved
  in_board p name (some b) =
      let n = (p.boards b).service in with_method n (find_method_by_name n name)

  abbrev pub in_pool : ServicePool → Option (Bytes × Bytes) → Resolved
  in_pool p none = not_resolved
  in_pool p (some names) = in_board p names.1 (find_service murmurhash p names.0)

  unfoldable pub handler_get_service_and_method : ServicePool → Bytes → Resolved
  handler_get_service_and_method p name = in_pool p (parse_method_full_name name)

-- The names of a method: its own, that of its input and that of its output.
pub record MethodNames : Type 0 where
  pub full_name : Bytes
  pub input_name : Bytes
  pub output_name : Bytes

abbrev pub method_line : MethodNames → Bytes
method_line m = m.output_name ++ b' ' ∷ (m.full_name ++ b'(' ∷ (m.input_name ++ b')' ∷ b'\n' ∷ []))

-- `listAllRegisterService`: of each service in the order of the names, the methods from the last.
abbrev pub method_lines : (ℕ → MethodNames) → ℕ → List Bytes
method_lines f zero = []
method_lines f (suc i) = method_line (f i) ∷ method_lines f i

abbrev pub list_boards : (ℕ → ServiceBoard) → (ℕ → ℕ → MethodNames) → List (Bytes × ℕ) → List Bytes
list_boards bs f [] = []
list_boards bs f ((k, b) ∷ m) =
    method_lines (f (bs b).service) (bs b).method_count ++ list_boards bs f m

unfoldable pub list_all_register_service : (ℕ → ℕ → MethodNames) → ServicePool → List Bytes
list_all_register_service f p = list_boards p.boards f p.service_map
