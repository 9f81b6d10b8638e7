-- ===== src/Tests/Services.antt =====
-- Runs of the service pool and of its statistics.
use mtrpc.Base.{
  ℕ, ◌≡◌, ◌↔◌, refl, arith, true, false, not, ◌&&◌, List, [], ◌∷◌, ◌++◌, Option, none, some, length,
  if◌then◌else◌,
}
use mtrpc.Text.{Bytes, codes, bytes_eq, find, assign}
use mtrpc.Service.Stats.{zero_slot, method_board, latest_stats}
use mtrpc.Service.History.{Report, ends, turns, told_all, aged_all, collect, latest_stats-collect}
use mtrpc.Service.Pool.{
  Service, ServicePool, service_pool, service_board, register_service, find_service, find_via,
  register_as, fill_as,
}
use mtrpc.Service.Lookup.{IsValid, is_there, find_service-register_service}
use mtrpc.Server.{rfind, parse_method_full_name, with_method, handler_get_service_and_method}
use mtrpc.Server.Resolve.{parse_iff, resolves_registered}

abbrev reports : List Report
reports = ends true 5 ∷ ends false 9 ∷ turns ∷ ends true 3 ∷ turns ∷ []

latest_stats_example :
    latest_stats (told_all method_board reports) 2
    ≡ collect 2 (aged_all (λ j. zero_slot) reports) 1 zero_slot
latest_stats_example = latest_stats-collect reports 2 (omega arith) (omega arith)

abbrev echo : Service
echo = record { number = 4; full_name = codes "Echo"; methods = 2 }

abbrev no_services : ServicePool
no_services = service_pool (service_board echo false)

no_services-IsValid : IsValid no_services
unfolding find
no_services-IsValid = record { mapped = λ m p h. absurd cc; cached = λ i p h. absurd cc }

find_service_example :
    IsValid (register_service length no_services echo true).0
    × ((register_service length no_services echo true).1
        ≡ not (is_there (find_service length no_services echo.full_name)))
    × (find_service length (register_service length no_services echo true).0 (codes "Echo") ≡ (
        if (register_service length no_services echo true).1
          && bytes_eq echo.full_name (codes "Echo")
        then some no_services.count
        else find_service length no_services (codes "Echo")))
find_service_example =
    find_service-register_service length no_services echo true (codes "Echo") no_services-IsValid

-- The service has the methods "Say" and "Call", with the numbers 0 and 1.
abbrev find_method : ℕ → Bytes → Option ℕ
find_method n m =
    if bytes_eq m (codes "Say") then some 0 else if bytes_eq m (codes "Call") then some 1 else none

resolve_test :
    (handler_get_service_and_method length find_method
      (register_service length no_services echo true).0
      (codes "Echo.Stop")).service
    ≡ some 4
unfolding handler_get_service_and_method parse_method_full_name bytes_eq find assign find_via
    register_as fill_as
resolve_test = refl

parse_example :
    (parse_method_full_name (codes "a.Echo.Say") ≡ some (codes "a.Echo", codes "Say")) ↔ (
      (codes "a.Echo.Say" ≡ codes "a.Echo" ++ b'.' ∷ codes "Say")
      × (rfind (codes "Say") b'.' ≡ none))
parse_example = parse_iff (codes "a.Echo.Say") (codes "a.Echo") (codes "Say")

resolves_registered_example :
    handler_get_service_and_method length find_method
      (register_service length no_services echo true).0
      (codes "Echo" ++ b'.' ∷ codes "Say")
    ≡ with_method 4 (find_method 4 (codes "Say"))
unfolding find find_via
resolves_registered_example =
    resolves_registered length find_method no_services echo true (codes "Say") no_services-IsValid
      refl refl
