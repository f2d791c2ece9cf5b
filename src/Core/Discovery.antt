-- ===== src/Core/Discovery.antt =====
-- The routers that src/core/router.py finds.
use smartcourse_core.Base.{
  List, String, [], ap, arith, if◌then◌else◌, refl, ℕ, ◌+◌, ◌==◌, ◌∙◌, ◌∷◌, ◌≡◌, nat_eq, string_eq,
}
use smartcourse_core.Core.Router.{
  Import, not_there, router, other_attribute, ModuleInfo, insert_module, sort_modules, routers_of,
  discover_module_routers, build_api_router,
}

-- How often a router with the prefix is included.
abbrev pub times : String → List String → ℕ
times prefix [] = 0
times prefix (p ∷ l) = (if p == prefix then 1 else 0) + times prefix l

-- How often one of the modules has a router with the prefix.
abbrev pub offered : String → Import → ℕ
offered prefix not_there = 0
offered prefix (router p) = if p == prefix then 1 else 0
offered prefix other_attribute = 0

abbrev pub times_offered : String → List ModuleInfo → ℕ
times_offered prefix [] = 0
times_offered prefix (m ∷ l) = offered prefix m.routes + times_offered prefix l

times-routers_of :
    (prefix : String) (l : List ModuleInfo) → times prefix (routers_of l) ≡ times_offered prefix l
times-routers_of prefix [] = refl
times-routers_of prefix (m ∷ l) = ground (arith, times-routers_of prefix l)

times_offered-insert :
    (prefix : String) (m : ModuleInfo) (l : List ModuleInfo)
    → times_offered prefix (insert_module m l) ≡ offered prefix m.routes + times_offered prefix l
times_offered-insert prefix m [] = refl
times_offered-insert prefix m (n ∷ l) = ground (arith, times_offered-insert prefix m l)

times_offered-sort :
    (prefix : String) (l : List ModuleInfo)
    → times_offered prefix (sort_modules l) ≡ times_offered prefix l
times_offered-sort prefix [] = refl
times_offered-sort prefix (m ∷ l) =
    times_offered-insert prefix m (sort_modules l)
    ∙ ap (λ k. offered prefix m.routes + k) (times_offered-sort prefix l)

-- The API includes the router of every module that has one, as often as it is there, and nothing
-- else: modules without routes, or whose `router` is not one, are passed over.
pub build_api_router_lem :
    (api_prefix prefix : String) (modules : List ModuleInfo)
    → times prefix (build_api_router api_prefix modules).included ≡ times_offered prefix modules
unfolding build_api_router discover_module_routers
build_api_router_lem api_prefix prefix modules =
    times-routers_of prefix (sort_modules modules) ∙ times_offered-sort prefix modules
