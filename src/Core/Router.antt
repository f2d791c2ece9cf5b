-- ===== src/Core/Router.antt =====
-- src/core/router.py: the modules that have a router, in the order of their names.
use Prim.Native.Nat.{Ordering}
use Prim.Native.String.{compare as compare_texts}
use smartcourse_core.Base.{List, String, [], ◌∷◌}

-- What `import_module("src.modules.NAME.routes")` and `getattr(…, "router", None)` give: a
-- ModuleNotFoundError, a router, or anything else.
pub data Import : Type 0 where
  not_there : Import
  router : String → Import
  other_attribute : Import

pub record ModuleInfo : Type 0 where
  pub name : String
  pub routes : Import

-- `sorted(…, key=lambda m: m.name)`, a stable sort
abbrev pub insert_module : ModuleInfo → List ModuleInfo → List ModuleInfo
insert_module m [] = m ∷ []
insert_module m (n ∷ l) = elim (compare_texts m.name n.name) [
  | Ordering.gt ↦ n ∷ insert_module m l
  | _ ↦ m ∷ n ∷ l
]

abbrev pub sort_modules : List ModuleInfo → List ModuleInfo
sort_modules [] = []
sort_modules (m ∷ l) = insert_module m (sort_modules l)

abbrev pub routers_of : List ModuleInfo → List String
routers_of [] = []
routers_of (m ∷ l) =
    let rest = routers_of l in
    elim m.routes [ not_there ↦ rest | router prefix ↦ prefix ∷ rest | other_attribute ↦ rest ]

-- `_discover_module_routers`
unfoldable pub discover_module_routers : List ModuleInfo → List String
discover_module_routers modules = routers_of (sort_modules modules)

pub record ApiRouter : Type 0 where
  pub prefix : String
  pub included : List String

unfoldable pub build_api_router : String → List ModuleInfo → ApiRouter
unfolding discover_module_routers
build_api_router api_prefix modules = record {
  prefix = api_prefix;
  included = discover_module_routers modules;
}
