-- ===== src/Health/Service.antt =====
-- src/modules/health/service.py and schemas.py: the checks of the dependencies and their cache.
-- The latency is kept in microseconds, not rounded to milliseconds.
use smartcourse_core.Base.{
  Bool, List, Option, String, [], all, if◌then◌else◌, ltb, none, some, ℕ, ◌-◌, ◌==◌, ◌∷◌, nat_eq,
  string_eq,
}
use smartcourse_core.Config.{HealthSettings}

pub record ServiceStatus : Type 0 where
  pub status : String
  pub latency_us : Option ℕ
  pub detail : Option String

-- How `async with asyncio.timeout(…): await check_fn()` ends: after so long, by a TimeoutError, or
-- by another exception.
pub data Probe : Type 0 where
  returned : ℕ → Probe
  timed_out : Probe
  failed : String → Probe

abbrev pub status_of_probe : Probe → ServiceStatus
status_of_probe (returned elapsed) = record {
  status = "ok";
  latency_us = some elapsed;
  detail = none;
}
status_of_probe timed_out = record {
  status = "error";
  latency_us = none;
  detail = some "timed out";
}
status_of_probe (failed exc) = record { status = "error"; latency_us = none; detail = some exc }

-- `_cache`: the last result of each check and the time when it was begun.
abbrev pub Cache : Type 0
Cache = List (String × (ServiceStatus × ℕ))

abbrev pub cache_get : String → Cache → Option (ServiceStatus × ℕ)
cache_get name [] = none
cache_get name (e ∷ c) = if e.0 == name then some e.1 else cache_get name c

abbrev pub cache_set : String → ServiceStatus × ℕ → Cache → Cache
cache_set name v [] = (name, v) ∷ []
cache_set name v (e ∷ c) = if e.0 == name then (name, v) ∷ c else e ∷ cache_set name v c

-- `cached is not None and (now - cached[1]) < ttl`; the clock is monotonic, so the difference of ℕ
-- is that of the code.
abbrev pub fresh : ℕ → ℕ → Option (ServiceStatus × ℕ) → Option ServiceStatus
fresh now ttl none = none
fresh now ttl (some (s, t)) = if ltb (now - t) ttl then some s else none

abbrev pub stored_probe : String → ℕ → Probe → Cache → ServiceStatus × Cache
stored_probe name now probe c =
    (status_of_probe probe, cache_set name (status_of_probe probe, now) c)

-- `_check_one` at a time of the monotonic clock
unfoldable pub check_one : HealthSettings → ℕ → String → Probe → Cache → ServiceStatus × Cache
check_one settings now name probe c = elim (fresh now settings.cache_ttl_us (cache_get name c)) [
  | some s ↦ (s, c)
  | none ↦ stored_probe name now probe c
]

-- One run of each check of `_CHECKS`, with the results in the order of the names.
unfoldable pub check_all :
    HealthSettings → ℕ → List (String × Probe) → Cache → List (String × ServiceStatus) × Cache
unfolding check_one
check_all settings now [] c = ([], c)
check_all settings now ((name, probe) ∷ l) c =
    let (s, c') = check_one settings now name probe c in
    let (rest, c'') = check_all settings now l c' in ((name, s) ∷ rest, c'')

abbrev pub is_ok : String × ServiceStatus → Bool
is_ok e = e.1.status == "ok"

-- The probes of `_CHECKS`: what each check would give if it is made now.
pub record Probes : Type 0 where
  pub postgres : Probe
  pub mongo : Probe
  pub redis : Probe

abbrev pub checks : Probes → List (String × Probe)
checks p = ("postgres", p.postgres) ∷ ("mongo", p.mongo) ∷ ("redis", p.redis) ∷ []

unfoldable pub check_health :
    HealthSettings → ℕ → Probes → Cache → (Bool × List (String × ServiceStatus)) × Cache
unfolding check_all
check_health settings now probes c =
    let (services, c') = check_all settings now (checks probes) c in
    ((all is_ok services, services), c')
