-- ===== src/Health/Answers.antt =====
-- The answers of the health route, and the cache behind them.
use smartcourse_core.Base.{
  Bool, String, [], ap, false, if◌then◌else◌, lt→ltb, refl, some, true, ℕ, ◌&&◌, ◌-◌, ◌<◌, ◌==◌,
  ◌∷◌, ◌≡◌, nat_eq, string_eq,
}
use smartcourse_core.Config.{HealthSettings, Settings}
use smartcourse_core.Health.Service.{
  Probe, returned, timed_out, failed, Probes, Cache, status_of_probe, check_one, check_all,
  check_health, cache_get, ServiceStatus,
}
use smartcourse_core.Health.Routes.{health}

abbrev pub is_returned : Probe → Bool
is_returned (returned elapsed) = true
is_returned timed_out = false
is_returned (failed exc) = false

-- Whether every dependency answers.
abbrev pub all_returned : Probes → Bool
all_returned p = is_returned p.postgres && (is_returned p.mongo && is_returned p.redis)

probe_ok : (p : Probe) → ((status_of_probe p).status == "ok") ≡ is_returned p
probe_ok (returned elapsed) = refl
probe_ok timed_out = refl
probe_ok (failed exc) = refl

&&-true : (b : Bool) → (b && true) ≡ b
&&-true true = refl
&&-true false = refl

three_ok :
    (a b c : Probe)
    → ((status_of_probe a).status == "ok"
        && ((status_of_probe b).status == "ok" && ((status_of_probe c).status == "ok" && true)))
      ≡ (is_returned a && (is_returned b && is_returned c))
three_ok a b c = rw (probe_ok a, probe_ok b, probe_ok c, &&-true) refl

-- A result in the cache that is not too old is given again.
check_one_cached :
    (settings : HealthSettings) (t later : ℕ) (name : String) (probe : Probe) (s : ServiceStatus)
    (c : Cache)
    → later - t < settings.cache_ttl_us
    → cache_get name c ≡ some (s, t)
    → check_one settings later name probe c ≡ (s, c)
unfolding check_one
check_one_cached settings t later name probe s c soon there =
    let still = lt→ltb (later - t) settings.cache_ttl_us soon in rw (check_one, there, still) refl

module _ (settings : Settings) where
  -- With nothing in the cache the route answers 200 and "ok" if each of the three checks returns,
  -- and 503 and "error" if one of them times out or fails.
  pub health_fresh :
      (now : ℕ) (probes : Probes)
      → let r = (health settings now probes []).0 in
        (r.status_code ≡ (if all_returned probes then 200 else 503))
        × (r.content.status ≡ (if all_returned probes then "ok" else "error"))
  unfolding health check_health check_all check_one
  health_fresh now probes =
      let e = three_ok probes.postgres probes.mongo probes.redis in
      (ap (λ b. if b then 200 else 503) e, ap (λ b. if b then "ok" else "error") e)

  -- Within the time to live of the cache the route repeats its answer, whatever the dependencies
  -- would say by then, and leaves the cache as it was.
  pub health_cached :
      (now later : ℕ) (probes others : Probes)
      → later - now < settings.health.cache_ttl_us
      → health settings later others (health settings now probes []).1
        ≡ health settings now probes []
  unfolding health check_health check_all check_one
  health_cached now later probes others soon =
      let cache : Cache =
        ("postgres", (status_of_probe probes.postgres, now))
        ∷ ("mongo", (status_of_probe probes.mongo, now))
        ∷ ("redis", (status_of_probe probes.redis, now))
        ∷ [] in
      let again : (name : String) (probe : Probe) (s : ServiceStatus)
          → cache_get name cache ≡ some (s, now)
          → check_one settings.health later name probe cache ≡ (s, cache) =
        λ name probe s there.
          check_one_cached settings.health now later name probe s cache soon there in
      rw
        (
          health,
          check_health,
          again "postgres" others.postgres (status_of_probe probes.postgres) refl,
          again "mongo" others.mongo (status_of_probe probes.mongo) refl,
          again "redis" others.redis (status_of_probe probes.redis) refl,
        )
        refl
