-- ===== src/Health/Routes.antt =====
-- src/modules/health/routes.py.
use smartcourse_core.Base.{Bool, List, String, if◌then◌else◌, ℕ}
use smartcourse_core.Config.{Settings}
use smartcourse_core.Core.Handlers.{JsonResponse}
use smartcourse_core.Health.Service.{ServiceStatus, Probes, Cache, check_health}

pub record HealthResponse : Type 0 where
  pub status : String
  pub version : String
  pub services : List (String × ServiceStatus)

pub record VersionResponse : Type 0 where
  pub version : String
  pub build_time : String

abbrev pub health_response :
    Settings → Bool → List (String × ServiceStatus) → JsonResponse HealthResponse
health_response settings healthy services = record {
  status_code = if healthy then 200 else 503;
  content = record {
    status = if healthy then "ok" else "error";
    version = settings.app.git_sha;
    services = services;
  };
}

unfoldable pub health : Settings → ℕ → Probes → Cache → JsonResponse HealthResponse × Cache
unfolding check_health
health settings now probes c =
    let (r, c') = check_health settings.health now probes c in
    (health_response settings r.0 r.1, c')

unfoldable pub version : Settings → VersionResponse
version settings = record { version = settings.app.git_sha; build_time = settings.app.build_time }
