-- ===== src/Tests/AuthRuns.antt =====
-- A client registers, logs in, refreshes and replays the old token.
use smartcourse_core.Base.{Bool, [], false, none, refl, true, ◌≡◌}
use smartcourse_core.Platform.Orm.{Database}
use smartcourse_core.Config.{default_security}
use smartcourse_core.Users.Model.{User, student}
use smartcourse_core.Auth.Service.{
  TokenPair, register, login, refresh_tokens, logging_sender, token_pair, issue_refresh_token,
  revoke_active_tokens,
}
use smartcourse_core.Core.Security.{create_access_token, hash_password, verify_password}
use smartcourse_core.Users.Service.{get_by_email, get_by_id, create_user}
use smartcourse_core.Effects.{World, M, Result, ok, err, ◌>>=◌, ◌>>◌}
use smartcourse_core.Tests.Memory.{memory}

abbrev nothing : Database
nothing = record { users = []; refresh_tokens = []; courses = [] }

abbrev start : World memory
start = record {
  session = record { working = nothing; stored = nothing };
  conn = λ k. none;
  clock = 1000000000;
  draws = 1;
  logs = [];
  request_id = none;
}

abbrev enrol : M memory (User × TokenPair memory)
enrol = do
  register "a@x.org" "correcthorse" "Ann" student "1.2.3.4" default_security logging_sender
  login "a@x.org" "correcthorse" default_security

abbrev is_ok : {A : Type 0} → Result A → Bool
is_ok (ok _) = true
is_ok (err _) = false

enrol_ok : is_ok (enrol start).0 ≡ true
unfolding register login get_by_email hash_password create_user verify_password issue_refresh_token
    token_pair create_access_token
enrol_ok = refl

-- The first refresh gives a new pair, the replay of the token is refused, and so is the new one.
abbrev replayed : M memory (User × TokenPair memory)
replayed = do
  pair ← enrol
  refresh_tokens pair.1.refresh_token default_security
  refresh_tokens pair.1.refresh_token default_security

replay_refused : is_ok (replayed start).0 ≡ false
unfolding register login get_by_email hash_password create_user verify_password issue_refresh_token
    token_pair create_access_token refresh_tokens get_by_id revoke_active_tokens
replay_refused = refl
