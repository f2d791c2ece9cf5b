-- ===== src/Auth/Families/Parts.antt =====
-- The parts that the functions of src/modules/auth/service.py share leave the refresh tokens sound.
use smartcourse_core.Base.{
  List, String, arith, none, some, ℕ, ◌*◌, ◌+◌, ◌/◌, ◌==◌, ◌≡◌, ◌≤◌, nat_eq, string_eq,
}
use smartcourse_core.Platform.{Platform}
use smartcourse_core.Platform.Orm.{with_tokens}
use smartcourse_core.Platform.Orm.{with_tokens}
use smartcourse_core.Platform.Crypto.{
  Pem, rsa, other_key, unreadable, Verification, matches, mismatch, invalid_hash, other_failure,
}
use smartcourse_core.Platform.Redis.{second}
use smartcourse_core.Config.{SecuritySettings}
use smartcourse_core.Core.Security.{
  create_access_token, load_private_key, verify_password, loaded, verified, access_claims,
}
use smartcourse_core.Users.Model.{User, role_value}
use smartcourse_core.Users.Service.{get_by_email, get_by_id}
use smartcourse_core.Auth.Model.{RefreshToken}
use smartcourse_core.Auth.Service.{TokenPair, in_scope, token_pair, revoke_active_tokens}
use smartcourse_core.Auth.Revoke.{view-after_revoke, revoke_family, revoke_user}
use smartcourse_core.Auth.Families.History.{Grown, Grown-mono, Grown-revoke_where}
use smartcourse_core.Auth.Families.Keeps.{
  Good, Keeps, Safe, Safe-of-Keeps, Keeps-bind, Keeps-query, Keeps-scalar, Keeps-returned,
  Good-drawn,
}
use smartcourse_core.Effects.{World, M, ◌>>=◌, pure, query, scalar_one_or_none}

module _ {P : Platform} {base : List RefreshToken} where
  pub Keeps-get_by_email : (email : String) → Keeps {P = P} base (get_by_email email)
  unfolding get_by_email
  Keeps-get_by_email email =
      Keeps-bind (query (P.select_users (λ u. u.email == email))) scalar_one_or_none
        (Keeps-query (P.select_users (λ u. u.email == email))) Keeps-scalar

  pub Keeps-get_by_id : (i : ℕ) → Keeps {P = P} base (get_by_id i)
  unfolding get_by_id
  Keeps-get_by_id i w g = g

  Keeps-verified : (v : Verification) → Keeps {P = P} base (verified v)
  Keeps-verified matches w g = g
  Keeps-verified mismatch w g = g
  Keeps-verified invalid_hash w g = g
  Keeps-verified other_failure w g = g

  pub Keeps-verify_password :
      (password hashed : String) → Keeps {P = P} base (verify_password password hashed)
  unfolding verify_password
  Keeps-verify_password password hashed = Keeps-verified (P.verify hashed password)

  pub Keeps-loaded : {Key : Type 0} (k : Pem Key) → Keeps {P = P} base (loaded k)
  Keeps-loaded (rsa k) w g = g
  Keeps-loaded other_key w g = g
  Keeps-loaded unreadable w g = g

  Keeps-create_access_token :
      (user_id : ℕ) (role : String) (settings : SecuritySettings)
      → Keeps {P = P} base (create_access_token user_id role settings)
  unfolding create_access_token load_private_key
  Keeps-create_access_token user_id role settings w g =
      Keeps-returned (loaded (P.private_pem settings.jwt_private_key_path))
        (λ k.
          P.encode (access_claims P settings user_id (P.uuid4 w.draws) role (w.clock / second)) k
            settings.jwt_algorithm settings.jwt_kid)
        (Keeps-loaded (P.private_pem settings.jwt_private_key_path))
        (record w { draws = w.draws + 1 }) (Good-drawn w (w.draws + 1) (omega arith) g)

  pub Keeps-token_pair :
      (user : User) (raw : String) (settings : SecuritySettings)
      → Keeps {P = P} base (token_pair user raw settings)
  unfolding token_pair
  Keeps-token_pair user raw settings =
      Keeps-returned (create_access_token user.id (role_value user.role) settings)
        (λ t. record {
          access_token = t;
          refresh_token = raw;
          token_type = "bearer";
          expires_in = settings.access_token_expires_minutes * 60;
        })
        (Keeps-create_access_token user.id (role_value user.role) settings)

module _ {P : Platform} where
  -- The pair after the token is stored.
  abbrev pub answer : User → String → SecuritySettings → M P (User × TokenPair P)
  answer user raw settings = do tokens ← token_pair user raw settings; pure (user, tokens)

module _ {P : Platform} {base : List RefreshToken} where
  pub Safe-answer :
      (user : User) (raw : String) (settings : SecuritySettings)
      → Safe {P = P} base (answer user raw settings)
  Safe-answer user raw settings = Safe-of-Keeps (answer user raw settings) (
      Keeps-returned (token_pair user raw settings) (λ t. (user, t))
        (Keeps-token_pair user raw settings))

  pub Keeps-revoke_family :
      (family : ℕ) → Keeps {P = P} base (revoke_active_tokens (some family) none)
  Keeps-revoke_family family w g =
      rw (revoke_family, view-after_revoke (some family) none w g.0.sound.distinct)
        (
          Grown-revoke_where P w.draws (in_scope (some family) none) w.clock
              (P.view w.session).working.refresh_tokens g.0,
          g.1,
        )

  pub Keeps-revoke_user : (user : ℕ) → Keeps {P = P} base (revoke_active_tokens none (some user))
  Keeps-revoke_user user w g =
      rw (revoke_user, view-after_revoke none (some user) w g.0.sound.distinct)
        (
          Grown-revoke_where P w.draws (in_scope none (some user)) w.clock
              (P.view w.session).working.refresh_tokens g.0,
          g.1,
        )

  -- A session in which the rows are sound, after more draws.
  pub Good-stored :
      (w : World P) (s' : P.Session) (n : ℕ) (rows : List RefreshToken)
      → P.view s' ≡ with_tokens (P.view w.session) rows
      → w.draws ≤ n
      → Grown P base w.draws rows
      → Good base w
      → Good base (record w { session = s'; draws = n })
  Good-stored w s' n rows seen later sound g = rw seen (
    Grown-mono P w.draws n rows later sound,
    Grown-mono P w.draws n (P.view w.session).stored.refresh_tokens later g.1,
  )
