-- ===== src/Core/Dependencies.antt =====
-- src/core/dependencies.py: the user of a bearer token, and the check of its role.
use Prim.Native.String.{◌++◌ as append}
use smartcourse_core.Base.{
  List, Option, String, [], any, none, not, some, ℕ, ◌==◌, ◌∷◌, nat_eq, string_eq,
}
use smartcourse_core.Platform.{Platform}
use smartcourse_core.Platform.Crypto.{Claims}
use smartcourse_core.Config.{SecuritySettings}
use smartcourse_core.Core.Errors.{unexpected, unauthorized, forbidden}
use smartcourse_core.Core.Security.{access_token_denylist_key, decode_access_token}
use smartcourse_core.Effects.{M, ◌>>=◌, ◌>>◌, pure, raise_app, raise_if, or_raise, redis_read}

pub record CurrentUser : Type 0 where
  pub id : ℕ
  pub role : String
  pub jti : String
  pub expires_at : ℕ

-- `', '.join(roles)`
abbrev pub join : List String → String
join [] = ""
join (r ∷ []) = r
join (r ∷ s ∷ l) = append r (append ", " (join (s ∷ l)))

module _ {P : Platform} where
  -- What is read off the claims; `role` is not among the claims that a token must have.
  abbrev pub user_of_claims : Claims → M P CurrentUser
  user_of_claims c = do
    user_id ← or_raise (P.parse_uuid c.sub) (unexpected "ValueError")
    role ← or_raise c.role (unexpected "KeyError")
    pure (record { id = user_id; role = role; jti = c.jti; expires_at = c.exp })

  abbrev pub accept_claims : Option Claims → M P CurrentUser
  accept_claims none = raise_app unauthorized "Invalid or expired token"
  accept_claims (some c) = do
    denied ← redis_read (λ t. P.exists t (access_token_denylist_key c.jti))
    raise_if denied unauthorized "Token has been revoked"
    user_of_claims c

  unfoldable pub get_current_user : Option P.Token → SecuritySettings → M P CurrentUser
  get_current_user none settings = raise_app unauthorized "Missing bearer token"
  get_current_user (some token) settings = do
    claims ← decode_access_token token settings
    accept_claims claims

  unfoldable pub require_roles : List String → CurrentUser → M P CurrentUser
  require_roles roles current_user = do
    raise_if (not (any (λ r. current_user.role == r) roles)) forbidden
        (append "Requires one of roles: " (join roles))
    pure current_user
