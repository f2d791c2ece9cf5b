-- ===== src/Core/Security.antt =====
-- src/core/security.py, over the cryptographic libraries of the platform.
use Prim.Native.String.{◌++◌ as append}
use smartcourse_core.Base.{
  Bool, Option, String, false, if◌then◌else◌, none, some, true, ℕ, ◌*◌, ◌+◌, ◌/◌, ◌==◌, nat_eq,
  string_eq,
}
use smartcourse_core.Platform.{Platform}
use smartcourse_core.Platform.Redis.{second}
use smartcourse_core.Platform.Crypto.{
  Claims, Pem, rsa, other_key, unreadable, Verification, matches, mismatch, invalid_hash,
  other_failure,
}
use smartcourse_core.Config.{SecuritySettings}
use smartcourse_core.Core.Errors.{unexpected}
use smartcourse_core.Effects.{M, ◌>>=◌, pure, raise, now, draw}

abbrev pub access_token_denylist_key : String → String
access_token_denylist_key jti = append "auth:denylist:" jti

-- The claims of a new token at a time in seconds.
abbrev pub access_claims : Platform → SecuritySettings → ℕ → ℕ → String → ℕ → Claims
access_claims P settings user_id jti role t = record {
  sub = P.str_uuid user_id;
  role = some role;
  type = "access";
  jti = P.str_uuid jti;
  iat = t;
  exp = t + settings.access_token_expires_minutes * 60;
}

-- `payload.get("type") != "access"`
abbrev pub checked_type : Option Claims → Option Claims
checked_type none = none
checked_type (some c) = if c.type == "access" then some c else none

module _ {P : Platform} where
  unfoldable pub hash_password : String → M P String
  hash_password password = draw (λ salt. P.hash salt password)

  abbrev pub verified : Verification → M P Bool
  verified matches = pure true
  verified mismatch = pure false
  verified invalid_hash = pure false
  verified other_failure = raise (unexpected "VerificationError")

  unfoldable pub verify_password : String → String → M P Bool
  verify_password password password_hash = verified (P.verify password_hash password)

  abbrev pub loaded : {Key : Type 0} → Pem Key → M P Key
  loaded (rsa k) = pure k
  loaded other_key = raise (unexpected "TypeError")
  loaded unreadable = raise (unexpected "ValueError")

  unfoldable pub load_private_key : String → M P P.Private
  load_private_key path = loaded (P.private_pem path)

  unfoldable pub load_public_key : String → M P P.Public
  load_public_key path = loaded (P.public_pem path)

  unfoldable pub create_access_token : ℕ → String → SecuritySettings → M P P.Token
  unfolding load_private_key
  create_access_token user_id role settings = do
    t ← now
    jti ← draw P.uuid4
    private_key ← load_private_key settings.jwt_private_key_path
    pure (
        P.encode (access_claims P settings user_id jti role (t / second)) private_key
          settings.jwt_algorithm settings.jwt_kid)

  -- none is an InvalidTokenError.
  unfoldable pub decode_access_token : P.Token → SecuritySettings → M P (Option Claims)
  unfolding load_public_key
  decode_access_token token settings = do
    public_key ← load_public_key settings.jwt_public_key_path
    t ← now
    pure (checked_type (P.decode (t / second) token public_key settings.jwt_algorithm))
