-- ===== src/Core/Access.antt =====
-- The access tokens that src/core/security.py makes, before src/core/dependencies.py.
use smartcourse_core.Base.{
  String, arith, if◌then◌else◌, inl, inr, le→ltb, lt-or-≤, ltb, lt→ltb, none, refl, some, true, ℕ,
  ◌+◌, ◌/◌, ◌<◌, ◌≡◌, ◌≤◌,
}
use smartcourse_core.Platform.{Platform}
use smartcourse_core.Platform.Redis.{second, live}
use smartcourse_core.Platform.Crypto.{Claims, rsa}
use smartcourse_core.Config.{SecuritySettings}
use smartcourse_core.Core.Errors.{Exception, app, init_error, unauthorized}
use smartcourse_core.Core.Security.{
  access_claims, access_token_denylist_key, create_access_token, decode_access_token,
  load_private_key, load_public_key,
}
use smartcourse_core.Core.Dependencies.{get_current_user}
use smartcourse_core.Effects.{World, ok, err, ◌>>=◌, ◌>>◌}

abbrev pub refusal : String → Exception
refusal message = app (init_error unauthorized (some message) none)

-- The seconds of an earlier time.
seconds-≤ : (a b : ℕ) → a ≤ b → a / second ≤ b / second
seconds-≤ a b h = omega arith

module _ {P : Platform} (settings : SecuritySettings) (c : Claims) (k : P.Private)
    (later : World P) where
  abbrev pub signed : P.Token
  signed = P.encode c k settings.jwt_algorithm settings.jwt_kid

  -- A token that is still valid decodes to its claims, one that has expired to nothing.
  decode_valid :
      P.public_pem settings.jwt_public_key_path ≡ rsa (P.public_of k)
      → c.type ≡ "access"
      → c.iat ≤ later.clock / second
      → later.clock / second < c.exp
      → decode_access_token signed settings later ≡ (ok (some c), later)
  unfolding decode_access_token load_public_key
  decode_valid key access issued valid =
      let decoded =
        P.decode-encode (later.clock / second) c k settings.jwt_algorithm settings.jwt_kid issued
          valid in
      simp (key, decoded, access, ◌>>=◌)

  decode_late :
      P.public_pem settings.jwt_public_key_path ≡ rsa (P.public_of k)
      → c.exp ≤ later.clock / second
      → decode_access_token signed settings later ≡ (ok none, later)
  unfolding decode_access_token load_public_key
  decode_late key late =
      let decoded =
        P.decode_expired (later.clock / second) c k settings.jwt_algorithm settings.jwt_kid late in
      simp (key, decoded, ◌>>=◌)

  pub expired_refused :
      P.public_pem settings.jwt_public_key_path ≡ rsa (P.public_of k)
      → c.exp ≤ later.clock / second
      → get_current_user (some signed) settings later
        ≡ (err (refusal "Invalid or expired token"), later)
  unfolding get_current_user
  expired_refused key late = simp (decode_late key late, ◌>>=◌)

  pub denied_refused :
      P.public_pem settings.jwt_public_key_path ≡ rsa (P.public_of k)
      → c.type ≡ "access"
      → c.iat ≤ later.clock / second
      → later.clock / second < c.exp
      → P.exists later.clock (access_token_denylist_key c.jti) later.conn ≡ true
      → get_current_user (some signed) settings later
        ≡ (err (refusal "Token has been revoked"), later)
  unfolding get_current_user
  denied_refused key access issued valid denied =
      simp (decode_valid key access issued valid, denied, ◌>>=◌, ◌>>◌)

  valid_accepted :
      (user_id : ℕ) (role : String)
      → P.public_pem settings.jwt_public_key_path ≡ rsa (P.public_of k)
      → c.type ≡ "access"
      → c.iat ≤ later.clock / second
      → later.clock / second < c.exp
      → live later.clock (P.entry later.conn (access_token_denylist_key c.jti)) ≡ none
      → P.parse_uuid c.sub ≡ some user_id
      → c.role ≡ some role
      → get_current_user (some signed) settings later
        ≡ (ok (record { id = user_id; role = role; jti = c.jti; expires_at = c.exp }), later)
  unfolding get_current_user
  valid_accepted user_id role key access issued valid free sub has_role =
      simp (decode_valid key access issued valid, P.exists_lem, free, sub, has_role, ◌>>=◌, ◌>>◌)

module _ {P : Platform} (user_id : ℕ) (role : String) (settings : SecuritySettings) (w : World P)
    (k : P.Private) (later : World P) where
  abbrev pub claims : Claims
  claims = access_claims P settings user_id (P.uuid4 w.draws) role (w.clock / second)

  -- The token that is made for a user admits that user, with that role, to every request before
  -- it expires, unless its id is on the denylist; after that it is refused.
  pub token_admits_its_user :
      P.private_pem settings.jwt_private_key_path ≡ rsa k
      → P.public_pem settings.jwt_public_key_path ≡ rsa (P.public_of k)
      → w.clock ≤ later.clock
      → live later.clock
          (P.entry later.conn (access_token_denylist_key (P.str_uuid (P.uuid4 w.draws))))
        ≡ none
      → (create_access_token user_id role settings w
          ≡ (ok (signed settings claims k later), record w { draws = w.draws + 1 }))
        × (get_current_user (some (signed settings claims k later)) settings later ≡ (
          (if ltb (later.clock / second) claims.exp
              then ok
                  (record { id = user_id; role = role; jti = claims.jti; expires_at = claims.exp })
              else err (refusal "Invalid or expired token")),
          later,
        ))
  unfolding create_access_token load_private_key
  token_admits_its_user private public after free = (
    simp (private, ◌>>=◌),
    elim (lt-or-≤ (later.clock / second) claims.exp) [
      | inl valid ↦ rw (lt→ltb (later.clock / second) claims.exp valid) (
          valid_accepted settings claims k later user_id role public refl
            (seconds-≤ w.clock later.clock after) valid free (P.parse_uuid-str_uuid user_id) refl)
      | inr late ↦
          rw (le→ltb (later.clock / second) claims.exp late)
            (expired_refused settings claims k later public late)
    ],
  )
