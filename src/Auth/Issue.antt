-- ===== src/Auth/Issue.antt =====
-- `_issue_refresh_token` and `_token_pair` of src/modules/auth/service.py.
use mathlib.Core.Option
use smartcourse_core.Base.{Option, String, none, refl, some, ℕ, ◌*◌, ◌+◌, ◌/◌, ◌∙◌, ◌≡◌}
use smartcourse_core.Platform.{Platform}
use smartcourse_core.Platform.Redis.{second}
use smartcourse_core.Platform.Orm.{Database, insert_token}
use smartcourse_core.Platform.Crypto.{rsa}
use smartcourse_core.Config.{SecuritySettings}
use smartcourse_core.Core.Security.{access_claims, create_access_token}
use smartcourse_core.Users.Model.{User, role_value}
use smartcourse_core.Auth.Model.{RefreshToken}
use smartcourse_core.Auth.Service.{TokenPair, day, issue_refresh_token, token_pair}
use smartcourse_core.Effects.{World, ok, ◌>>=◌, ◌>>◌}

-- The row that is issued in a world: the raw token is the next draw, the id the one after it.
abbrev pub issued : (P : Platform) → World P → ℕ → ℕ → SecuritySettings → RefreshToken
issued P w user_id family_id settings = record {
  id = P.uuid4 (w.draws + 1);
  user_id = user_id;
  family_id = family_id;
  token_hash = P.sha256_hex (P.token_urlsafe w.draws);
  expires_at = w.clock + settings.refresh_token_expires_days * day;
  revoked_at = none;
  replaced_by_id = none;
  created_at = w.clock;
  updated_at = w.clock;
}

abbrev pub issued_pair :
    (P : Platform) → World P → User → String → P.Private → SecuritySettings → TokenPair P
issued_pair P w user refresh_raw k settings = record {
  access_token =
      P.encode
        (access_claims P settings user.id (P.uuid4 w.draws) (role_value user.role)
          (w.clock / second))
        k settings.jwt_algorithm settings.jwt_kid;
  refresh_token = refresh_raw;
  token_type = "bearer";
  expires_in = settings.access_token_expires_minutes * 60;
}

pub map-eq-some :
    {A B : Type 0} (f : A → B) (o : Option A) {b : B}
    → Option.map f o ≡ some b
    → (a : A) × (o ≡ some a) × (f a ≡ b)
map-eq-some f none h = cc
map-eq-some f (some a) h = (a, refl, cc)

pub add_token-some :
    (P : Platform) (t : RefreshToken) (s : P.Session) (db : Database)
    → insert_token t (P.view s).working ≡ some db
    → (s' : P.Session) × (P.add_token t s ≡ some s')
      × (P.view s' ≡ record (P.view s) { working = db })
add_token-some P t s db h = map-eq-some P.view (P.add_token t s) (P.add_token_lem t s ∙ rw h)

module _ {P : Platform} where
  pub issue_refresh_token-some :
      (user_id family_id : ℕ) (settings : SecuritySettings) (w : World P) (db : Database)
      → insert_token (issued P w user_id family_id settings) (P.view w.session).working ≡ some db
      → (s' : P.Session) × (issue_refresh_token user_id family_id settings w
          ≡ (ok (P.token_urlsafe w.draws), record w { session = s'; draws = w.draws + 1 + 1 }))
        × (P.view s' ≡ record (P.view w.session) { working = db })
  unfolding issue_refresh_token
  issue_refresh_token-some user_id family_id settings w db h =
      let (s', added, seen) =
        add_token-some P (issued P w user_id family_id settings) w.session db h in
      (s', simp (◌>>=◌, ◌>>◌, added), seen)

  pub token_pair-ok :
      (user : User) (refresh_raw : String) (settings : SecuritySettings) (w : World P)
      (k : P.Private)
      → P.private_pem settings.jwt_private_key_path ≡ rsa k
      → token_pair user refresh_raw settings w
        ≡ (ok (issued_pair P w user refresh_raw k settings), record w { draws = w.draws + 1 })
  unfolding token_pair create_access_token
  token_pair-ok user refresh_raw settings w k h = simp (h, ◌>>=◌)
