-- ===== src/Auth/Success.antt =====
-- A login that succeeds.
use smartcourse_core.Base.{
  ==-refl, List, String, [], any, arith, filter, none, refl, some, true, ℕ, ◌++◌, ◌+◌, ◌<◌, ◌==◌,
  ◌∙◌, ◌∷◌, ◌≡◌, nat_eq, string_eq,
}
use smartcourse_core.Platform.{Platform}
use smartcourse_core.Platform.Orm.{insert_token}
use smartcourse_core.Platform.Crypto.{rsa, matches}
use smartcourse_core.Config.{SecuritySettings}
use smartcourse_core.Core.Security.{verify_password}
use smartcourse_core.Users.Model.{User}
use smartcourse_core.Users.Lookups.{users_with, get_by_email-some}
use smartcourse_core.Auth.Model.{RefreshToken}
use smartcourse_core.Auth.Service.{
  TokenPair, admitted, failed_login_key, check_credentials, login_as, login, issue_refresh_token,
  token_pair,
}
use smartcourse_core.Auth.Issue.{issued, issued_pair, issue_refresh_token-some, token_pair-ok}
use smartcourse_core.Auth.Refresh.Rotation.{IsNew}
use smartcourse_core.Auth.Login.{failures, login_open}
use smartcourse_core.Effects.{World, ok, pure, bind-ok, ◌>>=◌}

found-has_user :
    (email : String) (l : List User) {u : User} {m : List User}
    → filter (λ v. v.email == email) l ≡ u ∷ m
    → any (λ v. v.id == u.id) l ≡ true
found-has_user email [] h = cc
found-has_user email (v ∷ l) {u} {m} h = ground (arith, found-has_user email l {u = u} {m = m})

admitted-ok : (user : User) → user.is_active ≡ true → admitted (some user) true ≡ some user
admitted-ok user h = ground arith

module _ {P : Platform} (email password : String) (settings : SecuritySettings) (w : World P)
    (user : User) (k : P.Private) where
  -- The world in which the tokens are issued: the failures are forgotten and a family is drawn.
  abbrev issuing : World P
  issuing = record w {
    conn = P.delete w.clock (failed_login_key email) w.conn;
    draws = w.draws + 1;
  }

  abbrev pub first_row : RefreshToken
  first_row = issued P issuing user.id (P.uuid4 w.draws) settings

  abbrev pub first_pair : TokenPair P
  first_pair =
      issued_pair P (record w { draws = w.draws + 1 + 1 + 1 }) user (P.token_urlsafe (w.draws + 1))
        k settings

  credentials_ok :
      users_with P email w ≡ user ∷ []
      → user.is_active ≡ true
      → P.verify user.hashed_password password ≡ matches
      → check_credentials email password settings w ≡ login_as (some user) email settings w
  unfolding verify_password
  credentials_ok there active right =
      let got = get_by_email-some w email user there in
      rw (check_credentials, ◌>>=◌, got, right, admitted-ok user active) (simp (got, right))

  logged_in :
      (s' : P.Session)
      → issue_refresh_token user.id (P.uuid4 w.draws) settings issuing ≡ (
        ok (P.token_urlsafe (w.draws + 1)),
        record issuing { session = s'; draws = w.draws + 1 + 1 + 1 },
      )
      → P.private_pem settings.jwt_private_key_path ≡ rsa k
      → login_as (some user) email settings w
        ≡ (ok (user, first_pair), record issuing { session = s'; draws = w.draws + 1 + 1 + 1 + 1 })
  logged_in s' issue key =
      let after : World P = record issuing { session = s'; draws = w.draws + 1 + 1 + 1 } in
      bind-ok (issue_refresh_token user.id (P.uuid4 w.draws) settings)
        (λ raw. do tokens ← token_pair user raw settings; pure (user, tokens)) issuing issue
      ∙ bind-ok (token_pair user (P.token_urlsafe (w.draws + 1)) settings)
          (λ tokens. pure (user, tokens)) after
          (token_pair-ok user (P.token_urlsafe (w.draws + 1)) settings after k key)

  -- The right password of an active account that is not locked out is answered by a pair of
  -- tokens: one row, of a family of its own, is added to the table, and the failures are forgotten.
  pub login_succeeds :
      (n : ℕ)
      → failures email password w ≡ some n
      → n < settings.failed_login_max_attempts
      → users_with P email w ≡ user ∷ []
      → user.is_active ≡ true
      → P.verify user.hashed_password password ≡ matches
      → P.private_pem settings.jwt_private_key_path ≡ rsa k
      → IsNew first_row (P.view w.session).working
      → let (r, w') = login email password settings w in
        (r ≡ ok (user, first_pair))
        × (P.view w'.session ≡ record (P.view w.session) {
          working = record (P.view w.session).working {
            refresh_tokens = (P.view w.session).working.refresh_tokens ++ first_row ∷ [];
          };
        })
        × (P.entry w'.conn (failed_login_key email) ≡ none)
  login_succeeds n counted few there active right key new =
      let db = (P.view w.session).working in
      let inserted : insert_token first_row db
          ≡ some (record db { refresh_tokens = db.refresh_tokens ++ first_row ∷ [] }) =
        rw (found-has_user email db.users there, new) in
      let (s', issue, seen) =
        issue_refresh_token-some user.id (P.uuid4 w.draws) settings issuing
          (record db { refresh_tokens = db.refresh_tokens ++ first_row ∷ [] }) inserted in
      let done =
        login_open email password settings w n counted few
        ∙ credentials_ok there active right
        ∙ logged_in s' issue key in
      rw done (refl, seen, rw (P.entry-delete, ==-refl (failed_login_key email)) refl)
