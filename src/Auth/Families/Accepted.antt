-- ===== src/Auth/Families/Accepted.antt =====
-- When `refresh_tokens` of src/modules/auth/service.py returns: a test on the state before it.
use smartcourse_core.Base.{
  Bool, Bool-cases, List, Option, String, [], any, ap, false, inl, inr, is_none, ltb, none, not,
  refl, some, sym, true, ℕ, ◌&&◌, ◌++◌, ◌+◌, ◌==◌, ◌||◌, ◌∙◌, ◌∷◌, ◌≡◌, nat_eq, string_eq,
}
use smartcourse_core.Platform.{Platform}
use smartcourse_core.Platform.Orm.{insert_token}
use smartcourse_core.Platform.Crypto.{Pem, rsa, other_key, unreadable}
use smartcourse_core.Config.{SecuritySettings}
use smartcourse_core.Core.Security.{create_access_token, load_private_key}
use smartcourse_core.Users.Model.{User}
use smartcourse_core.Users.Service.{get_by_id}
use smartcourse_core.Users.Lookups.{user_row}
use smartcourse_core.Auth.Model.{RefreshToken}
use smartcourse_core.Auth.Service.{
  TokenPair, revoked, token_pair, issue_refresh_token, available, refresh_row, refresh_tokens,
  reuse_detected,
}
use smartcourse_core.Auth.Issue.{issued, issue_refresh_token-some}
use smartcourse_core.Auth.Revoke.{revoke_family}
use smartcourse_core.Auth.Refresh.Rotation.{found-has_user}
use smartcourse_core.Auth.Refresh.Replay.{rows_of}
use smartcourse_core.Auth.Families.Insert.{map-eq-none}
use smartcourse_core.Auth.Families.Parts.{answer}
use smartcourse_core.Effects.{
  M, World, Result, ok, err, bind-ok, ◌>>=◌, ◌>>◌, run_sql, scalar_one_or_none,
}

abbrev pub is_ok : {A : Type 0} → Result A → Bool
is_ok (ok a) = true
is_ok (err e) = false

abbrev is_active_user : Option User → Bool
is_active_user none = false
is_active_user (some user) = user.is_active

abbrev loads : {K : Type 0} → Pem K → Bool
loads (rsa k) = true
loads other_key = false
loads unreadable = false

module _ {P : Platform} (settings : SecuritySettings) (w : World P) where
  -- Whether the next draws, a raw token and an id, are those of a row that is there.
  abbrev pub drawn_before : Bool
  drawn_before =
      any
        (λ r.
          r.id == P.uuid4 (w.draws + 1) || r.token_hash == P.sha256_hex (P.token_urlsafe w.draws))
        (P.view w.session).working.refresh_tokens

  -- Whether a token can be exchanged: it is not revoked and has not expired, its user is there and
  -- active, the drawn token is new, and the private key loads.
  abbrev pub row_usable : RefreshToken → Bool
  row_usable row =
      is_none row.revoked_at
      && (not (ltb row.expires_at w.clock)
          && (is_active_user (user_row P row.user_id w)
              && (not drawn_before && loads (P.private_pem settings.jwt_private_key_path))))

  -- Whether the rows of a hash are one row that can be exchanged.
  abbrev pub rows_usable : List RefreshToken → Bool
  rows_usable [] = false
  rows_usable (row ∷ []) = row_usable row
  rows_usable (x ∷ y ∷ rows) = false

module _ {P : Platform} (settings : SecuritySettings) where
  answer-is_ok :
      (user : User) (raw : String) (v : World P) (pem : Pem P.Private)
      → P.private_pem settings.jwt_private_key_path ≡ pem
      → is_ok (answer user raw settings v).0 ≡ loads pem
  unfolding token_pair create_access_token load_private_key
  answer-is_ok user raw v (rsa k) h = simp (h, ◌>>=◌)
  answer-is_ok user raw v other_key h = simp (h, ◌>>=◌)
  answer-is_ok user raw v unreadable h = simp (h, ◌>>=◌)

  issue-refused :
      (user_id family_id : ℕ) (w : World P)
      → insert_token (issued P w user_id family_id settings) (P.view w.session).working ≡ none
      → is_ok (issue_refresh_token user_id family_id settings w).0 ≡ false
  unfolding issue_refresh_token
  issue-refused user_id family_id w h =
      let t = issued P w user_id family_id settings in
      let refused =
        map-eq-none P.view (P.add_token t w.session) (P.add_token_lem t w.session ∙ rw h) in
      simp (◌>>=◌, ◌>>◌, refused)

  after-refused :
      {A B : Type 0} (f : A → M P B) (r : Result A) (w : World P)
      → is_ok r ≡ false
      → is_ok (elim r as (λ _. Result B × World P) [ ok a ↦ f a w | err e ↦ (err e, w) ]).0 ≡ false
  after-refused f (ok a) w h = cc
  after-refused f (err e) w h = refl

  -- The statements after the user was found active.
  abbrev exchange : RefreshToken → World P → User → M P (User × TokenPair P)
  exchange row w user = do
    new_raw ← issue_refresh_token user.id row.family_id settings
    run_sql (P.save_token (revoked w.clock row))
    answer user new_raw settings

  exchange-is_ok :
      (row : RefreshToken) (user : User) (w : World P) (taken : Bool)
      → user_row P row.user_id w ≡ some user
      → drawn_before settings w ≡ taken
      → is_ok (exchange row w user w).0
        ≡ (not taken && loads (P.private_pem settings.jwt_private_key_path))
  exchange-is_ok row user w true known taken =
      let there = found-has_user row.user_id (P.view w.session).working.users known in
      let issue = issue_refresh_token user.id row.family_id settings in
      let refused = issue-refused user.id row.family_id w (rw (there, taken) refl) in
      after-refused
        (λ new_raw. do run_sql (P.save_token (revoked w.clock row)); answer user new_raw settings)
        (issue w).0 (issue w).1 refused
  exchange-is_ok row user w false known taken =
      let there = found-has_user row.user_id (P.view w.session).working.users known in
      let t = issued P w user.id row.family_id settings in
      let db = (P.view w.session).working in
      let inserted : insert_token t db
          ≡ some (record db { refresh_tokens = db.refresh_tokens ++ t ∷ [] }) =
        rw (there, taken) refl in
      let (s', issue, _) =
        issue_refresh_token-some user.id row.family_id settings w
          (record db { refresh_tokens = db.refresh_tokens ++ t ∷ [] }) inserted in
      let v : World P = record w {
        session = P.save_token (revoked w.clock row) s';
        draws = w.draws + 1 + 1;
      } in
      ap (λ r. is_ok r.0)
        (bind-ok (issue_refresh_token user.id row.family_id settings)
          (λ new_raw. do run_sql (P.save_token (revoked w.clock row)); answer user new_raw settings)
          w issue)
      ∙ answer-is_ok user (P.token_urlsafe w.draws) v (P.private_pem settings.jwt_private_key_path)
          refl

  found-is_ok :
      (row : RefreshToken) (found : Option User) (w : World P)
      → user_row P row.user_id w ≡ found
      → is_ok ((available found >>= exchange row w) w).0 ≡ (
          is_active_user found
          && (not (drawn_before settings w) && loads (P.private_pem settings.jwt_private_key_path)))
  found-is_ok row none w known = refl
  found-is_ok row (some user) w known = elim (Bool-cases user.is_active) [
    | inl h ↦ simp h (exchange-is_ok row user w (drawn_before settings w) known refl)
    | inr h ↦ simp h
  ]

  reuse-is_ok :
      (row : RefreshToken) (w : World P)
      → is_ok (reuse_detected {A = User × TokenPair P} row w).0 ≡ false
  reuse-is_ok row w = rw (◌>>◌, ◌>>=◌, revoke_family) refl

  row-is_ok :
      (row : RefreshToken) (w : World P) (revoked_at : Option ℕ)
      → row.revoked_at ≡ revoked_at
      → is_ok (refresh_row (some row) settings w).0 ≡ row_usable settings w row
  unfolding get_by_id
  row-is_ok row w (some t) e = rw e (reuse-is_ok row w)
  row-is_ok row w none e = rw e (elim (Bool-cases (ltb row.expires_at w.clock)) [
    | inl h ↦ rw h refl
    | inr h ↦ rw h (
        found-is_ok row (P.get_user row.user_id w.session) w
          (sym (P.get_user_lem row.user_id w.session))
        ∙ rw P.get_user_lem refl)
  ])

  rows-is_ok :
      (rows : List RefreshToken) (w : World P)
      → is_ok ((scalar_one_or_none rows >>= λ found. refresh_row found settings) w).0
        ≡ rows_usable settings w rows
  rows-is_ok [] w = refl
  rows-is_ok (row ∷ []) w = row-is_ok row w row.revoked_at refl
  rows-is_ok (x ∷ y ∷ rows) w = refl

  pub refresh_tokens-is_ok :
      (raw : String) (w : World P)
      → is_ok (refresh_tokens raw settings w).0 ≡ rows_usable settings w (rows_of P raw w)
  unfolding refresh_tokens
  refresh_tokens-is_ok raw w =
      rows-is_ok (P.select_tokens (λ r. r.token_hash == P.sha256_hex raw) w.session) w
      ∙ rw P.select_tokens_lem refl
