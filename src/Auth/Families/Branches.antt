-- ===== src/Auth/Families/Branches.antt =====
-- The branches of `refresh_tokens` of src/modules/auth/service.py, before its transaction ends.
use smartcourse_core.Base.{
  Bool-cases, List, Option, String, [], ap, filter, inl, inr, ltb, none, refl, some, sym, ℕ, ◌++◌,
  ◌+◌, ◌==◌, ◌∙◌, ◌∷◌, ◌≡◌, ◌⊎◌, nat_eq, string_eq,
}
use smartcourse_core.Platform.{Platform}
use smartcourse_core.Platform.Crypto.{Pem, rsa, other_key, unreadable}
use smartcourse_core.Config.{SecuritySettings}
use smartcourse_core.Core.Security.{create_access_token, load_private_key}
use smartcourse_core.Users.Model.{User}
use smartcourse_core.Users.Service.{get_by_id}
use smartcourse_core.Auth.Model.{RefreshToken}
use smartcourse_core.Auth.Service.{
  TokenPair, in_scope, revoked, token_pair, issue_refresh_token, available, refresh_row,
  refresh_tokens,
}
use smartcourse_core.Auth.Revoke.{
  revoke_where, after_revoke, view-after_revoke, revoke_family, DistinctIds,
}
use smartcourse_core.Auth.Issue.{issued}
use smartcourse_core.Auth.Refresh.Rotation.{revoke_hash, replace-snoc}
use smartcourse_core.Auth.Families.Insert.{issue_then}
use smartcourse_core.Auth.Families.Parts.{answer}
use smartcourse_core.Effects.{World, Result, ok, err, ◌>>=◌, ◌>>◌, run_sql, scalar_one_or_none}

-- The rows that the session sees and the committed ones.
abbrev pub seen_rows : {P : Platform} → World P → List RefreshToken
seen_rows {P} w = (P.view w.session).working.refresh_tokens

abbrev pub stored_rows : {P : Platform} → World P → List RefreshToken
stored_rows {P} w = (P.view w.session).stored.refresh_tokens

answer-key :
    {P : Platform} (user : User) (raw : String) (settings : SecuritySettings) (v : World P)
    (pem : Pem P.Private)
    → P.private_pem settings.jwt_private_key_path ≡ pem
    → (answer user raw settings v).1.session ≡ v.session
unfolding token_pair create_access_token load_private_key
answer-key user raw settings v (rsa k) h = simp (h, ◌>>=◌)
answer-key user raw settings v other_key h = simp (h, ◌>>=◌)
answer-key user raw settings v unreadable h = simp (h, ◌>>=◌)

module _ {P : Platform} (raw : String) (settings : SecuritySettings) (w : World P) where
  abbrev pub hash : String
  hash = P.sha256_hex raw

  abbrev seen_hash : List RefreshToken
  seen_hash = filter (λ r. r.token_hash == hash) (seen_rows w)

  -- Why nothing changes where a refresh raises: the token is not known, or it is active, or more
  -- than one row has its hash.
  abbrev pub Cause : Type 0
  Cause =
      (seen_hash ≡ [])
      ⊎ ((row : RefreshToken) × (seen_hash ≡ row ∷ []) × (row.revoked_at ≡ none))
      ⊎ ((x : RefreshToken) × (y : RefreshToken) × (l : List RefreshToken) × (seen_hash
            ≡ x ∷ y ∷ l))

  -- How a refresh can end, before its transaction ends.
  abbrev pub Ends : Result (User × TokenPair P) × World P → Type 0
  Ends (ok a, v) =
      (row : RefreshToken) × (t : RefreshToken) × (filter (λ r. r.token_hash == hash) (seen_rows w)
        ≡ row ∷ [])
      × (row.revoked_at ≡ none)
      × (t.family_id ≡ row.family_id)
      × (t.revoked_at ≡ none)
      × (seen_rows v ≡ revoke_hash hash w.clock (seen_rows w) ++ t ∷ [])
  Ends (err e, v) =
      ((stored_rows v ≡ stored_rows w) × Cause)
      ⊎ ((row : RefreshToken) × (t : ℕ) × (filter (λ r. r.token_hash == hash) (seen_rows w)
            ≡ row ∷ [])
          × (row.revoked_at ≡ some t)
          × (stored_rows v
              ≡ revoke_where (in_scope (some row.family_id) none) w.clock (seen_rows w)))

  Ends-rotated :
      (r : Result (User × TokenPair P)) (v : World P) (s : P.Session) (row t : RefreshToken)
      → v.session ≡ s
      → filter (λ x. x.token_hash == hash) (seen_rows w) ≡ row ∷ []
      → row.revoked_at ≡ none
      → t.family_id ≡ row.family_id
      → t.revoked_at ≡ none
      → (P.view s).working.refresh_tokens ≡ revoke_hash hash w.clock (seen_rows w) ++ t ∷ []
      → (P.view s).stored.refresh_tokens ≡ stored_rows w
      → Ends (r, v)
  Ends-rotated (ok a) v s row t kept found unrevoked same fresh seen stored =
      (row, t, found, unrevoked, same, fresh, rw kept seen)
  Ends-rotated (err e) v s row t kept found unrevoked same fresh seen stored =
      inl (rw kept stored, inr (inl (row, found, unrevoked)))

  Ends-rotation :
      (row : RefreshToken) (found : Option User)
      → filter (λ r. r.token_hash == hash) (seen_rows w) ≡ row ∷ []
      → row.revoked_at ≡ none
      → DistinctIds (seen_rows w)
      → Ends (
          (available found >>= λ user. do
            new_raw ← issue_refresh_token user.id row.family_id settings
            run_sql (P.save_token (revoked w.clock row))
            answer user new_raw settings)
            w)
  Ends-rotation row none selected unrevoked distinct =
      inl (refl, inr (inl (row, selected, unrevoked)))
  Ends-rotation row (some user) selected unrevoked distinct = elim (Bool-cases user.is_active) [
    | inr h ↦ simp h (inl (refl, inr (inl (row, selected, unrevoked))))
    | inl h ↦ simp h (
        let t = issued P w user.id row.family_id settings in
        issue_then Ends
          (λ new_raw. do run_sql (P.save_token (revoked w.clock row)); answer user new_raw settings)
          user.id row.family_id settings w (inl (refl, inr (inl (row, selected, unrevoked))))
          (λ s' added.
            let v : World P = record w {
              session = P.save_token (revoked w.clock row) s';
              draws = w.draws + 1 + 1;
            } in
            let run = answer user (P.token_urlsafe w.draws) settings v in
            let kept =
              answer-key user (P.token_urlsafe w.draws) settings v
                (P.private_pem settings.jwt_private_key_path) refl in
            Ends-rotated run.0 run.1 v.session row t kept selected unrevoked refl refl
              (rw (P.view-save_token, added.2)
                (replace-snoc hash w.clock row t (seen_rows w) distinct added.1 selected))
              (rw (P.view-save_token, added.2) refl)))
  ]

  Ends-refresh_row :
      (row : RefreshToken) (revoked_at : Option ℕ)
      → row.revoked_at ≡ revoked_at
      → filter (λ r. r.token_hash == hash) (seen_rows w) ≡ row ∷ []
      → DistinctIds (seen_rows w)
      → Ends (refresh_row (some row) settings w)
  unfolding get_by_id
  Ends-refresh_row row (some t) e selected distinct =
      let burnt = after_revoke (some row.family_id) none w in
      rw e (
        rw (◌>>◌, ◌>>=◌, revoke_family)
          (inr (
            row,
            t,
            selected,
            e,
            rw revoke_family (
                ap (λ x. x.stored.refresh_tokens) (P.view-commit burnt)
                ∙ ap (λ x. x.working.refresh_tokens)
                    (view-after_revoke (some row.family_id) none w distinct)),
          )))
  Ends-refresh_row row none e selected distinct =
      rw e (elim (Bool-cases (ltb row.expires_at w.clock)) [
        | inl h ↦ rw h (inl (refl, inr (inl (row, selected, e))))
        | inr h ↦ rw h (Ends-rotation row (P.get_user row.user_id w.session) selected e distinct)
      ])

  Ends-refresh_rows :
      (rows : List RefreshToken)
      → filter (λ r. r.token_hash == hash) (seen_rows w) ≡ rows
      → DistinctIds (seen_rows w)
      → Ends ((scalar_one_or_none rows >>= λ found. refresh_row found settings) w)
  Ends-refresh_rows [] selected distinct = inl (refl, inl selected)
  Ends-refresh_rows (row ∷ []) selected distinct =
      Ends-refresh_row row row.revoked_at refl selected distinct
  Ends-refresh_rows (x ∷ y ∷ rows) selected distinct = inl (refl, inr (inr (x, y, rows, selected)))

  pub Ends-refresh_tokens : DistinctIds (seen_rows w) → Ends (refresh_tokens raw settings w)
  unfolding refresh_tokens
  Ends-refresh_tokens distinct =
      Ends-refresh_rows (P.select_tokens (λ r. r.token_hash == hash) w.session)
        (sym (P.select_tokens_lem (λ r. r.token_hash == hash) w.session)) distinct
