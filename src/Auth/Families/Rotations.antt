-- ===== src/Auth/Families/Rotations.antt =====
-- `refresh_tokens` and `logout` of src/modules/auth/service.py leave the refresh tokens
-- sound.
use smartcourse_core.Base.{
  Bool-cases, List, Option, String, [], arith, filter, inl, inr, ltb, max, none, refl, some, sym, ℕ,
  ◌++◌, ◌+◌, ◌-◌, ◌/◌, ◌==◌, ◌∷◌, ◌≡◌, nat_eq, string_eq,
}
use smartcourse_core.Platform.{Platform}
use smartcourse_core.Platform.Redis.{text, second}
use smartcourse_core.Config.{SecuritySettings}
use smartcourse_core.Core.Errors.{unauthorized}
use smartcourse_core.Core.Security.{access_token_denylist_key}
use smartcourse_core.Users.Model.{User}
use smartcourse_core.Users.Service.{get_by_id}
use smartcourse_core.Auth.Model.{RefreshToken}
use smartcourse_core.Auth.Service.{
  TokenPair, issue_refresh_token, revoke_active_tokens, refresh_tokens, refresh_row, logout,
  revoked, reuse_detected, available, revoke_family_of,
}
use smartcourse_core.Auth.Issue.{issued}
use smartcourse_core.Auth.Refresh.Rotation.{revoke_hash, new_id, replace-snoc}
use smartcourse_core.Auth.Families.Parts.{Safe-answer, answer, Good-stored, Keeps-revoke_family}
use smartcourse_core.Auth.Families.Insert.{Kept-issue}
use smartcourse_core.Auth.Families.History.{Grown-rotate}
use smartcourse_core.Auth.Families.Keeps.{
  Good, Keeps, Kept, Safe, Safe-of-Keeps, Keeps-bind, Keeps-scalar, Keeps-commit,
}
use smartcourse_core.Effects.{
  log, word, World, ◌>>=◌, ◌>>◌, scalar_one_or_none, redis_write, raise_app, run_sql, now,
}

module _ {P : Platform} {base : List RefreshToken} where
  -- `refresh_tokens`, on a token that is active: its successor takes its place in the family.
  Kept-rotation :
      (raw : String) (settings : SecuritySettings) (row : RefreshToken) (w : World P)
      (found : Option User)
      → filter (λ r. r.token_hash == P.sha256_hex raw) (P.view w.session).working.refresh_tokens
        ≡ row ∷ []
      → row.revoked_at ≡ none
      → Good base w
      → Kept base (
          (available found >>= λ user. do
            new_raw ← issue_refresh_token user.id row.family_id settings
            run_sql (P.save_token (revoked w.clock row))
            answer user new_raw settings)
            w)
  Kept-rotation raw settings row w none selected unrevoked g = g.1
  Kept-rotation raw settings row w (some user) selected unrevoked g =
      elim (Bool-cases user.is_active) [
        | inr h ↦ simp h g.1
        | inl h ↦ simp h (
            let t = issued P w user.id row.family_id settings in
            let rows = (P.view w.session).working.refresh_tokens in
            let hash = P.sha256_hex raw in
            Kept-issue
              (λ new_raw. do
                run_sql (P.save_token (revoked w.clock row))
                answer user new_raw settings)
              user.id row.family_id settings w g
              (λ s' added.
                Safe-answer user (P.token_urlsafe w.draws) settings
                  (record w {
                    session = P.save_token (revoked w.clock row) s';
                    draws = w.draws + 1 + 1;
                  })
                  (Good-stored w (P.save_token (revoked w.clock row) s') (w.draws + 1 + 1)
                    (revoke_hash hash w.clock rows ++ t ∷ [])
                    (rw (
                      P.view-save_token,
                      added.2,
                      replace-snoc hash w.clock row t rows g.0.sound.distinct added.1 selected,
                    ))
                    (omega arith)
                    (Grown-rotate P w.draws hash w.clock rows row t g.0 selected unrevoked refl
                      (new_id t rows added.1))
                    g)))
      ]

  Keeps-reuse_detected :
      (A : Type 0) (row : RefreshToken) → Keeps {P = P} base (reuse_detected {A = A} row)
  Keeps-reuse_detected A row =
      Keeps-bind (revoke_active_tokens (some row.family_id) none)
        (λ _. do
          run_sql P.commit
          log "refresh_token_reuse_detected" (
              ("family_id", word (P.str_uuid row.family_id))
              ∷ ("user_id", word (P.str_uuid row.user_id))
              ∷ [])
          raise_app unauthorized "Refresh token has been revoked.")
        (Keeps-revoke_family row.family_id) (λ _. Keeps-commit)

  Kept-refresh_row :
      (raw : String) (settings : SecuritySettings) (row : RefreshToken) (w : World P)
      (revoked_at : Option ℕ)
      → row.revoked_at ≡ revoked_at
      → filter (λ r. r.token_hash == P.sha256_hex raw) (P.view w.session).working.refresh_tokens
        ≡ row ∷ []
      → Good base w
      → Kept base (refresh_row (some row) settings w)
  unfolding get_by_id
  Kept-refresh_row raw settings row w (some t) e selected g = rw e (
      Safe-of-Keeps (reuse_detected {A = User × TokenPair P} row)
        (Keeps-reuse_detected (User × TokenPair P) row) w g)
  Kept-refresh_row raw settings row w none e selected g =
      rw e (elim (Bool-cases (ltb row.expires_at w.clock)) [
        | inl h ↦ simp h g.1
        | inr h ↦
            rw h (Kept-rotation raw settings row w (P.get_user row.user_id w.session) selected e g)
      ])

  Kept-refresh_rows :
      (raw : String) (settings : SecuritySettings) (w : World P) (rows : List RefreshToken)
      → filter (λ r. r.token_hash == P.sha256_hex raw) (P.view w.session).working.refresh_tokens
        ≡ rows
      → Good base w
      → Kept base ((scalar_one_or_none rows >>= λ found. refresh_row found settings) w)
  Kept-refresh_rows raw settings w [] selected g = g.1
  Kept-refresh_rows raw settings w (row ∷ []) selected g =
      Kept-refresh_row raw settings row w row.revoked_at refl selected g
  Kept-refresh_rows raw settings w (x ∷ y ∷ rows) selected g = g.1

  pub Safe-refresh_tokens :
      (raw : String) (settings : SecuritySettings) → Safe {P = P} base (refresh_tokens raw settings)
  unfolding refresh_tokens
  Safe-refresh_tokens raw settings w g =
      Kept-refresh_rows raw settings w
        (P.select_tokens (λ r. r.token_hash == P.sha256_hex raw) w.session)
        (sym (P.select_tokens_lem (λ r. r.token_hash == P.sha256_hex raw) w.session)) g

  Keeps-revoke_family_of :
      (found : Option RefreshToken) → Keeps {P = P} base (revoke_family_of found)
  Keeps-revoke_family_of none w g = g
  Keeps-revoke_family_of (some row) w g = Keeps-revoke_family row.family_id w g

  pub Keeps-logout :
      (raw jti : String) (expires_at : ℕ) → Keeps {P = P} base (logout raw jti expires_at)
  unfolding logout
  Keeps-logout raw jti expires_at w =
      Keeps-bind
        (scalar_one_or_none (P.select_tokens (λ r. r.token_hash == P.sha256_hex raw) w.session))
        (λ found. do
          revoke_family_of found
          t ← now
          let ttl_seconds = max (expires_at - t / second) 1
          redis_write (λ t. P.set t (access_token_denylist_key jti) (text "1") ttl_seconds))
        (Keeps-scalar (P.select_tokens (λ r. r.token_hash == P.sha256_hex raw) w.session))
        (λ found.
          Keeps-bind (revoke_family_of found)
            (λ _. do
              t ← now
              let ttl_seconds = max (expires_at - t / second) 1
              redis_write (λ t. P.set t (access_token_denylist_key jti) (text "1") ttl_seconds))
            (Keeps-revoke_family_of found) (λ _ v h. h))
        w
