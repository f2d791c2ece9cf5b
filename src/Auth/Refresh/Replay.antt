-- ===== src/Auth/Refresh/Replay.antt =====
-- A refresh token that was revoked before is presented again.
use smartcourse_core.Base.{
  List, String, [], filter, none, refl, some, ℕ, ◌==◌, ◌∷◌, ◌≡◌, nat_eq, string_eq,
}
use smartcourse_core.Platform.{Platform}
use smartcourse_core.Platform.Orm.{Database}
use smartcourse_core.Config.{SecuritySettings}
use smartcourse_core.Core.Errors.{Exception, app, init_error, unauthorized}
use smartcourse_core.Auth.Model.{RefreshToken}
use smartcourse_core.Auth.Service.{in_scope, refresh_tokens}
use smartcourse_core.Auth.Revoke.{
  DistinctIds, revoke_where, after_revoke, view-after_revoke, revoke_family,
}
use smartcourse_core.Db.Postgres.{in_transaction}
use smartcourse_core.Db.Transactions.{in_transaction-err}
use smartcourse_core.Effects.{World, err, ◌>>=◌, ◌>>◌}

-- The rows of the hash of a raw token.
abbrev pub rows_of : (P : Platform) → String → World P → List RefreshToken
rows_of P raw w =
    filter (λ r. r.token_hash == P.sha256_hex raw) (P.view w.session).working.refresh_tokens

abbrev pub unauthorized_error : String → Exception
unauthorized_error message = app (init_error unauthorized (some message) none)

module _ {P : Platform} (raw : String) (settings : SecuritySettings) (w : World P) where
  refresh_revoked :
      (row : RefreshToken) (t : ℕ)
      → rows_of P raw w ≡ row ∷ []
      → row.revoked_at ≡ some t
      → let burnt = after_revoke (some row.family_id) none w in
        ((refresh_tokens raw settings w).0
          ≡ err (unauthorized_error "Refresh token has been revoked."))
        × ((refresh_tokens raw settings w).1.session ≡ P.commit burnt)
  unfolding refresh_tokens
  refresh_revoked row t found e =
      simp (P.select_tokens_lem, found, e)
        (rw (◌>>◌, ◌>>=◌, revoke_family) (refl, rw (revoke_family, P.select_tokens_lem)))

  -- A token that was revoked before is refused, and every active token of its family is revoked in
  -- the committed rows too: the rollback that the error causes does not undo it.
  pub replay_burns_family :
      (row : RefreshToken) (t : ℕ)
      → rows_of P raw w ≡ row ∷ []
      → row.revoked_at ≡ some t
      → DistinctIds (P.view w.session).working.refresh_tokens
      → let db = (P.view w.session).working in
        let burnt : Database = record db {
          refresh_tokens =
              revoke_where (in_scope (some row.family_id) none) w.clock db.refresh_tokens;
        } in
        ((in_transaction (refresh_tokens raw settings) w).0
          ≡ err (unauthorized_error "Refresh token has been revoked."))
        × (P.view (in_transaction (refresh_tokens raw settings) w).1.session
            ≡ record { working = burnt; stored = burnt })
  replay_burns_family row t found e distinct =
      let (refused, after) = refresh_revoked row t found e in
      let burnt = view-after_revoke (some row.family_id) none w distinct in
      rw (in_transaction-err (refresh_tokens raw settings) w _ refused)
        (refl, rw (P.view-rollback, after, P.view-commit, burnt))
