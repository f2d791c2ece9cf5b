-- ===== src/Auth/Refresh/Race.antt =====
-- Two requests of `refresh_tokens` with the same token: the select of the row takes no lock, so that
-- both may have read the active row before one of them commits.
use smartcourse_core.Base.{
  List, String, [], any, ap, arith, false, filter, nat_beq_iff, none, refl, some, true, ℕ, ◌++◌,
  ◌+◌, ◌==◌, ◌∙◌, ◌∷◌, ◌≡◌, ◌≤◌, nat_eq, string_eq,
}
use smartcourse_core.Platform.{Platform}
use smartcourse_core.Platform.Orm.{Database, insert_token, replace_token}
use smartcourse_core.Platform.Crypto.{rsa}
use smartcourse_core.Config.{SecuritySettings}
use smartcourse_core.Users.Model.{User}
use smartcourse_core.Users.Lookups.{user_row}
use smartcourse_core.Auth.Model.{RefreshToken}
use smartcourse_core.Auth.Service.{revoked, refresh_row, rotate}
use smartcourse_core.Auth.Issue.{issued, issue_refresh_token-some}
use smartcourse_core.Auth.Families.Active.{active, active-snoc, one_active}
use smartcourse_core.Auth.Refresh.Replay.{rows_of}
use smartcourse_core.Auth.Refresh.Rotation.{
  new_id, IsNew, found-has_user, rotate_session, rotated_pair,
}
use smartcourse_core.Db.Postgres.{in_transaction}
use smartcourse_core.Db.Transactions.{in_transaction-ok}
use smartcourse_core.Effects.{World, ok}

-- A row with a new id has another id than a row that is there.
other_id :
    (t row : RefreshToken) (h : String) (l : List RefreshToken) {m : List RefreshToken}
    → any (λ r. r.id == t.id) l ≡ false
    → filter (λ r. r.token_hash == h) l ≡ row ∷ m
    → (t.id == row.id) ≡ false
other_id t row h [] new found = cc
other_id t row h (x ∷ l) {m} new found =
    ground (arith, nat_beq_iff x.id t.id, nat_beq_iff t.id row.id, other_id t row h l {m = m})

-- An id that is new beside an updated table, longer by a row, is new beside the table.
new_before :
    (t u last : RefreshToken) (now : ℕ) (l : List RefreshToken)
    → any (λ r. r.id == t.id) (replace_token (revoked now u) (l ++ last ∷ [])) ≡ false
    → any (λ r. r.id == t.id) l ≡ false
new_before t u last now [] new = refl
new_before t u last now (x ∷ l) new =
    ground (arith, nat_beq_iff x.id u.id, new_before t u last now l)

replace_token-snoc :
    (u t : RefreshToken) (l : List RefreshToken)
    → (t.id == u.id) ≡ false
    → replace_token u (l ++ t ∷ []) ≡ replace_token u l ++ t ∷ []
replace_token-snoc u t [] other = rw other
replace_token-snoc u t (x ∷ l) other = rw (replace_token-snoc u t l other)

-- The two new rows of the family are active, whatever the updates do to the others.
both_active :
    (row t u : RefreshToken) (now : ℕ) (l : List RefreshToken)
    → t.family_id ≡ row.family_id
    → u.family_id ≡ row.family_id
    → t.revoked_at ≡ none
    → u.revoked_at ≡ none
    → (t.id == row.id) ≡ false
    → (u.id == row.id) ≡ false
    → 2
      ≤ active row.family_id (
          replace_token (revoked now row) (replace_token (revoked now row) (l ++ t ∷ []) ++ u ∷ []))
both_active row t u now l tf uf ta ua other_t other_u =
    let r = revoked now row in
    let one : one_active row.family_id t ≡ 1 =
      ground (arith, nat_beq_iff t.family_id row.family_id) in
    let two : one_active row.family_id u ≡ 1 =
      ground (arith, nat_beq_iff u.family_id row.family_id) in
    rw
      (
        replace_token-snoc r t l other_t,
        replace_token-snoc r u (replace_token r l ++ t ∷ []) other_u,
        replace_token-snoc r t (replace_token r l) other_t,
      )
      (omega (
        arith,
        active-snoc row.family_id (replace_token r (replace_token r l) ++ t ∷ []) u,
        active-snoc row.family_id (replace_token r (replace_token r l)) t,
        one,
        two,
      ))

module _ {P : Platform} (raw : String) (settings : SecuritySettings) (row : RefreshToken)
    (user : User) (k : P.Private) where
  -- What is committed when a request that has read `row` goes on.
  abbrev after_stale : World P → Database
  after_stale w =
      let db = (P.view w.session).working in
      record db {
        refresh_tokens =
            replace_token (revoked w.clock row)
              (db.refresh_tokens ++ issued P w user.id row.family_id settings ∷ []);
      }

  refresh_active :
      (w : World P)
      → row.revoked_at ≡ none
      → refresh_row (some row) settings w ≡ rotate row settings w
  refresh_active w unrevoked = simp unrevoked

  stale_commits :
      (w : World P)
      → row.revoked_at ≡ none
      → w.clock ≤ row.expires_at
      → user_row P row.user_id w ≡ some user
      → user.is_active ≡ true
      → P.private_pem settings.jwt_private_key_path ≡ rsa k
      → IsNew (issued P w user.id row.family_id settings) (P.view w.session).working
      → (s' : P.Session) × (in_transaction (refresh_row (some row) settings) w ≡ (
        ok (user, rotated_pair raw settings w row user k),
        record w { session = s'; draws = w.draws + 1 + 1 + 1 },
      ))
        × (P.view s' ≡ record { working = after_stale w; stored = after_stale w })
  stale_commits w unrevoked early known usable key new =
      let db = (P.view w.session).working in
      let t = issued P w user.id row.family_id settings in
      let inserted : insert_token t db
          ≡ some (record db { refresh_tokens = db.refresh_tokens ++ t ∷ [] }) =
        rw (found-has_user row.user_id db.users known, new) in
      let (s', issue, seen) =
        issue_refresh_token-some user.id row.family_id settings w
          (record db { refresh_tokens = db.refresh_tokens ++ t ∷ [] }) inserted in
      let taken =
        refresh_active w unrevoked
        ∙ rotate_session raw settings w row user k s' early known usable key issue in
      (
        P.commit (P.save_token (revoked w.clock row) s'),
        in_transaction-ok (refresh_row (some row) settings) w
              (user, rotated_pair raw settings w row user k) (ap (λ x. x.0) taken)
            ∙ rw taken,
        rw (P.view-commit, P.view-save_token, seen),
      )

  -- Two requests that both read the active row of one token before either of them commits are both
  -- answered with a new pair, and the family is left with two active tokens, provided that the
  -- token has not expired, its user is active, the key loads and the new rows are new. The second
  -- use of the token is not noticed.
  pub stale_refresh_forks :
      (w : World P)
      → rows_of P raw w ≡ row ∷ []
      → row.revoked_at ≡ none
      → w.clock ≤ row.expires_at
      → user_row P row.user_id w ≡ some user
      → user.is_active ≡ true
      → P.private_pem settings.jwt_private_key_path ≡ rsa k
      → let (first, v) = in_transaction (refresh_row (some row) settings) w in
        let (second, u) = in_transaction (refresh_row (some row) settings) v in
        IsNew (issued P w user.id row.family_id settings) (P.view w.session).working
        → IsNew (issued P v user.id row.family_id settings) (P.view v.session).working
        → (first ≡ ok (user, rotated_pair raw settings w row user k))
          × (second ≡ ok (user, rotated_pair raw settings v row user k))
          × (2 ≤ active row.family_id (P.view u.session).stored.refresh_tokens)
  stale_refresh_forks w found unrevoked early known usable key new again =
      let (s1, run, seen) = stale_commits w unrevoked early known usable key new in
      let v : World P = record w { session = s1; draws = w.draws + 1 + 1 + 1 } in
      let again_v : IsNew (issued P v user.id row.family_id settings) (P.view s1).working =
        rw run at again in
      let (s2, rerun, seen_again) =
        stale_commits v unrevoked early (rw seen known) usable key again_v in
      let t = issued P w user.id row.family_id settings in
      let u = issued P v user.id row.family_id settings in
      let rows = (P.view w.session).working.refresh_tokens in
      let hash = P.sha256_hex raw in
      let other_t = other_id t row hash rows (new_id t rows new) found in
      let late : any (λ r. r.id == u.id) (replace_token (revoked w.clock row) (rows ++ t ∷ []))
          ≡ false =
        new_id u (replace_token (revoked w.clock row) (rows ++ t ∷ [])) (rw seen at again_v) in
      let other_u = other_id u row hash rows (new_before u row t w.clock rows late) found in
      rw (run, rerun, seen_again, seen)
        (refl, refl, both_active row t u w.clock rows refl refl refl refl other_t other_u)
