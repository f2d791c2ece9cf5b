-- ===== src/Auth/Refresh/Rotation.antt =====
-- A refresh token that is active is rotated.
use smartcourse_core.Base.{
  List, String, [], any, ap, arith, eq_iff, false, filter, head?, if◌then◌else◌, le→ltb, map, none,
  refl, some, true, ℕ, ◌++◌, ◌+◌, ◌==◌, ◌||◌, ◌∙◌, ◌∷◌, ◌≡◌, ◌≤◌, nat_eq, string_eq,
}
use smartcourse_core.Base.Rows.{Unique, Unique-snoc, save_rows-filter}
use smartcourse_core.Platform.{Platform}
use smartcourse_core.Platform.Orm.{Database, insert_token, replace_token}
use smartcourse_core.Platform.Crypto.{rsa}
use smartcourse_core.Config.{SecuritySettings}
use smartcourse_core.Users.Model.{User}
use smartcourse_core.Users.Lookups.{user_row}
use smartcourse_core.Users.Service.{get_by_id}
use smartcourse_core.Auth.Model.{RefreshToken}
use smartcourse_core.Auth.Service.{
  TokenPair, revoked, rotate, available, token_pair, issue_refresh_token, refresh_tokens,
}
use smartcourse_core.Auth.Revoke.{DistinctIds}
use smartcourse_core.Auth.Issue.{issued, issued_pair, issue_refresh_token-some, token_pair-ok}
use smartcourse_core.Auth.Refresh.Replay.{rows_of}
use smartcourse_core.Db.Postgres.{in_transaction}
use smartcourse_core.Db.Transactions.{in_transaction-ok}
use smartcourse_core.Effects.{World, run_sql, pure, bind-ok, ok, ◌>>=◌, ◌>>◌}

-- The table after the rows of a hash are revoked.
abbrev pub revoke_hash : String → ℕ → List RefreshToken → List RefreshToken
revoke_hash h t = map (λ r. if r.token_hash == h then revoked t r else r)

-- No row has the id or the hash of `t`.
abbrev pub IsNew : RefreshToken → Database → Type 0
IsNew t db = any (λ r. r.id == t.id || r.token_hash == t.token_hash) db.refresh_tokens ≡ false

-- A new row has another hash than a row that is there, and another id than any.
new_hash :
    (t row : RefreshToken) (h : String) (l : List RefreshToken) {m : List RefreshToken}
    → any (λ r. r.id == t.id || r.token_hash == t.token_hash) l ≡ false
    → filter (λ r. r.token_hash == h) l ≡ row ∷ m
    → (t.token_hash == h) ≡ false
new_hash t row h [] new found = cc
new_hash t row h (x ∷ l) {m} new found = ground (
  arith,
  eq_iff x.token_hash t.token_hash,
  eq_iff x.token_hash h,
  eq_iff t.token_hash h,
  new_hash t row h l {m = m},
)

pub new_id :
    (t : RefreshToken) (l : List RefreshToken)
    → any (λ r. r.id == t.id || r.token_hash == t.token_hash) l ≡ false
    → any (λ r. r.id == t.id) l ≡ false
new_id t [] new = refl
new_id t (x ∷ l) new = ground (arith, new_id t l)

filter-snoc :
    (h : String) (t : RefreshToken) (l : List RefreshToken)
    → (t.token_hash == h) ≡ false
    → filter (λ r. r.token_hash == h) (l ++ t ∷ []) ≡ filter (λ r. r.token_hash == h) l
filter-snoc h t [] e = rw e
filter-snoc h t (x ∷ l) e = rw (filter-snoc h t l e)

revoke_hash-snoc :
    (h : String) (now : ℕ) (t : RefreshToken) (l : List RefreshToken)
    → (t.token_hash == h) ≡ false
    → revoke_hash h now (l ++ t ∷ []) ≡ revoke_hash h now l ++ t ∷ []
revoke_hash-snoc h now t [] e = rw e
revoke_hash-snoc h now t (x ∷ l) e = rw (revoke_hash-snoc h now t l e)

-- The update of the row that was found, beside the new row.
pub replace-snoc :
    (h : String) (now : ℕ) (row t : RefreshToken) (l : List RefreshToken)
    → Unique (λ r. r.id) l
    → any (λ r. r.id == t.id || r.token_hash == t.token_hash) l ≡ false
    → filter (λ r. r.token_hash == h) l ≡ row ∷ []
    → replace_token (revoked now row) (l ++ t ∷ []) ≡ revoke_hash h now l ++ t ∷ []
replace-snoc h now row t l distinct new found =
    let other = new_hash t row h l new found in
    let pass =
      save_rows-filter (λ r. r.id) (revoked now) (λ r. refl) (λ r. r.token_hash == h) (l ++ t ∷ [])
        (Unique-snoc (λ r. r.id) t l distinct (new_id t l new)) in
    rw (← revoke_hash-snoc h now t l other) (rw (filter-snoc h t l other ∙ found) at pass)

pub found-has_user :
    (i : ℕ) (l : List User) {u : User}
    → head? (filter (λ v. v.id == i) l) ≡ some u
    → any (λ v. v.id == u.id) l ≡ true
found-has_user i [] h = cc
found-has_user i (v ∷ l) {u} h = ground (arith, found-has_user i l {u = u})

module _ {P : Platform} (raw : String) (settings : SecuritySettings) (w : World P)
    (row : RefreshToken) (user : User) (k : P.Private) where
  abbrev pub successor : RefreshToken
  successor = issued P w user.id row.family_id settings

  abbrev pub rotated_pair : TokenPair P
  rotated_pair =
      issued_pair P (record w { draws = w.draws + 1 + 1 }) user (P.token_urlsafe w.draws) k settings

  available-active : user.is_active ≡ true → available {P = P} (some user) w ≡ (ok user, w)
  available-active usable = simp usable

  pub rotate_session :
      (s' : P.Session)
      → w.clock ≤ row.expires_at
      → user_row P row.user_id w ≡ some user
      → user.is_active ≡ true
      → P.private_pem settings.jwt_private_key_path ≡ rsa k
      → issue_refresh_token user.id row.family_id settings w
        ≡ (ok (P.token_urlsafe w.draws), record w { session = s'; draws = w.draws + 1 + 1 })
      → rotate row settings w ≡ (
        ok (user, rotated_pair),
        record w { session = P.save_token (revoked w.clock row) s'; draws = w.draws + 1 + 1 + 1 },
      )
  unfolding get_by_id
  rotate_session s' early known usable key added =
      let not_late = le→ltb row.expires_at w.clock early in
      let saved : World P = record w {
        session = P.save_token (revoked w.clock row) s';
        draws = w.draws + 1 + 1;
      } in
      rw (not_late, P.get_user_lem, known)
        (bind-ok (available (some user))
            (λ u. do
              new_raw ← issue_refresh_token u.id row.family_id settings
              run_sql (P.save_token (revoked w.clock row))
              tokens ← token_pair u new_raw settings
              pure (u, tokens))
            w (available-active usable)
          ∙ bind-ok (issue_refresh_token user.id row.family_id settings)
              (λ new_raw. do
                run_sql (P.save_token (revoked w.clock row))
                tokens ← token_pair user new_raw settings
                pure (user, tokens))
              w added
          ∙ bind-ok (token_pair user (P.token_urlsafe w.draws) settings)
              (λ tokens. pure (user, tokens)) saved
              (token_pair-ok user (P.token_urlsafe w.draws) settings saved k key))

  refresh_tokens-rotate :
      rows_of P raw w ≡ row ∷ []
      → row.revoked_at ≡ none
      → refresh_tokens raw settings w ≡ rotate row settings w
  unfolding refresh_tokens
  refresh_tokens-rotate found active = simp (P.select_tokens_lem, found, active)

  -- An active refresh token that has not expired, of an active user, is exchanged for a new pair:
  -- the rows of its hash are revoked, the new row goes into the same family, and both are committed.
  pub refresh_rotates :
      rows_of P raw w ≡ row ∷ []
      → row.revoked_at ≡ none
      → w.clock ≤ row.expires_at
      → user_row P row.user_id w ≡ some user
      → user.is_active ≡ true
      → P.private_pem settings.jwt_private_key_path ≡ rsa k
      → DistinctIds (P.view w.session).working.refresh_tokens
      → IsNew successor (P.view w.session).working
      → let db = (P.view w.session).working in
        let rotated : Database = record db {
          refresh_tokens =
              revoke_hash (P.sha256_hex raw) w.clock db.refresh_tokens ++ successor ∷ [];
        } in
        ((in_transaction (refresh_tokens raw settings) w).0 ≡ ok (user, rotated_pair))
        × (P.view (in_transaction (refresh_tokens raw settings) w).1.session
            ≡ record { working = rotated; stored = rotated })
  refresh_rotates found active early known usable key distinct new =
      let db = (P.view w.session).working in
      let inserted : insert_token successor db
          ≡ some (record db { refresh_tokens = db.refresh_tokens ++ successor ∷ [] }) =
        rw (found-has_user row.user_id db.users known, new) in
      let (s', issue, seen) =
        issue_refresh_token-some user.id row.family_id settings w
          (record db { refresh_tokens = db.refresh_tokens ++ successor ∷ [] }) inserted in
      let run = rotate_session s' early known usable key issue in
      let done = refresh_tokens-rotate found active ∙ run in
      let written =
        replace-snoc (P.sha256_hex raw) w.clock row successor db.refresh_tokens distinct new
          found in
      rw
        (in_transaction-ok (refresh_tokens raw settings) w (user, rotated_pair)
          (ap (λ x. x.0) done))
        (refl, rw (done, P.view-commit, P.view-save_token, seen, written))
