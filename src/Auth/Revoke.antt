-- ===== src/Auth/Revoke.antt =====
-- `_revoke_active_tokens` of src/modules/auth/service.py: its loop against one pass over the table.
use smartcourse_core.Base.{
  Bool, List, Option, [], ap, if◌then◌else◌, is_none, map, none, refl, some, ℕ, ◌&&◌, ◌∙◌, ◌∷◌, ◌≡◌,
  nat_eq, string_eq,
}
use smartcourse_core.Base.Rows.{Unique, save_rows, save_rows-filter}
use smartcourse_core.Platform.{Platform}
use smartcourse_core.Platform.Orm.{with_tokens}
use smartcourse_core.Auth.Model.{RefreshToken}
use smartcourse_core.Auth.Service.{in_scope, revoked, revoke_active_tokens}
use smartcourse_core.Effects.{World, ok, for_each, run_sql}

-- The table after every active row that `p` selects is revoked at `t`.
abbrev pub revoke_where : (RefreshToken → Bool) → ℕ → List RefreshToken → List RefreshToken
revoke_where p t = map (λ r. if p r && is_none r.revoked_at then revoked t r else r)

abbrev pub DistinctIds : List RefreshToken → Type 0
DistinctIds = Unique (λ r. r.id)

-- The session after the loop over the selected rows.
abbrev pub saved : (P : Platform) → ℕ → List RefreshToken → P.Session → P.Session
saved P t [] s = s
saved P t (r ∷ rs) s = saved P t rs (P.save_token (revoked t r) s)

view-saved :
    (P : Platform) (t : ℕ) (rs : List RefreshToken) (s : P.Session)
    → P.view (saved P t rs s)
      ≡ with_tokens
          (P.view s)
          (save_rows (λ r. r.id) (revoked t) rs (P.view s).working.refresh_tokens)
view-saved P t [] s = refl
view-saved P t (r ∷ rs) s = view-saved P t rs (P.save_token (revoked t r) s) ∙ rw P.view-save_token

module _ {P : Platform} where
  for_each-saved :
      (t : ℕ) (rs : List RefreshToken) (w : World P)
      → for_each rs (λ r. run_sql (P.save_token (revoked t r))) w
        ≡ (ok tt, record w { session = saved P t rs w.session })
  for_each-saved t [] w = refl
  for_each-saved t (r ∷ rs) w =
      for_each-saved t rs (record w { session = P.save_token (revoked t r) w.session })

  -- The rows that are selected, and the session after their revocation.
  abbrev pub selected : Option ℕ → Option ℕ → World P → List RefreshToken
  selected family user w =
      P.select_tokens (λ r. in_scope family user r && is_none r.revoked_at) w.session

  abbrev pub after_revoke : Option ℕ → Option ℕ → World P → P.Session
  after_revoke family user w = saved P w.clock (selected family user w) w.session

  -- One pass over the table: exactly the active rows in scope are revoked, at the current time.
  pub view-after_revoke :
      (family user : Option ℕ) (w : World P)
      → DistinctIds (P.view w.session).working.refresh_tokens
      → P.view (after_revoke family user w)
        ≡ with_tokens
            (P.view w.session)
            (revoke_where (in_scope family user) w.clock (P.view w.session).working.refresh_tokens)
  view-after_revoke family user w h =
      view-saved P w.clock (selected family user w) w.session
      ∙ rw P.select_tokens_lem (
          ap (with_tokens (P.view w.session)) (
            save_rows-filter (λ r. r.id) (revoked w.clock) (λ r. refl)
              (λ r. in_scope family user r && is_none r.revoked_at)
              (P.view w.session).working.refresh_tokens h))

  pub revoke_family :
      (family : ℕ) (w : World P)
      → revoke_active_tokens (some family) none w
        ≡ (ok tt, record w { session = after_revoke (some family) none w })
  unfolding revoke_active_tokens
  revoke_family family w = for_each-saved w.clock (selected (some family) none w) w

  pub revoke_user :
      (user : ℕ) (w : World P)
      → revoke_active_tokens none (some user) w
        ≡ (ok tt, record w { session = after_revoke none (some user) w })
  unfolding revoke_active_tokens
  revoke_user user w = for_each-saved w.clock (selected none (some user) w) w

  -- The loop of `_revoke_active_tokens` is one pass over the table, for a family and for a user:
  -- exactly the active rows in scope are revoked, at the current time, and no other row changes.
  pub revoke_active_tokens_lem :
      (family user : ℕ) (w : World P)
      → DistinctIds (P.view w.session).working.refresh_tokens
      → let rows = (P.view w.session).working.refresh_tokens in
        let (r, by_family) = revoke_active_tokens (some family) none w in
        let (q, by_user) = revoke_active_tokens none (some user) w in
        (r ≡ ok tt)
        × (P.view by_family.session
            ≡ with_tokens
                (P.view w.session)
                (revoke_where (in_scope (some family) none) w.clock rows))
        × (q ≡ ok tt)
        × (P.view by_user.session
            ≡ with_tokens
                (P.view w.session)
                (revoke_where (in_scope none (some user)) w.clock rows))
  revoke_active_tokens_lem family user w distinct =
      rw (revoke_family family w, revoke_user user w)
        (
          refl,
          view-after_revoke (some family) none w distinct,
          refl,
          view-after_revoke none (some user) w distinct,
        )
