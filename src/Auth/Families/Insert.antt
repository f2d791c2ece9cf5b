-- ===== src/Auth/Families/Insert.antt =====
-- `_issue_refresh_token` of src/modules/auth/service.py: the row goes in, or it raises.
use mathlib.Core.Option
use smartcourse_core.Base.{
  Bool-cases, List, Option, String, [], any, arith, false, inl, inr, none, not, or-false, refl,
  some, ℕ, ◌++◌, ◌+◌, ◌==◌, ◌||◌, ◌∙◌, ◌∷◌, ◌≡◌, ◌⊎◌, nat_eq, string_eq,
}
use smartcourse_core.Platform.{Platform}
use smartcourse_core.Platform.Orm.{has_user, with_tokens}
use smartcourse_core.Config.{SecuritySettings}
use smartcourse_core.Auth.Model.{RefreshToken}
use smartcourse_core.Auth.Service.{issue_refresh_token}
use smartcourse_core.Auth.Issue.{issued, map-eq-some}
use smartcourse_core.Auth.Families.Keeps.{Good, Kept, Good-drawn}
use smartcourse_core.Core.Errors.{unexpected}
use smartcourse_core.Effects.{Result, err, World, M, ◌>>=◌, ◌>>◌}

pub map-eq-none : {A B : Type 0} (f : A → B) (o : Option A) → Option.map f o ≡ none → o ≡ none
map-eq-none f none h = refl
map-eq-none f (some a) h = cc

-- What became of an INSERT of a token.
abbrev pub Added : (P : Platform) → RefreshToken → P.Session → P.Session → Type 0
Added P t s s' =
    (P.add_token t s ≡ some s')
    × (any (λ r. r.id == t.id || r.token_hash == t.token_hash) (P.view s).working.refresh_tokens
        ≡ false)
    × (P.view s' ≡ with_tokens (P.view s) ((P.view s).working.refresh_tokens ++ t ∷ []))

add_token-cases :
    (P : Platform) (t : RefreshToken) (s : P.Session)
    → (P.add_token t s ≡ none) ⊎ ((s' : P.Session) × Added P t s s')
add_token-cases P t s =
    let db = (P.view s).working in
    let taken = any (λ r. r.id == t.id || r.token_hash == t.token_hash) db.refresh_tokens in
    elim (Bool-cases (not (has_user t.user_id db) || taken)) [
      | inl h ↦ inl (map-eq-none P.view (P.add_token t s) (P.add_token_lem t s ∙ rw h))
      | inr h ↦
          let (s', added, seen) =
            map-eq-some P.view (P.add_token t s) (P.add_token_lem t s ∙ rw h) in
          inr (s', (added, (or-false (not (has_user t.user_id db)) taken h).1, seen))
    ]

module _ {P : Platform} where
  -- The issue of a token raises, or the row went in and what follows runs.
  pub issue_then :
      {B : Type 0} (Q : Result B × World P → Type 0) (f : String → M P B) (user_id family_id : ℕ)
      (settings : SecuritySettings) (w : World P)
      → Q (err (unexpected "IntegrityError"), record w { draws = w.draws + 1 + 1 })
      → ((s' : P.Session)
          → Added P (issued P w user_id family_id settings) w.session s'
          → Q (f (P.token_urlsafe w.draws) (record w { session = s'; draws = w.draws + 1 + 1 })))
      → Q ((issue_refresh_token user_id family_id settings >>= f) w)
  unfolding issue_refresh_token
  issue_then Q f user_id family_id settings w raised k =
      elim (add_token-cases P (issued P w user_id family_id settings) w.session) [
        | inl h ↦ simp (◌>>=◌, ◌>>◌, h) raised
        | inr (s', added) ↦ simp (◌>>=◌, ◌>>◌, added.0) (k s' added)
      ]

module _ {P : Platform} {base : List RefreshToken} where
  pub Kept-issue :
      {B : Type 0} (f : String → M P B) (user_id family_id : ℕ) (settings : SecuritySettings)
      (w : World P)
      → Good base w
      → ((s' : P.Session)
          → Added P (issued P w user_id family_id settings) w.session s'
          → Kept base
              (f (P.token_urlsafe w.draws) (record w { session = s'; draws = w.draws + 1 + 1 })))
      → Kept base ((issue_refresh_token user_id family_id settings >>= f) w)
  Kept-issue {B} f user_id family_id settings w g k =
      issue_then (Kept base {A = B}) f user_id family_id settings w
        (Good-drawn w (w.draws + 1 + 1) (omega arith) g).1 k
