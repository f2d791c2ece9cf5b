-- ===== src/Users/Lookups.antt =====
-- `get_by_email` and `get_by_id` of src/modules/users/service.py over the rows of the session.
use smartcourse_core.Base.{
  List, Option, String, [], filter, head?, none, some, ℕ, ◌==◌, ◌∷◌, ◌≡◌, nat_eq, string_eq,
}
use smartcourse_core.Platform.{Platform}
use smartcourse_core.Users.Model.{User}
use smartcourse_core.Users.Service.{get_by_email, get_by_id}
use smartcourse_core.Effects.{World, ok}

-- The rows of an address, and the row of an id.
abbrev pub users_with : (P : Platform) → String → World P → List User
users_with P email w = filter (λ u. u.email == email) (P.view w.session).working.users

abbrev pub user_row : (P : Platform) → ℕ → World P → Option User
user_row P i w = head? (filter (λ u. u.id == i) (P.view w.session).working.users)

module _ {P : Platform} (w : World P) where
  pub get_by_email-none :
      (email : String) → users_with P email w ≡ [] → get_by_email email w ≡ (ok none, w)
  unfolding get_by_email
  get_by_email-none email h = simp (P.select_users_lem, h)

  pub get_by_email-some :
      (email : String) (user : User)
      → users_with P email w ≡ user ∷ []
      → get_by_email email w ≡ (ok (some user), w)
  unfolding get_by_email
  get_by_email-some email user h = simp (P.select_users_lem, h)

  pub get_by_id_lem : (i : ℕ) → get_by_id i w ≡ (ok (user_row P i w), w)
  unfolding get_by_id
  get_by_id_lem i = rw P.get_user_lem
