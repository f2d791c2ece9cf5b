-- ===== src/Users/Service.antt =====
-- src/modules/users/service.py.
use smartcourse_core.Base.{Option, String, true, ℕ, ◌==◌, nat_eq, string_eq}
use smartcourse_core.Platform.{Platform}
use smartcourse_core.Users.Model.{User, UserRole}
use smartcourse_core.Effects.{M, ◌>>=◌, ◌>>◌, pure, now, draw, query, flush, scalar_one_or_none}

module _ {P : Platform} where
  unfoldable pub get_by_email : String → M P (Option User)
  get_by_email email = do
    rows ← query (P.select_users (λ u. u.email == email))
    scalar_one_or_none rows

  unfoldable pub get_by_id : ℕ → M P (Option User)
  get_by_id user_id = query (P.get_user user_id)

  -- The id, `is_active` and the times are the column defaults.
  unfoldable pub create_user : String → String → String → UserRole → M P User
  create_user email hashed_password full_name role = do
    user_id ← draw P.uuid4
    t ← now
    let user : User = record {
      id = user_id;
      email = email;
      hashed_password = hashed_password;
      full_name = full_name;
      role = role;
      is_active = true;
      created_at = t;
      updated_at = t;
    }
    flush (P.add_user user)
    pure user
