-- ===== src/Scripts/CreateAdmin.antt =====
-- scripts/create_admin.py.
use Prim.Native.String.{◌++◌ as append, count as count_characters}
use smartcourse_core.Base.{
  Option, String, if◌then◌else◌, is_none, ltb, none, not, some, ℕ, ◌==◌, nat_eq, string_eq,
}
use smartcourse_core.Platform.{Platform}
use smartcourse_core.Core.Errors.{Exception, app, app_error}
use smartcourse_core.Core.Security.{hash_password}
use smartcourse_core.Db.Postgres.{in_transaction}
use smartcourse_core.Users.Model.{User, admin}
use smartcourse_core.Users.Service.{get_by_email, create_user}
use smartcourse_core.Effects.{World, M, Result, ok, err, ◌>>=◌, ◌>>◌, raise_if}

-- How the script ends: it prints the account, prints an error and exits with 1, or dies of an
-- exception that it does not catch.
pub data Exit : Type 0 where
  created : String → ℕ → Exit
  exit_1 : String → Exit
  traceback : Exception → Exit

abbrev exit_of : Result User → Exit
exit_of (ok user) = created user.email user.id
exit_of (err (app e)) = exit_1 (append "Error: " e.message)
exit_of (err e) = traceback e

-- `args.password or getpass.getpass("Password: ")`
abbrev pub chosen_password : Option String → String → String
chosen_password none prompted = prompted
chosen_password (some p) prompted = if p == "" then prompted else p

module _ {P : Platform} where
  -- `_create_admin`, in its transaction. `repr` is Python's `{email!r}`.
  unfoldable pub create_admin : (String → String) → String → String → String → M P User
  unfolding in_transaction get_by_email create_user hash_password
  create_admin repr email full_name password = in_transaction (do
    existing ← get_by_email email
    raise_if (not (is_none existing)) app_error
        (append "A user with email " (append (repr email) " already exists."))
    hashed ← hash_password password
    create_user email hashed full_name admin)

  unfoldable pub main :
      (String → String) → String → String → Option String → String → World P → Exit × World P
  unfolding create_admin
  main repr email full_name given prompted w =
      let password = chosen_password given prompted in
      let (r, w') = create_admin repr email full_name password w in
      if ltb (count_characters password) 8
      then (exit_1 "Password must be at least 8 characters.", w)
      else (exit_of r, w')
