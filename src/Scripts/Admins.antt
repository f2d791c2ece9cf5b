-- ===== src/Scripts/Admins.antt =====
-- The account that scripts/create_admin.py makes.
use Prim.Native.String.{◌++◌ as append}
use smartcourse_core.Base.{
  Option, String, [], any, ap, false, is_none, none, not, refl, some, true, ◌++◌, ◌+◌, ◌==◌, ◌||◌,
  ◌∙◌, ◌∷◌, ◌≡◌, nat_eq, string_eq,
}
use smartcourse_core.Platform.{Platform}
use smartcourse_core.Platform.Orm.{Database, insert_user}
use smartcourse_core.Platform.Crypto.{matches}
use smartcourse_core.Core.Errors.{app_error, app, init_error}
use smartcourse_core.Core.Security.{hash_password}
use smartcourse_core.Db.Transactions.{in_transaction-ok, in_transaction-err}
use smartcourse_core.Users.Model.{User, admin}
use smartcourse_core.Users.Service.{get_by_email, create_user}
use smartcourse_core.Users.Lookups.{users_with, get_by_email-none, get_by_email-some}
use smartcourse_core.Auth.Issue.{map-eq-some}
use smartcourse_core.Scripts.CreateAdmin.{create_admin}
use smartcourse_core.Effects.{World, M, ok, err, raise_if, bind-ok, ◌>>=◌, ◌>>◌}

module _ {P : Platform} (repr : String → String) (email full_name password : String)
    (w : World P) where
  abbrev pub new_admin : User
  new_admin = record {
    id = P.uuid4 (w.draws + 1);
    email = email;
    hashed_password = P.hash w.draws password;
    full_name = full_name;
    role = admin;
    is_active = true;
    created_at = w.clock;
    updated_at = w.clock;
  }

  -- What the script does once it knows whether there is an account.
  abbrev create_if_none : Option User → M P User
  create_if_none existing = do
    raise_if (not (is_none existing)) app_error
        (append "A user with email " (append (repr email) " already exists."))
    hashed ← hash_password password
    create_user email hashed full_name admin

  abbrev work : M P User
  work = do existing ← get_by_email email; create_if_none existing

  created :
      (s' : P.Session)
      → P.add_user new_admin w.session ≡ some s'
      → ((create_if_none none w).0 ≡ ok new_admin) × ((create_if_none none w).1.session ≡ s')
  unfolding hash_password create_user
  created s' added = simp (added, ◌>>=◌, ◌>>◌) (refl, refl)

  -- For an address without an account the script makes one of an admin, active, whose hash verifies
  -- the password, and commits it.
  pub admin_created :
      users_with P email w ≡ []
      → any (λ v. v.id == new_admin.id || v.email == email) (P.view w.session).working.users ≡ false
      → let db = (P.view w.session).working in
        let after : Database = record db { users = db.users ++ new_admin ∷ [] } in
        ((create_admin repr email full_name password w).0 ≡ ok new_admin)
        × (P.view (create_admin repr email full_name password w).1.session
            ≡ record { working = after; stored = after })
        × (P.verify new_admin.hashed_password password ≡ matches)
  unfolding create_admin
  admin_created free new =
      let db = (P.view w.session).working in
      let inserted : insert_user new_admin db
          ≡ some (record db { users = db.users ++ new_admin ∷ [] }) =
        rw new in
      let (s', added, seen) =
        map-eq-some P.view (P.add_user new_admin w.session)
          {b = record (P.view w.session) {
            working = record db { users = db.users ++ new_admin ∷ [] };
          }}
          (P.add_user_lem new_admin w.session ∙ rw inserted refl) in
      let (value, session) = created s' added in
      let ran = bind-ok (get_by_email email) create_if_none w (get_by_email-none w email free) in
      rw (in_transaction-ok work w new_admin (ap (λ r. r.0) ran ∙ value))
        (refl, rw (P.view-commit, ran, session, seen) refl, P.verify-hash w.draws password)

  -- For an address that has an account the script fails, and what is committed stays as it was.
  pub admin_exists :
      (user : User)
      → users_with P email w ≡ user ∷ []
      → ((create_admin repr email full_name password w).0
          ≡ err (
              app (
                init_error app_error
                  (some (append "A user with email " (append (repr email) " already exists.")))
                  none)))
        × (P.view (create_admin repr email full_name password w).1.session
            ≡ record (P.view w.session) { working = (P.view w.session).stored })
  unfolding create_admin
  admin_exists user there =
      let ran =
        bind-ok (get_by_email email) create_if_none w (get_by_email-some w email user there) in
      rw (in_transaction-err work w _ (ap (λ r. r.0) ran)) (refl, rw (P.view-rollback, ran) refl)
