-- ===== src/Auth/Bodies.antt =====
-- What the checks of a registration and of a new password let through.
use Prim.Native.String.{count as count_characters}
use smartcourse_core.Base.{
  Bool, Option, String, arith, false, is_none, leb, none, not, refl, some, true, ℕ, ◌&&◌, ◌==◌,
  ◌||◌, ◌∙◌, ◌≡◌, nat_eq, string_eq,
}
use smartcourse_core.Platform.{Platform}
use smartcourse_core.Core.Validation.{Checked, good, bad, text_field, email_field}
use smartcourse_core.Users.Model.{UserRole}
use smartcourse_core.Auth.Schemas.{RegisterBody, register_request, role_field, register_of}
use smartcourse_core.Effects.{World, Result, ok, err}

abbrev pub is_good : {A : Type 0} → Checked A → Bool
is_good (good a) = true
is_good (bad kind) = false

abbrev pub is_accepted : {A : Type 0} → Result A → Bool
is_accepted (ok a) = true
is_accepted (err e) = false

-- The bounds of a text that is there.
abbrev pub within : ℕ → ℕ → Option String → Bool
within lo hi none = false
within lo hi (some s) = leb lo (count_characters s) && leb (count_characters s) hi

abbrev pub is_address : Platform → Option String → Bool
is_address P none = false
is_address P (some s) = not (is_none (P.email s))

-- A role that a registration may ask for: none, which is a student, or one of the two by name.
abbrev pub is_open_role : Option String → Bool
is_open_role none = true
is_open_role (some s) = s == "student" || s == "instructor"

good-text_field : (lo hi : ℕ) (o : Option String) → is_good (text_field lo hi o) ≡ within lo hi o
good-text_field lo hi none = refl
good-text_field lo hi (some s) = ground arith

good-email_field : (P : Platform) (o : Option String) → is_good (email_field P o) ≡ is_address P o
good-email_field P none = refl
good-email_field P (some s) = ground arith

good-role_field : (o : Option String) → is_good (role_field o) ≡ is_open_role o
good-role_field none = refl
good-role_field (some s) = ground arith

module _ {P : Platform} (w : World P) where
  accepted-register_of :
      (e p n : Checked String) (r : Checked UserRole)
      → is_accepted (register_of {P = P} e p n r w).0
        ≡ (is_good e && (is_good p && (is_good n && is_good r)))
  accepted-register_of (bad k) p n r = refl
  accepted-register_of (good e) (bad k) n r = refl
  accepted-register_of (good e) (good p) (bad k) r = refl
  accepted-register_of (good e) (good p) (good n) (bad k) = refl
  accepted-register_of (good e) (good p) (good n) (good r) = refl

  -- A registration is accepted exactly if its e-mail address is one, its password has from 8 to 128
  -- characters, its name from 1 to 255, and its role, if it asks for one, is that of a student or
  -- an instructor: no one registers as an admin.
  pub register_request_lem :
      (b : RegisterBody)
      → is_accepted (register_request {P = P} b w).0 ≡ (
          is_address P b.email
          && (within 8 128 b.password && (within 1 255 b.full_name && is_open_role b.role)))
  unfolding register_request
  register_request_lem b =
      accepted-register_of (email_field P b.email) (text_field 8 128 b.password)
        (text_field 1 255 b.full_name) (role_field b.role)
      ∙ rw
          (
            good-email_field P b.email,
            good-text_field 8 128 b.password,
            good-text_field 1 255 b.full_name,
            good-role_field b.role,
          )
          refl
