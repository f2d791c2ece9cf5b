-- ===== src/Base/Keys.antt =====
-- Keys that share a prefix and go on with different characters are different.
use Prim.Native.String.{◌++◌ as append}
use Prim.Native.String.append
use Prim.Native.String.compare
use text.Mathlib.TextLemmas.{append_assoc, append_cancel_left}
use smartcourse_core.Base.{Bool-cases, String, eq_iff, false, inl, inr, refl, ◌==◌, ◌≡◌, string_eq}

-- After a prefix that they share, texts that differ are different.
pub shared_prefix :
    (prefix s t : String) → (s == t) ≡ false → (append prefix s == append prefix t) ≡ false
shared_prefix prefix s t differ = elim (Bool-cases (append prefix s == append prefix t)) [
  | inl h ↦
      let same = (eq_iff (append prefix s) (append prefix t)).0 h in
      let e = (eq_iff s t).1 (append_cancel_left prefix s t same) in cc
  | inr h ↦ h
]

first_differs : (a b : String) → (append "r" a == append "f" b) ≡ false
first_differs a b = rw (append.cons, append.cons, compare.cons-cons) refl

-- The key of a throttle and that of the failed logins.
pub throttle-login :
    (a b : String) → (append "auth:register_throttle:" a == append "auth:failed_login:" b) ≡ false
throttle-login a b =
    rw
      (
        append_assoc "auth:" "register_throttle:" a,
        append_assoc "auth:" "failed_login:" b,
        append_assoc "r" "egister_throttle:" a,
        append_assoc "f" "ailed_login:" b,
      )
      (shared_prefix "auth:" (append "r" (append "egister_throttle:" a))
        (append "f" (append "ailed_login:" b))
        (first_differs (append "egister_throttle:" a) (append "ailed_login:" b)))
