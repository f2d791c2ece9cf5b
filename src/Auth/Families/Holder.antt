-- ===== src/Auth/Families/Holder.antt =====
-- What a family of refresh tokens is from outside: the hash of its active token, if it has one.
use smartcourse_core.Base.{
  Bool-cases, List, Option, String, [], arith, eq_iff, false, filter, if◌then◌else◌, inl, inr,
  is_none, nat_beq_iff, none, refl, some, ℕ, ◌&&◌, ◌++◌, ◌==◌, ◌∙◌, ◌∷◌, ◌≡◌, ◌≤◌, nat_eq,
  string_eq,
}
use smartcourse_core.Auth.Model.{RefreshToken}
use smartcourse_core.Auth.Service.{in_scope}
use smartcourse_core.Auth.Revoke.{revoke_where}
use smartcourse_core.Auth.Refresh.Rotation.{revoke_hash}
use smartcourse_core.Auth.Families.Active.{active, one_active, active-revoke_hash}

abbrev pub holder : List RefreshToken → ℕ → Option String
holder [] family = none
holder (r ∷ l) family =
    let rest = holder l family in
    if r.family_id == family && is_none r.revoked_at then some r.token_hash else rest

inactive-holder :
    (family : ℕ) (l : List RefreshToken) → active family l ≡ 0 → holder l family ≡ none
inactive-holder family [] h = refl
inactive-holder family (r ∷ l) h = ground (arith, inactive-holder family l)

holder-snoc :
    (family : ℕ) (l : List RefreshToken) (t : RefreshToken)
    → holder l family ≡ none
    → holder (l ++ t ∷ []) family ≡ holder (t ∷ []) family
holder-snoc family [] t h = refl
holder-snoc family (r ∷ l) t h = ground (arith, holder-snoc family l t)

holder-other :
    (family : ℕ) (l : List RefreshToken) (t : RefreshToken)
    → (t.family_id == family) ≡ false
    → holder (l ++ t ∷ []) family ≡ holder l family
holder-other family [] t h = rw h refl
holder-other family (r ∷ l) t h = ground (arith, holder-other family l t)

-- The active row that was found holds its family.
pub found-holder :
    (h : String) (l : List RefreshToken) (row : RefreshToken)
    → filter (λ r. r.token_hash == h) l ≡ row ∷ []
    → row.revoked_at ≡ none
    → active row.family_id l ≤ 1
    → holder l row.family_id ≡ some h
found-holder h [] row found unrevoked single = cc
found-holder h (r ∷ l) row found unrevoked single =
    let one : one_active row.family_id row ≡ 1 =
      ground (arith, nat_beq_iff row.family_id row.family_id) in
    elim (Bool-cases (r.token_hash == h)) [
      | inl e ↦
          let same : r ≡ row = ground (arith) in
          rw (← same) (ground (arith, nat_beq_iff r.family_id r.family_id, eq_iff r.token_hash h))
      | inr e ↦
          let found_later : filter (λ x. x.token_hash == h) l ≡ row ∷ [] = ground arith in
          let counted = active-revoke_hash h 0 row.family_id l found_later unrevoked in
          let rest = found-holder h l row found_later unrevoked (omega (arith, single)) in
          ground (arith, counted, one, rest)
    ]

absent-holds :
    (h : String) (l : List RefreshToken) (family : ℕ)
    → filter (λ r. r.token_hash == h) l ≡ []
    → ¬ (holder l family ≡ some h)
absent-holds h [] family found = ground (arith)
absent-holds h (r ∷ l) family found = ground (arith, absent-holds h l family, eq_iff r.token_hash h)

-- A revoked token that was found holds no family.
pub revoked-holds :
    (h : String) (l : List RefreshToken) (row : RefreshToken) (t family : ℕ)
    → filter (λ r. r.token_hash == h) l ≡ row ∷ []
    → row.revoked_at ≡ some t
    → ¬ (holder l family ≡ some h)
revoked-holds h [] row t family found dead = cc
revoked-holds h (r ∷ l) row t family found dead = elim (Bool-cases (r.token_hash == h)) [
  | inl e ↦
      let same : r ≡ row = ground (arith) in
      let gone : r.revoked_at ≡ some t = rw same dead in
      let later : filter (λ x. x.token_hash == h) l ≡ [] = ground (arith) in
      ground (arith, gone, absent-holds h l family later)
  | inr e ↦
      let found_later : filter (λ x. x.token_hash == h) l ≡ row ∷ [] = ground arith in
      ground (arith, revoked-holds h l row t family found_later dead, eq_iff r.token_hash h)
]

-- The rotation hands the family on, and leaves the others as they are.
pub rotate-holder :
    (h : String) (now : ℕ) (l : List RefreshToken) (row t : RefreshToken)
    → filter (λ r. r.token_hash == h) l ≡ row ∷ []
    → row.revoked_at ≡ none
    → active row.family_id l ≤ 1
    → t.family_id ≡ row.family_id
    → t.revoked_at ≡ none
    → holder (revoke_hash h now l ++ t ∷ []) row.family_id ≡ some t.token_hash
rotate-holder h now l row t found unrevoked single same fresh =
    let one : one_active row.family_id row ≡ 1 =
      ground (arith, nat_beq_iff row.family_id row.family_id) in
    let gone : active row.family_id (revoke_hash h now l) ≡ 0 =
      omega (arith, active-revoke_hash h now row.family_id l found unrevoked, one, single) in
    holder-snoc row.family_id (revoke_hash h now l) t
      (inactive-holder row.family_id (revoke_hash h now l) gone)
    ∙ ground (arith, nat_beq_iff t.family_id row.family_id)

revoke_hash-absent :
    (h : String) (now family : ℕ) (l : List RefreshToken)
    → filter (λ r. r.token_hash == h) l ≡ []
    → holder (revoke_hash h now l) family ≡ holder l family
revoke_hash-absent h now family [] found = refl
revoke_hash-absent h now family (r ∷ l) found = ground (arith, revoke_hash-absent h now family l)

revoke_hash-holder :
    (h : String) (now family : ℕ) (l : List RefreshToken) (row : RefreshToken)
    → filter (λ r. r.token_hash == h) l ≡ row ∷ []
    → (row.family_id == family) ≡ false
    → holder (revoke_hash h now l) family ≡ holder l family
revoke_hash-holder h now family [] row found other = cc
revoke_hash-holder h now family (r ∷ l) row found other =
    ground (arith, revoke_hash-absent h now family l, revoke_hash-holder h now family l row)

pub rotate-others :
    (h : String) (now family : ℕ) (l : List RefreshToken) (row t : RefreshToken)
    → filter (λ r. r.token_hash == h) l ≡ row ∷ []
    → t.family_id ≡ row.family_id
    → (row.family_id == family) ≡ false
    → holder (revoke_hash h now l ++ t ∷ []) family ≡ holder l family
rotate-others h now family l row t found same other =
    holder-other family (revoke_hash h now l) t (rw same other)
    ∙ revoke_hash-holder h now family l row found other

-- The revocation of a family closes it, and leaves the others as they are.
pub burn-holder :
    (family now : ℕ) (l : List RefreshToken)
    → holder (revoke_where (in_scope (some family) none) now l) family ≡ none
burn-holder family now [] = refl
burn-holder family now (r ∷ l) = ground (arith, burn-holder family now l)

pub burn-others :
    (family now other : ℕ) (l : List RefreshToken)
    → (family == other) ≡ false
    → holder (revoke_where (in_scope (some family) none) now l) other ≡ holder l other
burn-others family now other [] h = refl
burn-others family now other (r ∷ l) h = ground (
  arith,
  nat_beq_iff r.family_id family,
  nat_beq_iff r.family_id other,
  nat_beq_iff family other,
  burn-others family now other l,
)
