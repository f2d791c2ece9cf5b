-- ===== src/Auth/Families/History.antt =====
-- What the statements of src/modules/auth/service.py make of the rows that were there before.
use smartcourse_core.Base.{
  Bool, Bool-cases, List, String, [], any, arith, false, filter, if◌then◌else◌, inl, inr, is_none,
  none, ℕ, ◌&&◌, ◌++◌, ◌==◌, ◌∷◌, ◌≡◌, ◌≤◌, nat_eq, string_eq,
}
use smartcourse_core.Platform.{Platform}
use smartcourse_core.Auth.Model.{RefreshToken}
use smartcourse_core.Auth.Service.{revoked}
use smartcourse_core.Auth.Revoke.{revoke_where}
use smartcourse_core.Auth.Refresh.Rotation.{revoke_hash}
use smartcourse_core.Auth.Families.Active.{
  Sound, Drawn, revoke_hash-none, Sound-mono, Sound-revoke_where, Sound-first, Sound-rotate,
}

-- What a row can become: it stays as it is, or, if it is active, it is revoked.
pub data Later : RefreshToken → RefreshToken → Type 0 where
  stays : (r : RefreshToken) → Later r r
  revoked_once : (t : ℕ) (r : RefreshToken) → r.revoked_at ≡ none → Later r (revoked t r)

-- The rows of a table went on, in their order, and others came after them.
abbrev pub Grows : List RefreshToken → List RefreshToken → Type 0
Grows [] l = Unit
Grows (b ∷ base) [] = ⊥
Grows (b ∷ base) (r ∷ l) = Later b r × Grows base l

pub Grows-refl : (l : List RefreshToken) → Grows l l
Grows-refl [] = tt
Grows-refl (r ∷ l) = (stays r, Grows-refl l)

Later-revoked :
    (t : ℕ) (b r : RefreshToken) → Later b r → r.revoked_at ≡ none → Later b (revoked t r)
Later-revoked t _ _ (stays r) active = revoked_once t r active
Later-revoked t _ _ (revoked_once s r before) active = cc

Later-revoke_where :
    (p : RefreshToken → Bool) (t : ℕ) (b r : RefreshToken)
    → Later b r
    → Later b (if p r && is_none r.revoked_at then revoked t r else r)
Later-revoke_where p t b r h = elim (Bool-cases (p r && is_none r.revoked_at)) [
  | inl e ↦ let active : r.revoked_at ≡ none = ground (arith) in rw e (Later-revoked t b r h active)
  | inr e ↦ rw e h
]

Grows-revoke_where :
    (p : RefreshToken → Bool) (t : ℕ) (base l : List RefreshToken)
    → Grows base l
    → Grows base (revoke_where p t l)
Grows-revoke_where p t [] l g = tt
Grows-revoke_where p t (b ∷ base) [] g = g
Grows-revoke_where p t (b ∷ base) (r ∷ l) (here, g) =
    (Later-revoke_where p t b r here, Grows-revoke_where p t base l g)

Grows-revoke_hash :
    (h : String) (t : ℕ) (base l : List RefreshToken) (row : RefreshToken)
    → filter (λ r. r.token_hash == h) l ≡ row ∷ []
    → row.revoked_at ≡ none
    → Grows base l
    → Grows base (revoke_hash h t l)
Grows-revoke_hash h t [] l row found active g = tt
Grows-revoke_hash h t (b ∷ base) [] row found active g = g
Grows-revoke_hash h t (b ∷ base) (r ∷ l) row found active (here, g) =
    elim (Bool-cases (r.token_hash == h)) [
      | inl e ↦
          let same : r ≡ row = ground (arith) in
          let unrevoked : r.revoked_at ≡ none = rw same active in
          let later : filter (λ x. x.token_hash == h) l ≡ [] = ground (arith) in
          rw (e, revoke_hash-none h t l later) (Later-revoked t b r here unrevoked, g)
      | inr e ↦
          let later : filter (λ x. x.token_hash == h) l ≡ row ∷ [] = ground (arith) in
          rw e (here, Grows-revoke_hash h t base l row later active g)
    ]

Grows-snoc :
    (base l : List RefreshToken) (t : RefreshToken) → Grows base l → Grows base (l ++ t ∷ [])
Grows-snoc [] l t g = tt
Grows-snoc (b ∷ base) [] t g = absurd g
Grows-snoc (b ∷ base) (r ∷ l) t (here, g) = (here, Grows-snoc base l t g)

-- The refresh tokens after `d` draws are sound, and those of an earlier table went on.
pub record Grown (P : Platform) (base : List RefreshToken) (d : ℕ) (l : List RefreshToken)
    : Type 0 where
  pub sound : Sound P d l
  pub grows : Grows base l

module _ (P : Platform) {base : List RefreshToken} where
  pub Grown-mono : (c d : ℕ) (l : List RefreshToken) → c ≤ d → Grown P base c l → Grown P base d l
  Grown-mono c d l h g = record { sound = Sound-mono P c d l h g.sound; grows = g.grows }

  pub Grown-revoke_where :
      (d : ℕ) (p : RefreshToken → Bool) (t : ℕ) (l : List RefreshToken)
      → Grown P base d l
      → Grown P base d (revoke_where p t l)
  Grown-revoke_where d p t l g = record {
    sound = Sound-revoke_where P d p t l g.sound;
    grows = Grows-revoke_where p t base l g.grows;
  }

  pub Grown-first :
      (d : ℕ) (l : List RefreshToken) (t : RefreshToken)
      → Grown P base d l
      → any (λ r. r.id == t.id) l ≡ false
      → any (λ r. r.family_id == t.family_id) l ≡ false
      → Drawn P d t.family_id
      → Grown P base d (l ++ t ∷ [])
  Grown-first d l t g new absent drawn = record {
    sound = Sound-first P d l t g.sound new absent drawn;
    grows = Grows-snoc base l t g.grows;
  }

  pub Grown-rotate :
      (d : ℕ) (h : String) (now : ℕ) (l : List RefreshToken) (row t : RefreshToken)
      → Grown P base d l
      → filter (λ r. r.token_hash == h) l ≡ row ∷ []
      → row.revoked_at ≡ none
      → t.family_id ≡ row.family_id
      → any (λ r. r.id == t.id) l ≡ false
      → Grown P base d (revoke_hash h now l ++ t ∷ [])
  Grown-rotate d h now l row t g found unrevoked same new = record {
    sound = Sound-rotate P d h now l row t g.sound found unrevoked same new;
    grows =
        Grows-snoc base (revoke_hash h now l) t
          (Grows-revoke_hash h now base l row found unrevoked g.grows);
  }
