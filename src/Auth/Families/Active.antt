-- ===== src/Auth/Families/Active.antt =====
-- How many active tokens a family has, and what the statements of src/modules/auth/service.py make of
-- that number.
use smartcourse_core.Base.{
  All, Bool, Bool-cases, List, String, [], any, ap, arith, false, filter, if◌then◌else◌, inl, inr,
  is_none, map, nat_beq_iff, none, refl, sym, ℕ, ◌&&◌, ◌++◌, ◌+◌, ◌<◌, ◌==◌, ◌∙◌, ◌∷◌, ◌≡◌, ◌≤◌,
  nat_eq, string_eq,
}
use smartcourse_core.Base.Rows.{any-map, Unique-map, Unique-snoc}
use smartcourse_core.Platform.{Platform}
use smartcourse_core.Auth.Model.{RefreshToken}
use smartcourse_core.Auth.Service.{revoked}
use smartcourse_core.Auth.Revoke.{DistinctIds, revoke_where}
use smartcourse_core.Auth.Refresh.Rotation.{revoke_hash}

-- 1 for an active token of the family.
abbrev pub one_active : ℕ → RefreshToken → ℕ
one_active family r = if r.family_id == family && is_none r.revoked_at then 1 else 0

one_active-≤ : (family : ℕ) (r : RefreshToken) → one_active family r ≤ 1
one_active-≤ family r = ground arith

-- The active tokens of a family.
abbrev pub active : ℕ → List RefreshToken → ℕ
active family [] = 0
active family (r ∷ l) = one_active family r + active family l

-- Random UUIDs do not repeat.
abbrev pub Apart : Platform → Type 0
Apart P = (m n : ℕ) → P.uuid4 m ≡ P.uuid4 n → m ≡ n

-- A family that was drawn before the draw of number `d`.
abbrev pub Drawn : Platform → ℕ → ℕ → Type 0
Drawn P d family = (k : ℕ) × (k < d) × (family ≡ P.uuid4 k)

-- The refresh tokens after `d` draws: their ids are distinct, their families were drawn, and every
-- family has at most one active token.
pub record Sound (P : Platform) (d : ℕ) (l : List RefreshToken) : Type 0 where
  pub distinct : DistinctIds l
  pub drawn : All (λ r. Drawn P d r.family_id) l
  pub single : (family : ℕ) → active family l ≤ 1

pub active-snoc :
    (family : ℕ) (l : List RefreshToken) (t : RefreshToken)
    → active family (l ++ t ∷ []) ≡ active family l + one_active family t
active-snoc family [] t = omega arith
active-snoc family (r ∷ l) t = omega (arith, active-snoc family l t)

pub active-revoke_where :
    (p : RefreshToken → Bool) (t family : ℕ) (l : List RefreshToken)
    → active family (revoke_where p t l) ≤ active family l
active-revoke_where p t family [] = omega arith
active-revoke_where p t family (r ∷ l) = ground (arith, active-revoke_where p t family l)

pub revoke_hash-none :
    (h : String) (t : ℕ) (l : List RefreshToken)
    → filter (λ r. r.token_hash == h) l ≡ []
    → revoke_hash h t l ≡ l
revoke_hash-none h t [] none_found = refl
revoke_hash-none h t (r ∷ l) none_found = ground (arith, revoke_hash-none h t l)

-- The rows of a hash are one row, which is active: its family loses one token.
pub active-revoke_hash :
    (h : String) (t family : ℕ) (l : List RefreshToken) {row : RefreshToken}
    → filter (λ r. r.token_hash == h) l ≡ row ∷ []
    → row.revoked_at ≡ none
    → active family (revoke_hash h t l) + one_active family row ≡ active family l
active-revoke_hash h t family [] found e = cc
active-revoke_hash h t family (r ∷ l) {row} found e =
    ground (arith, revoke_hash-none h t l, active-revoke_hash h t family l {row = row})

absent-active :
    (family : ℕ) (l : List RefreshToken)
    → any (λ r. r.family_id == family) l ≡ false
    → active family l ≡ 0
absent-active family [] h = refl
absent-active family (r ∷ l) h = ground (arith, absent-active family l)

All-Drawn-mono :
    (P : Platform) (c d : ℕ) (l : List RefreshToken)
    → c ≤ d
    → All (λ r. Drawn P c r.family_id) l
    → All (λ r. Drawn P d r.family_id) l
All-Drawn-mono P c d [] h a = tt
All-Drawn-mono P c d (r ∷ l) h ((k, below, e), a) =
    ((k, omega arith, e), All-Drawn-mono P c d l h a)

pub Sound-mono :
    (P : Platform) (c d : ℕ) (l : List RefreshToken) → c ≤ d → Sound P c l → Sound P d l
Sound-mono P c d l h s = record {
  distinct = s.distinct;
  drawn = All-Drawn-mono P c d l h s.drawn;
  single = s.single;
}

pub Sound-nil : (P : Platform) (d : ℕ) → Sound P d []
Sound-nil P d = record { distinct = tt; drawn = tt; single = λ family. omega arith }

All-Drawn-map :
    (P : Platform) (d : ℕ) (f : RefreshToken → RefreshToken) (l : List RefreshToken)
    → ((r : RefreshToken) → (f r).family_id ≡ r.family_id)
    → All (λ r. Drawn P d r.family_id) l
    → All (λ r. Drawn P d r.family_id) (map f l)
All-Drawn-map P d f [] same a = tt
All-Drawn-map P d f (r ∷ l) same (here, a) = (rw (same r) here, All-Drawn-map P d f l same a)

All-Drawn-snoc :
    (P : Platform) (d : ℕ) (l : List RefreshToken) (t : RefreshToken)
    → All (λ r. Drawn P d r.family_id) l
    → Drawn P d t.family_id
    → All (λ r. Drawn P d r.family_id) (l ++ t ∷ [])
All-Drawn-snoc P d [] t a h = (h, tt)
All-Drawn-snoc P d (r ∷ l) t (here, a) h = (here, All-Drawn-snoc P d l t a h)

-- The family of a row that was found was drawn.
pub found-Drawn :
    (P : Platform) (d : ℕ) (h : String) (l : List RefreshToken) {row : RefreshToken}
    → All (λ r. Drawn P d r.family_id) l
    → filter (λ r. r.token_hash == h) l ≡ row ∷ []
    → Drawn P d row.family_id
found-Drawn P d h [] a found = cc
found-Drawn P d h (r ∷ l) {row} (here, a) found = ground (arith, found-Drawn P d h l {row = row} a)

-- A pass that revokes rows keeps the table sound.
pub Sound-revoke_where :
    (P : Platform) (d : ℕ) (p : RefreshToken → Bool) (t : ℕ) (l : List RefreshToken)
    → Sound P d l
    → Sound P d (revoke_where p t l)
Sound-revoke_where P d p t l s = record {
  distinct =
      Unique-map (λ r. r.id) (λ r. if p r && is_none r.revoked_at then revoked t r else r) l
        (λ r. ground arith) s.distinct;
  drawn =
      All-Drawn-map P d (λ r. if p r && is_none r.revoked_at then revoked t r else r) l
        (λ r. ground arith) s.drawn;
  single = λ family. omega (arith, active-revoke_where p t family l, s.single family);
}

-- Draws do not repeat, so that no row has the family of a draw that is still to come.
pub undrawn-absent :
    (P : Platform) (d : ℕ) (l : List RefreshToken)
    → Apart P
    → All (λ r. Drawn P d r.family_id) l
    → any (λ r. r.family_id == P.uuid4 d) l ≡ false
undrawn-absent P d [] apart a = refl
undrawn-absent P d (r ∷ l) apart ((k, below, e), a) =
    let other : (r.family_id == P.uuid4 d) ≡ false = elim (Bool-cases (r.family_id == P.uuid4 d)) [
      | inl h ↦
          let eq = apart k d (sym e ∙ (nat_beq_iff r.family_id (P.uuid4 d)).0 h) in
          absurd (omega arith)
      | inr h ↦ h
    ] in
    rw other (undrawn-absent P d l apart a)

-- The first token of a family that no row has.
pub Sound-first :
    (P : Platform) (d : ℕ) (l : List RefreshToken) (t : RefreshToken)
    → Sound P d l
    → any (λ r. r.id == t.id) l ≡ false
    → any (λ r. r.family_id == t.family_id) l ≡ false
    → Drawn P d t.family_id
    → Sound P d (l ++ t ∷ [])
Sound-first P d l t s new absent drawn = record {
  distinct = Unique-snoc (λ r. r.id) t l s.distinct new;
  drawn = All-Drawn-snoc P d l t s.drawn drawn;
  single = λ family. elim (Bool-cases (t.family_id == family)) [
    | inl h ↦
        let e = (nat_beq_iff t.family_id family).0 h in
        let none_there : active family l ≡ 0 =
          ap (λ f. active f l) (sym e) ∙ absent-active t.family_id l absent in
        omega (arith, active-snoc family l t, none_there, one_active-≤ family t)
    | inr h ↦
        let other : one_active family t ≡ 0 = rw h refl in
        omega (arith, active-snoc family l t, other, s.single family)
  ];
}

-- The rotation of an active token: it is revoked, and its successor is of the same family.
pub Sound-rotate :
    (P : Platform) (d : ℕ) (h : String) (now : ℕ) (l : List RefreshToken) (row t : RefreshToken)
    → Sound P d l
    → filter (λ r. r.token_hash == h) l ≡ row ∷ []
    → row.revoked_at ≡ none
    → t.family_id ≡ row.family_id
    → any (λ r. r.id == t.id) l ≡ false
    → Sound P d (revoke_hash h now l ++ t ∷ [])
Sound-rotate P d h now l row t s found unrevoked same new = record {
  distinct =
      Unique-snoc (λ r. r.id) t (revoke_hash h now l)
        (Unique-map (λ r. r.id) (λ r. if r.token_hash == h then revoked now r else r) l
          (λ r. ground arith) s.distinct)
        (any-map (λ r. r.id) (λ r. r.id == t.id)
            (λ r. if r.token_hash == h then revoked now r else r) l (λ r. ground arith)
          ∙ new);
  drawn =
      All-Drawn-snoc P d (revoke_hash h now l) t
        (All-Drawn-map P d (λ r. if r.token_hash == h then revoked now r else r) l
          (λ r. ground arith) s.drawn)
        (rw same (found-Drawn P d h l s.drawn found));
  single = λ family.
      let at_most : one_active family t ≤ one_active family row = ground (arith, same, unrevoked) in
      omega (
        arith,
        active-snoc family (revoke_hash h now l) t,
        active-revoke_hash h now family l found unrevoked,
        at_most,
        s.single family,
      );
}
