-- ===== src/Courses/Order.antt =====
-- The order of a listing, newest first, and what follows a cursor in it.
use smartcourse_core.Base.{
  Bool, Bool-cases, List, Option, [], all, and-right, any, ap, arith, drop, false, filter, inl, inr,
  last?, none, or-false, refl, some, suc, sym, take, true, zero, ℕ, ◌==◌, ◌∙◌, ◌∷◌, ◌≡◌, nat_eq,
  string_eq,
}
use smartcourse_core.Base.Rows.{Unique}
use smartcourse_core.Platform.Orm.{is_newer, insert_newest, newest_first}
use smartcourse_core.Courses.Model.{Course}
use smartcourse_core.Courses.Service.{is_after}

-- Every course is newer than all that follow.
abbrev pub Sorted : List Course → Type 0
Sorted [] = Unit
Sorted (c ∷ l) = (all (is_newer c) l ≡ true) × Sorted l

-- The position that a cursor to a course holds.
abbrev pub position : Course → Option (ℕ × ℕ)
position c = some (c.created_at, c.id)

is_newer-total :
    (c d : Course) → (d.id == c.id) ≡ false → is_newer c d ≡ false → is_newer d c ≡ true
is_newer-total c d other h = ground arith

is_newer_trans : (c d e : Course) → is_newer c d ≡ true → is_newer d e ≡ true → is_newer c e ≡ true
is_newer_trans c d e h k = ground arith

is_after-newer : (c d : Course) → is_newer c d ≡ true → is_after (position c) d ≡ true
is_after-newer c d h = ground arith

is_after-older : (c d : Course) → is_newer d c ≡ true → is_after (position c) d ≡ false
is_after-older c d h = ground arith

is_after_self : (c : Course) → is_after (position c) c ≡ false
is_after_self c = ground arith

all_trans :
    (c d : Course) (l : List Course)
    → is_newer c d ≡ true
    → all (is_newer d) l ≡ true
    → all (is_newer c) l ≡ true
all_trans c d [] h k = refl
all_trans c d (e ∷ l) h k = ground (arith, is_newer_trans c d e, all_trans c d l)

all-insert :
    (p : Course → Bool) (c : Course) (l : List Course)
    → p c ≡ true
    → all p l ≡ true
    → all p (insert_newest c l) ≡ true
all-insert p c [] h k = rw h
all-insert p c (d ∷ l) h k = ground (arith, all-insert p c l)

any-insert :
    (p : Course → Bool) (c : Course) (l : List Course)
    → p c ≡ false
    → any p l ≡ false
    → any p (insert_newest c l) ≡ false
any-insert p c [] h k = rw h
any-insert p c (d ∷ l) h k = ground (arith, any-insert p c l)

any-newest_first :
    (p : Course → Bool) (l : List Course) → any p l ≡ false → any p (newest_first l) ≡ false
any-newest_first p [] h = refl
any-newest_first p (c ∷ l) h =
    let (here, there) = or-false (p c) (any p l) h in
    any-insert p c (newest_first l) here (any-newest_first p l there)

insert_newest-Sorted :
    (c : Course) (l : List Course)
    → Sorted l
    → any (λ d. d.id == c.id) l ≡ false
    → Sorted (insert_newest c l)
insert_newest-Sorted c [] s new = (refl, tt)
insert_newest-Sorted c (d ∷ l) (newer, s) new =
    let (other, rest) = or-false (d.id == c.id) (any (λ e. e.id == c.id) l) new in
    elim (Bool-cases (is_newer c d)) [
      | inl h ↦ rw h (rw (h, all_trans c d l h newer) refl, (newer, s))
      | inr h ↦ rw h (
        all-insert (is_newer d) c l (is_newer-total c d other h) newer,
        insert_newest-Sorted c l s rest,
      )
    ]

-- The rows of a table with a primary key are strictly ordered.
pub newest_first-Sorted : (l : List Course) → Unique (λ c. c.id) l → Sorted (newest_first l)
newest_first-Sorted [] u = tt
newest_first-Sorted (c ∷ l) (new, u) =
    insert_newest-Sorted c (newest_first l) (newest_first-Sorted l u)
      (any-newest_first (λ d. d.id == c.id) l new)

all-filter : (q p : Course → Bool) (l : List Course) → all q l ≡ true → all q (filter p l) ≡ true
all-filter q p [] h = refl
all-filter q p (c ∷ l) h = ground (arith, all-filter q p l)

pub filter-Sorted : (p : Course → Bool) (l : List Course) → Sorted l → Sorted (filter p l)
filter-Sorted p [] s = tt
filter-Sorted p (c ∷ l) (newer, s) = elim (Bool-cases (p c)) [
  | inl h ↦ rw h (all-filter (is_newer c) p l newer, filter-Sorted p l s)
  | inr h ↦ rw h (filter-Sorted p l s)
]

all-last :
    (p : Course → Bool) (n : ℕ) (l : List Course) {c : Course}
    → all p l ≡ true
    → last? (take n l) ≡ some c
    → p c ≡ true
all-last p zero l h k = cc
all-last p (suc n) [] h k = cc
all-last p (suc zero) (d ∷ l) h k = ground arith
all-last p (suc (suc n)) (d ∷ []) h k = ground arith
all-last p (suc (suc n)) (d ∷ e ∷ l) {c} h k =
    all-last p (suc n) (e ∷ l) (and-right (p d) (all p (e ∷ l)) h) k

filter-all :
    (c : Course) (l : List Course)
    → all (is_newer c) l ≡ true
    → filter (is_after (position c)) l ≡ l
filter-all c [] h = refl
filter-all c (d ∷ l) h = ground (arith, is_after-newer c d, filter-all c l)

some-inj : {c d : Course} → some d ≡ some c → c ≡ d
some-inj {c} {d} h = sym (ap (λ o. elim o [ none ↦ d | some e ↦ e ]) h)

filter-head :
    (c d : Course) (l : List Course)
    → all (is_newer d) l ≡ true
    → c ≡ d
    → filter (is_after (position c)) (d ∷ l) ≡ l
filter-head c d l newer e =
    ap (λ b. filter (is_after (position b)) (d ∷ l)) e ∙ rw (is_after_self d) (filter-all d l newer)

-- What comes after the last of the first `n` rows is the rows without these.
pub filter-is_after :
    (n : ℕ) (l : List Course) {c : Course}
    → Sorted l
    → last? (take n l) ≡ some c
    → filter (is_after (position c)) l ≡ drop n l
filter-is_after zero l s h = cc
filter-is_after (suc n) [] s h = cc
filter-is_after (suc zero) (d ∷ l) {c} (newer, s) h = filter-head c d l newer (some-inj h)
filter-is_after (suc (suc n)) (d ∷ []) {c} (newer, s) h = filter-head c d [] refl (some-inj h)
filter-is_after (suc (suc n)) (d ∷ e ∷ l) {c} (newer, s) h =
    let older = is_after-older c d (all-last (is_newer d) (suc n) (e ∷ l) newer h) in
    rw older (filter-is_after (suc n) (e ∷ l) s h)
