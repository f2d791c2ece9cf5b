-- ===== src/Base/Prefixes.antt =====
-- The first elements of a list and those after them.
use smartcourse_core.Base.{
  ltb, ◌∙◌, ℕ, zero, suc, ◌+◌, ◌≤◌, ◌<◌, ◌≡◌, refl, ap, arith, some, List, [], ◌∷◌, ◌++◌, map,
  length, take, drop, last?,
}

module _ {ℓ} {A : Type ℓ} where
  pub take-take : (n : ℕ) (l : List A) → take n (take (suc n) l) ≡ take n l
  take-take zero l = refl
  take-take (suc n) [] = refl
  take-take (suc n) (x ∷ l) = ap (λ k. x ∷ k) (take-take n l)

  pub take-all : (n : ℕ) (l : List A) → length l ≤ n → take n l ≡ l
  take-all zero [] h = refl
  take-all zero (x ∷ l) h = ground arith
  take-all (suc n) [] h = refl
  take-all (suc n) (x ∷ l) h = ap (λ k. x ∷ k) (take-all n l (omega arith))

  -- One element more than `n` can be taken exactly if there are more than `n`.
  pub more-take : (n : ℕ) (l : List A) → ltb n (length (take (suc n) l)) ≡ ltb n (length l)
  more-take n [] = refl
  more-take zero (x ∷ l) = ground arith
  more-take (suc n) (x ∷ l) = ground (arith, more-take n l)

  pub length-drop : (n : ℕ) (l : List A) → n ≤ length l → length (drop n l) + n ≡ length l
  length-drop zero l h = omega arith
  length-drop (suc n) [] h = ground arith
  length-drop (suc n) (x ∷ l) h = let rest = length-drop n l (omega arith) in omega arith

  pub drop-drop : (n m : ℕ) (l : List A) → drop m (drop n l) ≡ drop (n + m) l
  drop-drop zero m l = let e : m ≡ 0 + m = omega arith in ap (λ k. drop k l) e
  drop-drop (suc n) zero [] = let e : suc (n + 0) ≡ suc n + 0 = omega arith in ap (λ k. drop k []) e
  drop-drop (suc n) (suc m) [] =
      let e : suc (n + suc m) ≡ suc n + suc m = omega arith in ap (λ k. drop k []) e
  drop-drop (suc n) m (x ∷ l) =
      let e : suc (n + m) ≡ suc n + m = omega arith in drop-drop n m l ∙ ap (λ k. drop k (x ∷ l)) e

  pub last-some : (n : ℕ) (l : List A) → n < length l → (x : A) × (last? (take (suc n) l) ≡ some x)
  last-some n [] h = ground arith
  last-some zero (x ∷ l) h = (x, refl)
  last-some (suc n) (x ∷ []) h = ground arith
  last-some (suc n) (x ∷ y ∷ l) h = last-some n (y ∷ l) (omega arith)

  last-cons : (x : A) (l : List A) {y : A} → last? l ≡ some y → last? (x ∷ l) ≡ some y
  last-cons x [] h = cc
  last-cons x (z ∷ l) h = h

  -- The last of a page is the last of all that was shown.
  pub last-drop :
      (n m : ℕ) (l : List A) {x : A}
      → last? (take m (drop n l)) ≡ some x
      → last? (take (n + m) l) ≡ some x
  last-drop zero m l h = let e : 0 + m ≡ m = omega arith in ap (λ k. last? (take k l)) e ∙ h
  last-drop (suc n) zero [] h = cc
  last-drop (suc n) (suc m) [] h = cc
  last-drop (suc n) m (y ∷ l) h =
      let e : suc n + m ≡ suc (n + m) = omega arith in
      ap (λ k. last? (take k (y ∷ l))) e ∙ last-cons y (take (n + m) l) (last-drop n m l h)

pub map-take-drop {ℓ κ} :
    {A : Type ℓ} {B : Type κ} (f : A → B) (n : ℕ) (l : List A)
    → map f (take n l) ++ map f (drop n l) ≡ map f l
map-take-drop f zero l = refl
map-take-drop f (suc n) [] = refl
map-take-drop f (suc n) (x ∷ l) = ap (λ k. f x ∷ k) (map-take-drop f n l)

pub append_nil {ℓ} : {A : Type ℓ} (l : List A) → l ++ [] ≡ l
append_nil [] = refl
append_nil (x ∷ l) = ap (λ k. x ∷ k) (append_nil l)
