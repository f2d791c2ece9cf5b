-- ===== src/Base/Rows.antt =====
-- Rows with a key: an update in place, and a loop of updates against one pass over the table.
use smartcourse_core.Base.{
  ◌≡◌, refl, ap, ◌∙◌, Bool, false, List, [], ◌∷◌, ◌++◌, map, arith, any, filter, Equatable, ◌==◌,
  Bool-cases, inl, inr, if◌then◌else◌,
}

module _ {A K : Type 0} ⦃e : Equatable K⦄ (key : A → K) where
  -- UPDATE of the row with the key of `u`.
  abbrev pub replace_row : A → List A → List A
  replace_row u = map (λ v. if key v == key u then u else v)

  -- A primary key: no two rows share it.
  abbrev pub Unique : List A → Type 0
  Unique [] = Unit
  Unique (x ∷ xs) = (any (λ v. key v == key x) xs ≡ false) × Unique xs

  -- One update for each of `rows`, in turn.
  abbrev pub save_rows : (A → A) → List A → List A → List A
  save_rows f [] l = l
  save_rows f (r ∷ rs) l = save_rows f rs (replace_row (f r) l)

  pub replace_row-absent :
      (u : A) (l : List A) → any (λ v. key v == key u) l ≡ false → replace_row u l ≡ l
  replace_row-absent u [] h = refl
  replace_row-absent u (v ∷ l) h = ground (arith, replace_row-absent u l)

  any-filter : (q p : A → Bool) (l : List A) → any q l ≡ false → any q (filter p l) ≡ false
  any-filter q p [] h = refl
  any-filter q p (x ∷ l) h = ground (arith, any-filter q p l)

module _ {A K : Type 0} ⦃e : Equatable K⦄ (key : A → K) (f : A → A)
    (keeps : (x : A) → key (f x) ≡ key x) where
  save_rows-cons :
      (y : A) (rs l : List A)
      → any (λ v. key v == key y) rs ≡ false
      → save_rows key f rs (y ∷ l) ≡ y ∷ save_rows key f rs l
  save_rows-cons y [] l h = refl
  save_rows-cons y (r ∷ rs) l h = ground (
    arith,
    keeps r,
    e.equals_iff (key r) (key y),
    e.equals_iff (key y) (key (f r)),
    save_rows-cons y rs (replace_row key (f r) l),
  )

  replace_row-head :
      (x : A) (l : List A)
      → any (λ v. key v == key x) l ≡ false
      → replace_row key (f x) (x ∷ l) ≡ f x ∷ l
  replace_row-head x l h =
      let absent = replace_row-absent key (f x) l (rw (keeps x) h) in
      ground (arith, keeps x, e.equals_iff (key x) (key (f x)), absent)

  -- Over distinct keys the loop over the selected rows is one pass over the table.
  pub save_rows-filter :
      (p : A → Bool) (l : List A)
      → Unique key l
      → save_rows key f (filter p l) l ≡ map (λ r. if p r then f r else r) l
  save_rows-filter p [] h = refl
  save_rows-filter p (x ∷ l) (fresh, h) =
      let rest = save_rows-filter p l h in
      let apart = any-filter key (λ v. key v == key x) p l fresh in
      elim (Bool-cases (p x)) [
        | inl e ↦ rw e (
            ap (save_rows key f (filter p l)) (replace_row-head x l fresh)
            ∙ save_rows-cons (f x) (filter p l) l (rw (keeps x) apart)
            ∙ ap (λ t. f x ∷ t) rest)
        | inr e ↦ rw e (save_rows-cons x (filter p l) l apart ∙ ap (λ t. x ∷ t) rest)
      ]

module _ {A K : Type 0} ⦃e : Equatable K⦄ (key : A → K) where
  any-append :
      (q : A → Bool) (l m : List A) → any q l ≡ false → any q m ≡ false → any q (l ++ m) ≡ false
  any-append q [] m h k = k
  any-append q (x ∷ l) m h k = ground (arith, any-append q l m)

  -- A row with a new key goes at the end.
  pub Unique-snoc :
      (u : A) (l : List A)
      → Unique key l
      → any (λ v. key v == key u) l ≡ false
      → Unique key (l ++ u ∷ [])
  Unique-snoc u [] h fresh = (refl, tt)
  Unique-snoc u (x ∷ l) h fresh =
      let apart : (key u == key x) ≡ false =
        ground (arith, e.equals_iff (key x) (key u), e.equals_iff (key u) (key x)) in
      (
        any-append (λ v. key v == key x) l (u ∷ []) h.0 (rw apart),
        Unique-snoc u l h.1 (ground arith),
      )

  pub any-map :
      (q : A → Bool) (f : A → A) (l : List A)
      → ((x : A) → q (f x) ≡ q x)
      → any q (map f l) ≡ any q l
  any-map q f [] h = refl
  any-map q f (x ∷ l) h = ground (arith, h x, any-map q f l h)

  -- Keys survive a pass that changes no key.
  pub Unique-map :
      (f : A → A) (l : List A) → ((x : A) → key (f x) ≡ key x) → Unique key l → Unique key (map f l)
  Unique-map f [] keeps h = tt
  Unique-map f (x ∷ l) keeps (fresh, h) = (
    rw (keeps x) (any-map (λ v. key v == key x) f l (λ y. ap (λ k. k == key x) (keeps y)) ∙ fresh),
    Unique-map f l keeps h,
  )
