-- ===== src/Auth/Families/Keeps.antt =====
-- Which programs leave the refresh tokens sound, and how that passes from their parts to them.
use smartcourse_core.Base.{
  Bool, List, Option, String, [], arith, false, none, refl, some, true, ℕ, ◌+◌, ◌∷◌, ◌≡◌, ◌≤◌,
}
use smartcourse_core.Platform.{Platform}
use smartcourse_core.Auth.Model.{RefreshToken}
use smartcourse_core.Core.Errors.{ErrorClass}
use smartcourse_core.Users.Model.{User}
use smartcourse_core.Auth.Families.History.{Grown, Grown-mono}
use smartcourse_core.Db.Postgres.{in_transaction}
use smartcourse_core.Effects.{
  World, M, Result, ok, err, ◌>>=◌, pure, when, raise_if, query, draw, run_sql, scalar_one_or_none,
  redis_incr, counted_or_raise, redis_incr_expire, expired_or_raise,
}

module _ {P : Platform} (base : List RefreshToken) where
  -- The rows that the transaction sees, and those that are committed, are sound, and those of an
  -- earlier table went on.
  abbrev pub Good : World P → Type 0
  Good w =
      Grown P base w.draws (P.view w.session).working.refresh_tokens
      × Grown P base w.draws (P.view w.session).stored.refresh_tokens

  abbrev pub Keeps : {A : Type 0} → M P A → Type 0
  Keeps m = (w : World P) → Good w → Good (m w).1

  -- After an error only what is committed counts, since the rest is rolled back.
  abbrev pub Kept : {A : Type 0} → Result A × World P → Type 0
  Kept (ok a, w) = Good w
  Kept (err e, w) = Grown P base w.draws (P.view w.session).stored.refresh_tokens

  abbrev pub Safe : {A : Type 0} → M P A → Type 0
  Safe m = (w : World P) → Good w → Kept (m w)

module _ {P : Platform} {base : List RefreshToken} where
  Kept-of-Good : {A : Type 0} (r : Result A) (w : World P) → Good base w → Kept base (r, w)
  Kept-of-Good (ok a) w g = g
  Kept-of-Good (err e) w g = g.1

  pub Safe-of-Keeps : {A : Type 0} (m : M P A) → Keeps base m → Safe base m
  Safe-of-Keeps m k w g = Kept-of-Good (m w).0 (m w).1 (k w g)

  Good-after :
      {A B : Type 0} (f : A → M P B) (r : Result A) (w : World P)
      → ((a : A) → Keeps base (f a))
      → Good base w
      → Good base (elim r as (λ _. Result B × World P) [ ok a ↦ f a w | err e ↦ (err e, w) ]).1
  Good-after f (ok a) w k g = k a w g
  Good-after f (err e) w k g = g

  pub Keeps-bind :
      {A B : Type 0} (m : M P A) (f : A → M P B)
      → Keeps base m
      → ((a : A) → Keeps base (f a))
      → Keeps base (m >>= f)
  Keeps-bind m f k l w g = Good-after f (m w).0 (m w).1 l (k w g)

  Kept-after :
      {A B : Type 0} (f : A → M P B) (r : Result A) (w : World P)
      → ((a : A) → r ≡ ok a → Kept base (f a w))
      → Good base w
      → Kept base {A = B}
          (elim r as (λ _. Result B × World P) [ ok a ↦ f a w | err e ↦ (err e, w) ])
  Kept-after f (ok a) w k g = k a refl
  Kept-after f (err e) w k g = g.1

  -- A first part that only reads, and what comes after it in the same world.
  pub Kept-read :
      {A B : Type 0} (m : M P A) (f : A → M P B) (w : World P)
      → (m w).1 ≡ w
      → Good base w
      → ((a : A) → (m w).0 ≡ ok a → Kept base (f a w))
      → Kept base ((m >>= f) w)
  Kept-read m f w same g k = Kept-after f (m w).0 (m w).1 (λ a e. rw same (k a e)) (rw same g)

  pub Safe-bind :
      {A B : Type 0} (m : M P A) (f : A → M P B)
      → Keeps base m
      → ((a : A) → Safe base (f a))
      → Safe base (m >>= f)
  Safe-bind m f k l w g = Kept-after f (m w).0 (m w).1 (λ a e. l a (m w).1 (k w g)) (k w g)

  Kept-continued :
      {A B : Type 0} (f : A → M P B) (r : Result A) (w : World P)
      → ((a : A) → Safe base (f a))
      → Kept base (r, w)
      → Kept base {A = B}
          (elim r as (λ _. Result B × World P) [ ok a ↦ f a w | err e ↦ (err e, w) ])
  Kept-continued f (ok a) w k h = k a w h
  Kept-continued f (err e) w k h = h

  pub Safe-then :
      {A B : Type 0} (m : M P A) (f : A → M P B)
      → Safe base m
      → ((a : A) → Safe base (f a))
      → Safe base (m >>= f)
  Safe-then m f s k w g = Kept-continued f (m w).0 (m w).1 k (s w g)

  pub Good-drawn :
      (w : World P) (n : ℕ) → w.draws ≤ n → Good base w → Good base (record w { draws = n })
  Good-drawn w n h g = (
    Grown-mono P w.draws n (P.view w.session).working.refresh_tokens h g.0,
    Grown-mono P w.draws n (P.view w.session).stored.refresh_tokens h g.1,
  )

  pub Keeps-draw : {A : Type 0} (f : ℕ → A) → Keeps {P = P} base (draw f)
  Keeps-draw f w g = Good-drawn w (w.draws + 1) (omega arith) g

  pub Keeps-pure : {A : Type 0} (a : A) → Keeps {P = P} base (pure a)
  Keeps-pure a w g = g

  -- The result of a program, passed through a function.
  pub Keeps-returned :
      {A B : Type 0} (m : M P A) (f : A → B) → Keeps base m → Keeps base (m >>= λ a. pure (f a))
  Keeps-returned m f k = Keeps-bind m (λ a. pure (f a)) k (λ a. Keeps-pure (f a))

  pub Keeps-query : {A : Type 0} (f : P.Session → A) → Keeps {P = P} base (query f)
  Keeps-query f w g = g

  pub Keeps-raise_if :
      (b : Bool) (c : ErrorClass) (message : String) → Keeps {P = P} base (raise_if b c message)
  Keeps-raise_if true c message w g = g
  Keeps-raise_if false c message w g = g

  pub Keeps-when : (b : Bool) (m : M P (Unit {0})) → Keeps base m → Keeps {P = P} base (when b m)
  Keeps-when true m k w g = k w g
  Keeps-when false m k w g = g

  pub Keeps-scalar : {A : Type 0} (l : List A) → Keeps {P = P} base (scalar_one_or_none l)
  Keeps-scalar [] w g = g
  Keeps-scalar (x ∷ []) w g = g
  Keeps-scalar (x ∷ y ∷ l) w g = g

  Good-counted :
      (o : Option (ℕ × P.Conn)) (w : World P) → Good base w → Good base (counted_or_raise o w).1
  Good-counted none w g = g
  Good-counted (some (n, c)) w g = g

  pub Keeps-redis_incr : (k : String) → Keeps {P = P} base (redis_incr k)
  Keeps-redis_incr k w g = Good-counted (P.incr w.clock k w.conn) w g

  Good-expired :
      (k : String) (seconds : ℕ) (o : Option (ℕ × P.Conn)) (w : World P)
      → Good base w
      → Good base (expired_or_raise k seconds o w).1
  Good-expired k seconds none w g = g
  Good-expired k seconds (some (n, c)) w g = g

  pub Keeps-redis_incr_expire :
      (k : String) (seconds : ℕ) → Keeps {P = P} base (redis_incr_expire k seconds)
  Keeps-redis_incr_expire k seconds w g = Good-expired k seconds (P.incr w.clock k w.conn) w g

  pub Keeps-commit : Keeps {P = P} base (run_sql P.commit)
  Keeps-commit w g = rw P.view-commit (g.0, g.0)

  pub Keeps-save_user : (u : User) → Keeps {P = P} base (run_sql (P.save_user u))
  Keeps-save_user u w g = rw P.view-save_user g

  in_transaction-Good :
      {A : Type 0} (r : Result A) (w : World P)
      → Kept base (r, w)
      → Good base
          (elim r as (λ _. Result A × World P) [
            | ok a ↦ (ok a, record w { session = P.commit w.session })
            | err e ↦ (err e, record w { session = P.rollback w.session })
          ]).1
  in_transaction-Good (ok a) w k = rw P.view-commit (k.0, k.0)
  in_transaction-Good (err e) w k = rw P.view-rollback (k, k)

  -- A transaction around a safe program leaves everything sound.
  pub Keeps-in_transaction : {A : Type 0} (m : M P A) → Safe base m → Keeps base (in_transaction m)
  unfolding in_transaction
  Keeps-in_transaction m s w g = in_transaction-Good (m w).0 (m w).1 (s w g)
