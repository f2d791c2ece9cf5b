-- ===== src/Effects.antt =====
-- A running service function: the session and the Redis client that it is handed, the clock, the
-- random draws and the log are passed along, and what it raises is a value beside the state that
-- the raise leaves.
use smartcourse_core.Base.{
  Bool, List, Option, String, [], false, none, some, true, ℕ, ◌++◌, ◌+◌, ◌∷◌, ◌≡◌,
}
use smartcourse_core.Platform.{Platform}
use smartcourse_core.Platform.Redis.{Value}
use smartcourse_core.Core.Errors.{Exception, app, unexpected, ErrorClass, init_error}

-- The value of a field of a log line.
pub data LogValue : Type 0 where
  word : String → LogValue
  count : ℕ → LogValue

pub record LogEvent : Type 0 where
  pub event : String
  pub fields : List (String × LogValue)

pub record World (P : Platform) : Type 0 where
  pub session : P.Session
  pub conn : P.Conn
  pub clock : ℕ
  pub draws : ℕ
  pub logs : List LogEvent
  -- the context variable of src/core/logging.py
  pub request_id : Option String

pub data Result (A : Type 0) : Type 0 where
  ok : A → Result A
  err : Exception → Result A

abbrev pub M : Platform → Type 0 → Type 0
M P A = World P → Result A × World P

module _ {P : Platform} where
  infixl 5 ◌>>=◌ ◌>>◌
  abbrev pub ◌>>=◌ : {A B : Type 0} → M P A → (A → M P B) → M P B
  ◌>>=◌ m f w = let (r, w') = m w in elim r [ ok a ↦ f a w' | err e ↦ (err e, w') ]

  abbrev pub ◌>>◌ : {A B : Type 0} → M P A → M P B → M P B
  m >> k = m >>= λ _. k

  abbrev pub pure : {A : Type 0} → A → M P A
  pure a w = (ok a, w)

  abbrev pub raise : {A : Type 0} → Exception → M P A
  raise e w = (err e, w)

  -- `raise NotFoundError("…")`
  abbrev pub raise_app : {A : Type 0} → ErrorClass → String → M P A
  raise_app c message = raise (app (init_error c (some message) none))

  abbrev pub raise_if : Bool → ErrorClass → String → M P (Unit {0})
  raise_if true c message = raise_app c message
  raise_if false c message = pure tt

  abbrev pub when : Bool → M P (Unit {0}) → M P (Unit {0})
  when true m = m
  when false m = pure tt

  abbrev pub or_raise : {A : Type 0} → Option A → Exception → M P A
  or_raise none e = raise e
  or_raise (some a) e = pure a

  abbrev pub for_each : {A : Type 0} → List A → (A → M P (Unit {0})) → M P (Unit {0})
  for_each [] f = pure tt
  for_each (x ∷ xs) f = f x >>= λ _. for_each xs f

  -- `datetime.now(tz=UTC)`, and `int(time.time())`
  abbrev pub now : M P ℕ
  now w = (ok w.clock, w)

  abbrev pub log : String → List (String × LogValue) → M P (Unit {0})
  log event fields w =
      (ok tt, record w { logs = w.logs ++ record { event = event; fields = fields } ∷ [] })

  -- A random value: `draw` numbers it.
  abbrev pub draw : {A : Type 0} → (ℕ → A) → M P A
  draw f w = (ok (f w.draws), record w { draws = w.draws + 1 })

  -- A query of the session, and a statement that an IntegrityError may refuse.
  abbrev pub query : {A : Type 0} → (P.Session → A) → M P A
  query f w = (ok (f w.session), w)

  abbrev pub run_sql : (P.Session → P.Session) → M P (Unit {0})
  run_sql f w = (ok tt, record w { session = f w.session })

  abbrev pub stored_or_raise : Option P.Session → M P (Unit {0})
  stored_or_raise none w = (err (unexpected "IntegrityError"), w)
  stored_or_raise (some s) w = (ok tt, record w { session = s })

  abbrev pub flush : (P.Session → Option P.Session) → M P (Unit {0})
  flush f w = stored_or_raise (f w.session) w

  -- `result.scalar_one_or_none()`
  abbrev pub scalar_one_or_none : {A : Type 0} → List A → M P (Option A)
  scalar_one_or_none [] = pure none
  scalar_one_or_none (x ∷ []) = pure (some x)
  scalar_one_or_none (x ∷ y ∷ l) = raise (unexpected "MultipleResultsFound")

  -- The Redis commands, at the clock of the world.
  abbrev pub redis_read : {A : Type 0} → (ℕ → P.Conn → A) → M P A
  redis_read f w = (ok (f w.clock w.conn), w)

  abbrev pub redis_write : (ℕ → P.Conn → P.Conn) → M P (Unit {0})
  redis_write f w = (ok tt, record w { conn = f w.clock w.conn })

  abbrev pub counted_or_raise : Option (ℕ × P.Conn) → M P ℕ
  counted_or_raise none w = (err (unexpected "ResponseError"), w)
  counted_or_raise (some (n, c)) w = (ok n, record w { conn = c })

  abbrev pub redis_incr : String → M P ℕ
  redis_incr k w = counted_or_raise (P.incr w.clock k w.conn) w

  -- INCR and EXPIRE in one pipeline: EXPIRE runs also where INCR is an error, which `execute` raises
  -- after both.
  abbrev pub expired_or_raise : String → ℕ → Option (ℕ × P.Conn) → M P ℕ
  expired_or_raise k seconds none w =
      (err (unexpected "ResponseError"), record w { conn = P.expire w.clock k seconds w.conn })
  expired_or_raise k seconds (some (n, c)) w =
      (ok n, record w { conn = P.expire w.clock k seconds c })

  abbrev pub redis_incr_expire : String → ℕ → M P ℕ
  redis_incr_expire k seconds w = expired_or_raise k seconds (P.incr w.clock k w.conn) w

  abbrev pub redis_getdel : String → M P (Option Value)
  redis_getdel k w = let (v, c) = P.getdel w.clock k w.conn in (ok v, record w { conn = c })

module _ {P : Platform} {A B : Type 0} where
  -- One step of a `do` block that returns, and one that raises.
  pub bind-ok :
      (m : M P A) (f : A → M P B) (w : World P) {a : A} {w' : World P}
      → m w ≡ (ok a, w')
      → (m >>= f) w ≡ f a w'
  bind-ok m f w h = simp (h, ◌>>=◌)

  pub bind-err :
      (m : M P A) (f : A → M P B) (w : World P) {e : Exception} {w' : World P}
      → m w ≡ (err e, w')
      → (m >>= f) w ≡ (err e, w')
  bind-err m f w h = simp (h, ◌>>=◌)
