-- ===== src/Db/Transactions.antt =====
-- One transaction for each request: `get_session` of src/db/postgres.py commits what a request
-- that returns has written, and drops what one that raises has written.
use smartcourse_core.Base.{◌≡◌}
use smartcourse_core.Platform.{Platform}
use smartcourse_core.Core.Errors.{Exception}
use smartcourse_core.Effects.{World, M, ok, err}
use smartcourse_core.Db.Postgres.{in_transaction}

module _ {P : Platform} {A : Type 0} (m : M P A) (w : World P) where
  pub in_transaction-err :
      (e : Exception)
      → (m w).0 ≡ err e
      → in_transaction m w ≡ (err e, record (m w).1 { session = P.rollback (m w).1.session })
  unfolding in_transaction
  in_transaction-err e h = rw (in_transaction, h)

  pub in_transaction-ok :
      (a : A)
      → (m w).0 ≡ ok a
      → in_transaction m w ≡ (ok a, record (m w).1 { session = P.commit (m w).1.session })
  unfolding in_transaction
  in_transaction-ok a h = rw (in_transaction, h)
