-- ===== src/Db/Session.antt =====
-- `session_scope` of infrastructure/db/session.py: the boundary of a transaction.
use task_platform.Common.{◌≡◌, refl}
use task_platform.Domain.Effects.{ok, err, Action, Error, Result}
use task_platform.Db.Tables.{Database}

module _ {A : Type 0} where
  -- What a scope makes of how its block ended: it commits, or it rolls everything back and the
  -- exception goes on. A commit itself does not fail.
  abbrev pub settle : Database → Result A × Database → Result A × Database
  settle db (ok a, after) = (ok a, after)
  settle db (err e, after) = (err e, db)

  abbrev pub session_scope : Action Database A → Action Database A
  session_scope m db = settle db (m db)

  pub session_scope-eq-ok :
      (m : Action Database A) (db : Database) {a : A}
      → (session_scope m db).0 ≡ ok a
      → m db ≡ (ok a, (session_scope m db).1)
  session_scope-eq-ok m db {a} h = go (m db) h
    where
      go : (r : Result A × Database) → (settle db r).0 ≡ ok a → r ≡ (ok a, (settle db r).1)
      go (ok b, u) e = cc
      go (err x, u) e = cc

  -- An exception leaves no trace in the database.
  pub session_scope-eq-err :
      (m : Action Database A) (db : Database) {e : Error}
      → (session_scope m db).0 ≡ err e
      → (session_scope m db).1 ≡ db
  session_scope-eq-err m db {e} h = go (m db) h
    where
      go : (r : Result A × Database) → (settle db r).0 ≡ err e → (settle db r).1 ≡ db
      go (ok b, u) k = cc
      go (err x, u) k = refl
