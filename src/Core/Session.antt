-- ===== src/Core/Session.antt =====
-- `core/db/engine.py`: a session with the database as a transaction, and the constraints of the
-- tables, which `core/db/models/` declares and the database enforces.
use polymarket_market_discov.Base.{String, Bool, ◌≡◌, arith}
use polymarket_market_discov.Base.Result.{
  Exception, Result, ok, raise, Exec, integrity_error, raise_if,
}
use polymarket_market_discov.Core.Models.{Database}

-- `with database_session() as session: ...; session.commit()`. An exception in the block leaves
-- the database as it was: the session is closed with no commit.
unfoldable pub transaction {ℓ} : {A : Type ℓ} → (Database → Result (A × Database)) → Exec Database A
transaction body db = elim (body db) [ ok done ↦ (ok done.0, done.1) | raise exc ↦ (raise exc, db) ]

-- A row is refused where the constraint of this name would be violated.
abbrev pub constraint : Bool → String → Result (Unit {0})
constraint violated name = raise_if violated (integrity_error name)

-- What is written is written by a block that returns.
pub transaction-ok {ℓ} :
    {A : Type ℓ} (body : Database → Result (A × Database)) (db : Database) {a : A}
    → (transaction body db).0 ≡ ok a
    → body db ≡ ok (a, (transaction body db).1)
unfolding transaction
transaction-ok body db h = ground arith

pub transaction-raise {ℓ} :
    {A : Type ℓ} (body : Database → Result (A × Database)) (db : Database) {exc : Exception}
    → (transaction body db).0 ≡ raise exc
    → (transaction body db).1 ≡ db
unfolding transaction
transaction-raise body db h = ground arith
