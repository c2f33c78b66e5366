-- ===== src/Persistence/Database.antt =====
-- `EventStore::connectToDb` and `writeToDb` (backend/src/persistence/EventStore.cpp). libpq is not
-- part of the repository: the database is a parameter.
use titan_x.Prelude.{Bool, true, false, List, [], ◌∷◌, ◌++◌, if◌then◌else◌}
use titan_x.Prelude.Int.{pos}
use titan_x.Prelude.Text.{Text, codes}
use titan_x.Prelude.Results.{Result, ok, ◌>>=◌}
use titan_x.Prelude.Floats.{Floats}
use titan_x.Event.OrderEvent.{OrderEvent}
use titan_x.Serialization.Library.{JsonLibrary}
use titan_x.Serialization.Events
use titan_x.Serialization.Events.{event_to_json}
use titan_x.Serialization.Orders.{millis}

-- `PQconnectdb` with its status, and `PQexecParams` with that of its result.
pub record Database : Type 1 where
  pub State : Type 0
  pub connect : State → Bool × State
  pub exec : Text → List Text → State → Bool × State

-- libpq, with the connection string as an argument of `PQconnectdb`.
pub record Postgres : Type 1 where
  pub State : Type 0
  pub connect : Text → State → Bool × State
  pub exec : Text → List Text → State → Bool × State

-- The database that `connString_` names.
abbrev pub at : Postgres → Text → Database
at P url = record { State = P.State; connect = P.connect url; exec = P.exec }

module _ (F : Floats) (J : JsonLibrary F) (D : Database) where
  abbrev pub epoch_seconds : OrderEvent → F.Double
  epoch_seconds e = F.div (F.of_int (millis e.occurred_at)) (F.of_int (pos 1000))

  unfoldable pub insert_statement : OrderEvent → Text
  insert_statement e =
      codes "INSERT INTO order_events "
      ++ codes "(event_id, event_type, order_id, account_id, symbol, payload, occurred_at) "
      ++ codes "VALUES ($1, $2, $3, $4, $5, $6::jsonb, "
      ++ codes "to_timestamp("
      ++ F.print_fixed 3 (epoch_seconds e)
      ++ codes ")"
      ++ codes ")"

  -- The text at index 1 is a temporary's, which C++ has destroyed when the array is read; it is
  -- taken as it was.
  unfoldable pub param_values : OrderEvent → Text → List Text
  param_values e payload =
      e.event_id ∷ Events.to_string e.type ∷ e.order_id ∷ e.account_id ∷ e.symbol ∷ payload ∷ []

  -- Whether there is a connection, and the database.
  abbrev pub Link : Type 0
  Link = Bool × D.State

  -- An event is dropped when there is no connection, and when the statement fails. The exception is
  -- that of `dump`.
  unfoldable pub write_to_db : OrderEvent → Link → Result Link
  unfolding insert_statement param_values
  write_to_db e l =
      let (ready, db) : Link = if l.0 then l else D.connect l.1 in
      let write : Result Link = (do
        payload ← J.dump (event_to_json F J e)
        let done = D.exec (insert_statement e) (param_values e payload) db
        ok (if done.0 then (true, done.1) else D.connect done.1)) in
      if ready then write else ok (false, db)
