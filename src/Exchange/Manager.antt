-- ===== src/Exchange/Manager.antt =====
-- The operations of `ExchangeManager` seen through `selectExchange`.
use bitmq.Base.{
  ◌≡◌, Bool, ◌&&◌, ◌||◌, not, Option, none, some, arith, Bytes, bytes_key, ◌==◌, if◌then◌else◌,
}
use bitmq.Dict.{kept, find-erase, find-emplace}
use bitmq.Args.{Args}
use bitmq.Router.{ExchangeType}
use bitmq.Sql.{Engine, exec}
use bitmq.Exchange.{
  Exchange, ExchangeManager, select_exchange, declare_exchange, delete_exchange, insert_sql,
  remove_sql, insert, remove, exists,
}

module _ {Db : Type 0} (engine : Engine Db) where
  -- Declaring an exchange, whatever the database answers: if the call succeeds, the name has the
  -- exchange that it had before or else the new one; if it fails, and for every other name, nothing
  -- changes.
  pub declare-select_exchange :
      (name : Bytes) (type : ExchangeType) (durable auto_delete : Bool) (args : Args)
      (m : ExchangeManager Db) (name' : Bytes)
      → select_exchange name' (declare_exchange engine name type durable auto_delete args m).1 ≡ (
          if (declare_exchange engine name type durable auto_delete args m).0 && name == name'
          then kept (select_exchange name m) (record {
            name = name;
            type = type;
            durable = durable;
            auto_delete = auto_delete;
            args = args;
          })
          else select_exchange name' m)
  unfolding select_exchange declare_exchange
  declare-select_exchange name type durable auto_delete args m name' =
      let exp : Exchange = record {
        name = name;
        type = type;
        durable = durable;
        auto_delete = auto_delete;
        args = args;
      } in
      ground (arith, bytes_key.same_iff name name', find-emplace name name' exp m.exchanges)

  -- Deleting an exchange takes that one away and no other one.
  pub delete-select_exchange :
      (name : Bytes) (m : ExchangeManager Db) (name' : Bytes)
      → select_exchange name' (delete_exchange engine name m)
        ≡ (if name == name' then none else select_exchange name' m)
  unfolding select_exchange delete_exchange
  delete-select_exchange name m name' =
      ground (arith, bytes_key.same_iff name name', find-erase name name' m.exchanges)

  -- An exchange is accepted where its name is taken, or it is not durable, or the database takes the
  -- statement.
  abbrev pub accepts : Exchange → ExchangeManager Db → Bool
  accepts exp m = exists exp.name m || (not exp.durable || (exec engine (insert_sql exp) m.db).0)

  -- The database after the declaration, and after the deletion.
  abbrev pub asked : Exchange → ExchangeManager Db → Db
  asked exp m =
      if exists exp.name m || not exp.durable then m.db else (exec engine (insert_sql exp) m.db).2

  abbrev pub told : Option Exchange → Bytes → Db → Db
  told none name db = db
  told (some it) name db = if it.durable then (exec engine (remove_sql name) db).2 else db

  declare_exchange-accepts :
      (exp : Exchange) (m : ExchangeManager Db)
      → let r = declare_exchange engine exp.name exp.type exp.durable exp.auto_delete exp.args m in
        (r.0 ≡ accepts exp m) × (r.1.db ≡ asked exp m)
  unfolding declare_exchange exists insert
  declare_exchange-accepts exp m = ground arith

  delete_exchange-told :
      (name : Bytes) (m : ExchangeManager Db)
      → (delete_exchange engine name m).db ≡ told (select_exchange name m) name m.db
  unfolding delete_exchange select_exchange remove
  delete_exchange-told name m = ground arith

  -- What a declaration and a deletion come to for a name.
  abbrev pub Managed : Exchange → ExchangeManager Db → Bytes → Type 0
  Managed exp m name' =
      let r = declare_exchange engine exp.name exp.type exp.durable exp.auto_delete exp.args m in
      let m' = delete_exchange engine exp.name m in
      (r.0 ≡ accepts exp m)
      × (r.1.db ≡ asked exp m)
      × (select_exchange name' r.1 ≡ (
          if r.0 && exp.name == name'
          then kept (select_exchange exp.name m) exp
          else select_exchange name' m))
      × (m'.db ≡ told (select_exchange exp.name m) exp.name m.db)
      × (select_exchange name' m' ≡ (if exp.name == name' then none else select_exchange name' m))

  -- Declaring an exchange succeeds exactly where the name is taken, or the exchange is not durable, or the
  -- database takes the statement that stores it; this statement, and no other one, is run where the name is
  -- free and the exchange durable. If the call succeeds, the name has what it had before or else the new
  -- exchange; if it fails, and for every other name, nothing changes in memory. Deleting takes the exchange of
  -- that name away and no other one, and runs the statement that removes it where it was durable.
  pub select_exchange_after :
      (exp : Exchange) (m : ExchangeManager Db) (name' : Bytes) → Managed exp m name'
  select_exchange_after exp m name' =
      let (answer, db) = declare_exchange-accepts exp m in
      (
        answer,
        db,
        declare-select_exchange exp.name exp.type exp.durable exp.auto_delete exp.args m name',
        delete_exchange-told exp.name m,
        delete-select_exchange exp.name m name',
      )
