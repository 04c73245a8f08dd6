-- ===== src/Exchange.antt =====
-- mqserver/mq_exchange.hpp: `Exchange`, `ExchangeMapper`, `ExchangeManager`. An exchange object is
-- not changed once it is in the map, so the shared pointers are values here.
pub mod Manager
use bitmq.Base.{
  ℕ, suc, ◌^◌, Bool, true, false, not, ◌||◌, Option, none, some, List, [], ◌∷◌, ◌++◌, Bytes, codes,
  nat_eq, leb, ltb, if◌then◌else◌, length, bytes_key,
}
use bitmq.Dict.{Dict, find, emplace, erase}
use bitmq.Args
use bitmq.Args.{Args}
use bitmq.Router.{ExchangeType, unknow_type, direct, fanout, topic}
use bitmq.Sql.{Row, Engine, exec, escape_sql_literal, parse_int, show_bool}

pub record Exchange : Type 0 where
  pub name : Bytes
  pub type : ExchangeType
  pub durable : Bool
  pub auto_delete : Bool
  pub args : Args

-- `Exchange::encodeArgToken`, the code of `MsgQueue`'s
abbrev pub encode_arg_token : Bytes → Bytes
encode_arg_token = Args.encode_arg_token

abbrev pub decode_arg_token : Bytes → Bytes
decode_arg_token = Args.decode_arg_token

-- `Exchange::setArgs`
abbrev pub set_args : Bytes → Args
set_args = Args.set_args

-- `Exchange::getArgs`
abbrev pub get_args : Args → Bytes
get_args = Args.get_args

abbrev pub ExchangeMap : Type 0
ExchangeMap = Dict Bytes Exchange

abbrev pub create_table_sql : Bytes
create_table_sql =
    codes "create table if not exists exchange_table("
    ++ codes "                    name varchar(32) primary key,"
    ++ codes "                    type int, "
    ++ codes "                    durable int, "
    ++ codes "                    auto_delete int, "
    ++ codes "                    args varchar(128));"

abbrev pub drop_table_sql : Bytes
drop_table_sql = codes "drop table if exists exchange_table;"

abbrev pub select_sql : Bytes
select_sql = codes "select name, type, durable, auto_delete, args from exchange_table;"

-- An enumerator on a stream is its number.
abbrev pub show_type : ExchangeType → Bytes
show_type unknow_type = codes "0"
show_type direct = codes "1"
show_type fanout = codes "2"
show_type topic = codes "3"

unfoldable pub insert_sql : Exchange → Bytes
insert_sql exp =
    codes "insert into exchange_table values("
    ++ codes "'"
    ++ escape_sql_literal exp.name
    ++ codes "', "
    ++ show_type exp.type
    ++ codes ", "
    ++ show_bool exp.durable
    ++ codes ", "
    ++ show_bool exp.auto_delete
    ++ codes ", "
    ++ codes "'"
    ++ escape_sql_literal (get_args exp.args)
    ++ codes "');"

unfoldable pub remove_sql : Bytes → Bytes
remove_sql name =
    codes "delete from exchange_table where name="
    ++ codes "'"
    ++ escape_sql_literal name
    ++ codes "';"

-- `static_cast<ExchangeType>` behind its range check; `none` is the record that is skipped. The number
-- is an `int` by its bit pattern, negative from 2 ^ 31 on.
abbrev pub cast_type : ℕ → Option ExchangeType
cast_type type =
    if leb (2 ^ 31) type || ltb 3 type
    then none
    else if nat_eq type 0
    then some unknow_type
    else if nat_eq type 1
    then some direct
    else if nat_eq type 2
    then some fanout
    else some topic

abbrev keep_exchange :
    Bytes → Option ExchangeType → ℕ → ℕ → Option Bytes → ExchangeMap → ExchangeMap
keep_exchange name none durable auto_delete args result = result
keep_exchange name (some type) durable auto_delete args result =
    emplace name
      (record {
        name = name;
        type = type;
        durable = not (nat_eq durable 0);
        auto_delete = not (nat_eq auto_delete 0);
        args = elim args [ none ↦ [] | some text ↦ set_args text ];
      })
      result

-- The fields behind the name, where the numbers are read.
abbrev read_exchange :
    Bytes → Option ℕ → Option ℕ → Option ℕ → Option Bytes → ExchangeMap → ExchangeMap
read_exchange name (some type) (some durable) (some auto_delete) args result =
    keep_exchange name (cast_type type) durable auto_delete args result
read_exchange name _ _ _ args result = result

-- The callback on one row; columns past the fifth are not looked at.
unfoldable pub select_callback : ExchangeMap → Row → ExchangeMap
select_callback result (some name ∷ some c1 ∷ some c2 ∷ some c3 ∷ args ∷ more) =
    read_exchange name (parse_int (some c1)) (parse_int (some c2)) (parse_int (some c3)) args result
select_callback result row = result

unfoldable pub fold_rows : ExchangeMap → List Row → ExchangeMap
unfolding select_callback
fold_rows result [] = result
fold_rows result (row ∷ rows) = fold_rows (select_callback result row) rows

pub record ExchangeManager (Db : Type 0) : Type 0 where
  pub db : Db
  pub exchanges : ExchangeMap

module _ {Db : Type 0} (engine : Engine Db) where
  -- `ExchangeMapper::insert`
  unfoldable pub insert : Exchange → Db → Bool × Db
  unfolding insert_sql
  insert exp db = let (ret, rows, db') = exec engine (insert_sql exp) db in (ret, db')

  -- `ExchangeMapper::remove`
  unfoldable pub remove : Bytes → Db → Db
  unfolding remove_sql
  remove name db = let (ret, rows, db') = exec engine (remove_sql name) db in db'

  -- `none` is the call of `abort`.
  unfoldable pub remove_table : Db → Option Db
  remove_table db =
      let (ret, rows, db') = exec engine drop_table_sql db in if ret then some db' else none

  unfoldable pub recovery : Db → ExchangeMap × Db
  unfolding fold_rows
  recovery db = let (ret, rows, db') = exec engine select_sql db in (fold_rows [] rows, db')

  -- The constructor. `none` is the call of `abort` in `createTable`.
  unfoldable pub open_manager : Db → Option (ExchangeManager Db)
  unfolding recovery
  open_manager db =
      let (ret, rows, db1) = exec engine create_table_sql db in
      if ret
      then (let (found, db2) = recovery db1 in some (record { db = db2; exchanges = found }))
      else none

  unfoldable pub declare_exchange :
      Bytes → ExchangeType → Bool → Bool → Args → ExchangeManager Db → Bool × ExchangeManager Db
  declare_exchange name type durable auto_delete args m = elim (find name m.exchanges) [
    | some it ↦ (true, m)
    | none ↦
        let exp : Exchange = record {
          name = name;
          type = type;
          durable = durable;
          auto_delete = auto_delete;
          args = args;
        } in
        let (ret, db') = insert exp m.db in
        let added = emplace name exp m.exchanges in
        if durable
        then (if ret
            then (true, record { db = db'; exchanges = added })
            else (false, record m { db = db' }))
        else (true, record m { exchanges = added })
  ]

  unfoldable pub delete_exchange : Bytes → ExchangeManager Db → ExchangeManager Db
  delete_exchange name m = elim (find name m.exchanges) [
    | none ↦ m
    | some it ↦
        let db' = if it.durable then remove name m.db else m.db in
        record { db = db'; exchanges = erase name m.exchanges }
  ]

  unfoldable pub clear : ExchangeManager Db → Option (ExchangeManager Db)
  unfolding remove_table
  clear m = elim (remove_table m.db) [
    | none ↦ none
    | some db' ↦ some (record { db = db'; exchanges = [] })
  ]

unfoldable pub select_exchange : {Db : Type 0} → Bytes → ExchangeManager Db → Option Exchange
select_exchange name m = find name m.exchanges

unfoldable pub exists : {Db : Type 0} → Bytes → ExchangeManager Db → Bool
exists name m = elim (find name m.exchanges) [ none ↦ false | some it ↦ true ]

abbrev pub size : {Db : Type 0} → ExchangeManager Db → ℕ
size m = length m.exchanges
