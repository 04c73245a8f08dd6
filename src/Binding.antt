-- ===== src/Binding.antt =====
-- mqserver/mq_binding.hpp: `Binding`, `BindingMapper`, `BindingManager`.
pub mod Laws
pub mod Tidy
pub mod Manager
use bitmq.Base.{
  ℕ, suc, ◌+◌, Bool, true, false, not, Option, none, some, List, [], ◌∷◌, ◌++◌, Bytes, codes,
  if◌then◌else◌, length, bytes_key,
}
use bitmq.Dict.{Dict, find, emplace, assign, erase}
use bitmq.Sql.{Row, Engine, exec, escape_sql_literal}

pub record Binding : Type 0 where
  pub exchange_name : Bytes
  pub msgqueue_name : Bytes
  pub binding_key : Bytes

abbrev pub MsgQueueBindingMap : Type 0
MsgQueueBindingMap = Dict Bytes Binding

abbrev pub BindingMap : Type 0
BindingMap = Dict Bytes MsgQueueBindingMap

abbrev pub create_table_sql : Bytes
create_table_sql =
    codes
      "create table if not exists binding_table(exchange_name varchar(32), msgqueue_name varchar(32), binding_key varchar(128));"

abbrev pub drop_table_sql : Bytes
drop_table_sql = codes "drop table if exists binding_table;"

abbrev pub select_sql : Bytes
select_sql = codes "select exchange_name, msgqueue_name, binding_key from binding_table;"

unfoldable pub insert_sql : Binding → Bytes
insert_sql binding =
    codes "insert into binding_table values("
    ++ codes "'"
    ++ escape_sql_literal binding.exchange_name
    ++ codes "', "
    ++ codes "'"
    ++ escape_sql_literal binding.msgqueue_name
    ++ codes "', "
    ++ codes "'"
    ++ escape_sql_literal binding.binding_key
    ++ codes "');"

unfoldable pub remove_sql : Bytes → Bytes → Bytes
remove_sql ename qname =
    codes "delete from binding_table where "
    ++ codes "exchange_name='"
    ++ escape_sql_literal ename
    ++ codes "' and "
    ++ codes "msgqueue_name='"
    ++ escape_sql_literal qname
    ++ codes "';"

unfoldable pub remove_exchange_bindings_sql : Bytes → Bytes
remove_exchange_bindings_sql ename =
    codes "delete from binding_table where "
    ++ codes "exchange_name='"
    ++ escape_sql_literal ename
    ++ codes "';"

unfoldable pub remove_msg_queue_bindings_sql : Bytes → Bytes
remove_msg_queue_bindings_sql qname =
    codes "delete from binding_table where "
    ++ codes "msgqueue_name='"
    ++ escape_sql_literal qname
    ++ codes "';"

-- The map behind a key; a missing one is empty, as `operator[]` makes it.
abbrev pub map_at : Bytes → BindingMap → MsgQueueBindingMap
map_at ename bindings = elim (find ename bindings) [ none ↦ [] | some qmap ↦ qmap ]

-- `_bindings[ename].insert({qname, bp})`
unfoldable pub add_binding : Bytes → Bytes → Binding → BindingMap → BindingMap
add_binding ename qname bp bindings =
    assign ename (emplace qname bp (map_at ename bindings)) bindings

-- The callback on one row; columns past the third are not looked at.
unfoldable pub select_callback : BindingMap → Row → BindingMap
unfolding add_binding
select_callback result (some ename ∷ some qname ∷ some key ∷ more) =
    add_binding ename qname
      (record { exchange_name = ename; msgqueue_name = qname; binding_key = key }) result
select_callback result row = result

unfoldable pub fold_rows : BindingMap → List Row → BindingMap
unfolding select_callback
fold_rows result [] = result
fold_rows result (row ∷ rows) = fold_rows (select_callback result row) rows

pub record BindingManager (Db : Type 0) : Type 0 where
  pub db : Db
  pub bindings : BindingMap

-- The walk of `removeMsgQueueBindings`: the queue goes from every exchange's map, and a map that is
-- empty then goes too.
unfoldable pub drop_queue : Bytes → BindingMap → BindingMap
drop_queue qname [] = []
drop_queue qname ((ename, qmap) ∷ bindings) =
    let rest = drop_queue qname bindings in
    elim (erase qname qmap) [ [] ↦ rest | b ∷ qmap' ↦ (ename, b ∷ qmap') ∷ rest ]

unfoldable pub total_size : BindingMap → ℕ → ℕ
total_size [] total = total
total_size ((ename, qmap) ∷ bindings) total = total_size bindings (total + length qmap)

-- `_bindings[ename].erase(qname)`, and the map goes if it is empty then.
unfoldable pub drop_binding : Bytes → Bytes → BindingMap → BindingMap
drop_binding ename qname bindings = elim (erase qname (map_at ename bindings)) [
  | [] ↦ erase ename (assign ename [] bindings)
  | b ∷ qmap ↦ assign ename (b ∷ qmap) bindings
]

-- `_bindings.find(ename)` and then `find(qname)`
unfoldable pub lookup : Bytes → Bytes → BindingMap → Option Binding
lookup ename qname bindings = elim (find ename bindings) [
  | none ↦ none
  | some qmap ↦ find qname qmap
]

unfoldable pub get_exchange_bindings :
    {Db : Type 0} → Bytes → BindingManager Db → MsgQueueBindingMap
get_exchange_bindings ename m = elim (find ename m.bindings) [ none ↦ [] | some qmap ↦ qmap ]

unfoldable pub get_binding : {Db : Type 0} → Bytes → Bytes → BindingManager Db → Option Binding
get_binding ename qname m = lookup ename qname m.bindings

unfoldable pub exists : {Db : Type 0} → Bytes → Bytes → BindingManager Db → Bool
exists ename qname m = elim (lookup ename qname m.bindings) [ none ↦ false | some it ↦ true ]

unfoldable pub size : {Db : Type 0} → BindingManager Db → ℕ
unfolding total_size
size m = total_size m.bindings 0

module _ {Db : Type 0} (engine : Engine Db) where
  -- `BindingMapper::insert`
  unfoldable pub insert : Binding → Db → Bool × Db
  unfolding insert_sql
  insert binding db = let (ret, rows, db') = exec engine (insert_sql binding) db in (ret, db')

  -- The three deletions of the mapper, whose result the code drops.
  abbrev pub run : Bytes → Db → Db
  run sql db = let (ret, rows, db') = exec engine sql db in db'

  unfoldable pub recovery : Db → BindingMap × Db
  unfolding fold_rows
  recovery db = let (ret, rows, db') = exec engine select_sql db in (fold_rows [] rows, db')

  -- The constructor. `none` is the failed assertion of `createTable`.
  unfoldable pub open_manager : Db → Option (BindingManager Db)
  unfolding recovery
  open_manager db =
      let (ret, rows, db1) = exec engine create_table_sql db in
      if ret
      then (let (found, db2) = recovery db1 in some (record { db = db2; bindings = found }))
      else none

  unfoldable pub bind : Bytes → Bytes → Bytes → Bool → BindingManager Db → Bool × BindingManager Db
  bind ename qname key durable m = elim (lookup ename qname m.bindings) [
    | some it ↦ (true, m)
    | none ↦
        let bp : Binding = record {
          exchange_name = ename;
          msgqueue_name = qname;
          binding_key = key;
        } in
        let (ret, db') = insert bp m.db in
        let added = add_binding ename qname bp m.bindings in
        if durable
        then (if ret
            then (true, record { db = db'; bindings = added })
            else (false, record m { db = db' }))
        else (true, record m { bindings = added })
  ]

  unfoldable pub un_bind : Bytes → Bytes → BindingManager Db → BindingManager Db
  un_bind ename qname m = elim (lookup ename qname m.bindings) [
    | none ↦ m
    | some it ↦ record {
      db = run (remove_sql ename qname) m.db;
      bindings = drop_binding ename qname m.bindings;
    }
  ]

  unfoldable pub remove_exchange_bindings : Bytes → BindingManager Db → BindingManager Db
  remove_exchange_bindings ename m = record {
    db = run (remove_exchange_bindings_sql ename) m.db;
    bindings = erase ename m.bindings;
  }

  unfoldable pub remove_msg_queue_bindings : Bytes → BindingManager Db → BindingManager Db
  remove_msg_queue_bindings qname m = record {
    db = run (remove_msg_queue_bindings_sql qname) m.db;
    bindings = drop_queue qname m.bindings;
  }

  unfoldable pub clear : BindingManager Db → BindingManager Db
  clear m = record { db = run drop_table_sql m.db; bindings = [] }
