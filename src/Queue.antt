-- ===== src/Queue.antt =====
-- mqserver/mq_queue.hpp: `MsgQueue`, `MsgQueueMapper`, `MsgQueueManager`. A queue object is not
-- changed once it is in the map, so the shared pointers are values here.
pub mod Manager
pub mod Table
pub mod Recovery
pub mod Stored
pub mod Keeps
pub mod Restart
use bitmq.Base.{
  ℕ, suc, ◌≡◌, Bool, true, false, not, ◌||◌, Option, none, some, List, [], ◌∷◌, ◌++◌, Bytes, codes,
  nat_eq, if◌then◌else◌, length, bytes_key,
}
use bitmq.Dict.{Dict, find, emplace, erase}
use bitmq.Args
use bitmq.Args.{Args}
use bitmq.Sql.{Row, Engine, exec, escape_sql_literal, parse_int, show_bool}

pub record MsgQueue : Type 0 where
  pub name : Bytes
  pub durable : Bool
  pub exclusive : Bool
  pub auto_delete : Bool
  pub args : Args

abbrev pub QueueMap : Type 0
QueueMap = Dict Bytes MsgQueue

abbrev pub create_table_sql : Bytes
create_table_sql =
    codes
      "create table if not exists queue_table(name varchar(32) primary key, durable int, exclusive int, auto_delete int, args varchar(128));"

abbrev pub drop_table_sql : Bytes
drop_table_sql = codes "drop table if exists queue_table;"

abbrev pub select_sql : Bytes
select_sql = codes "select name, durable, exclusive, auto_delete, args from queue_table;"

unfoldable pub insert_sql : MsgQueue → Bytes
insert_sql queue =
    codes "insert into queue_table values("
    ++ codes "'"
    ++ escape_sql_literal queue.name
    ++ codes "', "
    ++ show_bool queue.durable
    ++ codes ", "
    ++ show_bool queue.exclusive
    ++ codes ", "
    ++ show_bool queue.auto_delete
    ++ codes ", "
    ++ codes "'"
    ++ escape_sql_literal (Args.get_args queue.args)
    ++ codes "');"

unfoldable pub remove_sql : Bytes → Bytes
remove_sql name =
    codes "delete from queue_table where name="
    ++ codes "'"
    ++ escape_sql_literal name
    ++ codes "';"

-- The fields behind the name, where the numbers are read.
abbrev read_queue : Bytes → Option ℕ → Option ℕ → Option ℕ → Option Bytes → QueueMap → QueueMap
read_queue name (some durable) (some exclusive) (some auto_delete) args result =
    emplace name
      (record {
        name = name;
        durable = not (nat_eq durable 0);
        exclusive = not (nat_eq exclusive 0);
        auto_delete = not (nat_eq auto_delete 0);
        args = elim args [ none ↦ [] | some text ↦ Args.set_args text ];
      })
      result
read_queue name _ _ _ args result = result

-- The callback on one row; columns past the fifth are not looked at.
unfoldable pub select_callback : QueueMap → Row → QueueMap
select_callback result (some name ∷ some c1 ∷ some c2 ∷ some c3 ∷ args ∷ more) =
    read_queue name (parse_int (some c1)) (parse_int (some c2)) (parse_int (some c3)) args result
select_callback result row = result

unfoldable pub fold_rows : QueueMap → List Row → QueueMap
unfolding select_callback
fold_rows result [] = result
fold_rows result (row ∷ rows) = fold_rows (select_callback result row) rows

pub record QueueManager (Db : Type 0) : Type 0 where
  pub db : Db
  pub msg_queues : QueueMap

module _ {Db : Type 0} (engine : Engine Db) where
  -- `MsgQueueMapper::insert`
  unfoldable pub insert : MsgQueue → Db → Bool × Db
  unfolding insert_sql
  insert queue db = let (ret, rows, db') = exec engine (insert_sql queue) db in (ret, db')

  -- `MsgQueueMapper::remove`
  unfoldable pub remove : Bytes → Db → Db
  unfolding remove_sql
  remove name db = let (ret, rows, db') = exec engine (remove_sql name) db in db'

  unfoldable pub remove_table : Db → Db
  remove_table db = let (ret, rows, db') = exec engine drop_table_sql db in db'

  unfoldable pub recovery : Db → QueueMap × Db
  unfolding fold_rows
  recovery db = let (ret, rows, db') = exec engine select_sql db in (fold_rows [] rows, db')

  -- The constructor. `none` is the failed assertion of `createTable`.
  unfoldable pub open_manager : Db → Option (QueueManager Db)
  unfolding recovery
  open_manager db =
      let (ret, rows, db1) = exec engine create_table_sql db in
      if ret
      then (let (found, db2) = recovery db1 in some (record { db = db2; msg_queues = found }))
      else none

  unfoldable pub declare_queue :
      Bytes → Bool → Bool → Bool → Args → QueueManager Db → Bool × QueueManager Db
  declare_queue qname qdurable qexclusive qauto_delete qargs m = elim (find qname m.msg_queues) [
    | some it ↦ (true, m)
    | none ↦
        let mqp : MsgQueue = record {
          name = qname;
          durable = qdurable;
          exclusive = qexclusive;
          auto_delete = qauto_delete;
          args = qargs;
        } in
        let (ret, db') = insert mqp m.db in
        let added = emplace qname mqp m.msg_queues in
        if qdurable
        then (if ret
            then (true, record { db = db'; msg_queues = added })
            else (false, record m { db = db' }))
        else (true, record m { msg_queues = added })
  ]

  unfoldable pub delete_queue : Bytes → QueueManager Db → QueueManager Db
  delete_queue name m = elim (find name m.msg_queues) [
    | none ↦ m
    | some it ↦
        let db' = if it.durable then remove name m.db else m.db in
        record { db = db'; msg_queues = erase name m.msg_queues }
  ]

  unfoldable pub clear : QueueManager Db → QueueManager Db
  clear m = record { db = remove_table m.db; msg_queues = [] }

unfoldable pub select_queue : {Db : Type 0} → Bytes → QueueManager Db → Option MsgQueue
select_queue name m = find name m.msg_queues

abbrev pub all_queues : {Db : Type 0} → QueueManager Db → QueueMap
all_queues m = m.msg_queues

unfoldable pub exists : {Db : Type 0} → Bytes → QueueManager Db → Bool
exists name m = elim (find name m.msg_queues) [ none ↦ false | some it ↦ true ]

abbrev pub size : {Db : Type 0} → QueueManager Db → ℕ
size m = length m.msg_queues
