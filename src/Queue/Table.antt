-- ===== src/Queue/Table.antt =====
-- What the database engine promises for the table of mqserver/mq_queue.hpp, and what the statements of
-- `MsgQueueMapper` do with it.
use bitmq.Base.{
  ◌≡◌, refl, ap, ◌∙◌, Bool, true, false, Option, none, some, [], ◌∷◌, ◌++◌, map, append_assoc,
  Bytes, codes, if◌then◌else◌, bytes_key, ◌==◌, arith,
}
use bitmq.Dict.{Dict, find, HasDistinctKeys}
use bitmq.Str.Search.{Lacks}
use bitmq.Args.{get_args}
use bitmq.Args.RoundTrip.{IsEncodable, get_args-no_nul}
use bitmq.Sql.{Row, Engine, exec, c_str, quote, escape_sql_literal, show_bool, sqlite_ok}
use bitmq.Sql.Literal.{read_literal, read-escape}
use bitmq.Sql.Statement.{c_str-append, escape-Lacks}
use bitmq.Queue.{MsgQueue, create_table_sql, select_sql, insert_sql, remove_sql, insert, remove}

-- The columns behind the name, as texts.
pub record Columns : Type 0 where
  pub durable : Bytes
  pub exclusive : Bytes
  pub auto_delete : Bytes
  pub args : Bytes

abbrev pub columns : Bool → Bool → Bool → Bytes → Columns
columns durable exclusive auto_delete args = record {
  durable = show_bool durable;
  exclusive = show_bool exclusive;
  auto_delete = show_bool auto_delete;
  args = args;
}

abbrev pub row_of : Bytes × Columns → Row
row_of (name, c) =
    some name ∷ some c.durable ∷ some c.exclusive ∷ some c.auto_delete ∷ some c.args ∷ []

abbrev pub insert_head : Bytes
insert_head = codes "insert into queue_table values('"

abbrev pub remove_head : Bytes
remove_head = codes "delete from queue_table where name='"

-- What stands between the two literals of an insertion.
abbrev pub between : Bool → Bool → Bool → Bytes → Bytes
between durable exclusive auto_delete rest =
    codes ", "
    ++ (show_bool durable
        ++ (codes ", "
            ++ (show_bool exclusive
                ++ (codes ", " ++ (show_bool auto_delete ++ (codes ", '" ++ rest))))))

-- The engine keeps a table, seen as a map from the primary key. A statement is taken as SQL reads it: a
-- literal ends at its closing quote. An insertion under a new key succeeds; a selection lists the rows in
-- an order of its own.
pub record IsTable {Db : Type 0} (engine : Engine Db) (table : Db → Bytes → Option Columns)
    : Type 0 where
  pub creates :
      (db : Db)
      → ((engine create_table_sql db).code ≡ sqlite_ok)
        × ((name : Bytes) → table (engine create_table_sql db).db name ≡ table db name)
  pub inserts :
      (t t' name args : Bytes) (durable exclusive auto_delete : Bool) (db : Db)
      → read_literal [] t ≡ some (name, between durable exclusive auto_delete t')
      → read_literal [] t' ≡ some (args, codes ");")
      → table db name ≡ none
      → ((engine (insert_head ++ t) db).code ≡ sqlite_ok)
        × ((key : Bytes)
            → table (engine (insert_head ++ t) db).db key ≡ (
                if name == key
                then some (columns durable exclusive auto_delete args)
                else table db key))
  pub deletes :
      (t name : Bytes) (db : Db)
      → read_literal [] t ≡ some (name, codes ";")
      → (key : Bytes)
      → table (engine (remove_head ++ t) db).db key ≡ (if name == key then none else table db key)
  pub selects :
      (db : Db)
      → ((listing : Dict Bytes Columns) × HasDistinctKeys listing
          × ((engine select_sql db).rows ≡ map row_of listing)
          × ((name : Bytes) → find name listing ≡ table db name))
        × ((name : Bytes) → table (engine select_sql db).db name ≡ table db name)

-- No statement about the queue is cut short, and its arguments are read back.
pub record IsStorable (queue : MsgQueue) : Type 0 where
  pub plain_name : Lacks 0 queue.name
  pub encodable : IsEncodable queue.args
  pub distinct : HasDistinctKeys queue.args

insert_text : MsgQueue → Bytes
insert_text queue =
    escape_sql_literal queue.name
    ++ quote
      ∷ between queue.durable queue.exclusive queue.auto_delete
          (escape_sql_literal (get_args queue.args) ++ quote ∷ codes ");")

insert_sql_lem : (queue : MsgQueue) → insert_sql queue ≡ insert_head ++ insert_text queue
unfolding insert_sql insert_text
insert_sql_lem queue = simp append_assoc

c_str-between :
    (d e a : Bool) (rest : Bytes) → c_str (between d e a rest) ≡ between d e a (c_str rest)
unfolding c_str
c_str-between true true true rest = refl
c_str-between true true false rest = refl
c_str-between true false true rest = refl
c_str-between true false false rest = refl
c_str-between false true true rest = refl
c_str-between false true false rest = refl
c_str-between false false true rest = refl
c_str-between false false false rest = refl

c_str-head : (t : Bytes) → c_str (insert_head ++ t) ≡ insert_head ++ c_str t
unfolding c_str
c_str-head t = refl

-- The statement reaches the engine whole.
c_str-insert_sql :
    (queue : MsgQueue)
    → IsStorable queue
    → c_str (insert_sql queue) ≡ insert_head ++ insert_text queue
unfolding c_str insert_text
c_str-insert_sql queue s =
    let name = escape_sql_literal queue.name in
    let args = escape_sql_literal (get_args queue.args) in
    let tail : c_str (args ++ quote ∷ codes ");") ≡ args ++ quote ∷ codes ");" =
      c_str-append args (quote ∷ codes ");")
        (escape-Lacks (get_args queue.args) (get_args-no_nul queue.args s.encodable)) in
    ap c_str (insert_sql_lem queue)
    ∙ c_str-head (insert_text queue)
    ∙ ap (λ x. insert_head ++ x) (c_str-append name _ (escape-Lacks queue.name s.plain_name))
    ∙ ap (λ x. insert_head ++ (name ++ quote ∷ x))
        (c_str-between queue.durable queue.exclusive queue.auto_delete _
          ∙ ap (between queue.durable queue.exclusive queue.auto_delete) tail)

c_str-remove_sql :
    (name : Bytes)
    → Lacks 0 name
    → c_str (remove_sql name) ≡ remove_head ++ (escape_sql_literal name ++ quote ∷ codes ";")
unfolding c_str remove_sql
c_str-remove_sql name s =
    ap (λ x. remove_head ++ x)
      (c_str-append (escape_sql_literal name) (quote ∷ codes ";") (escape-Lacks name s))

module _ {Db : Type 0} (engine : Engine Db) (table : Db → Bytes → Option Columns) where
  -- Storing a queue under a new name succeeds, and its row is then in the table.
  pub insert-table :
      (queue : MsgQueue) (db : Db)
      → IsTable engine table
      → IsStorable queue
      → table db queue.name ≡ none
      → ((insert engine queue db).0 ≡ true)
        × ((key : Bytes)
            → table (insert engine queue db).1 key ≡ (
                if queue.name == key
                then some
                    (columns queue.durable queue.exclusive queue.auto_delete (get_args queue.args))
                else table db key))
  unfolding insert exec
  insert-table queue db i s n =
      let (code, after) =
        i.inserts (insert_text queue)
          (escape_sql_literal (get_args queue.args) ++ quote ∷ codes ");") queue.name
          (get_args queue.args) queue.durable queue.exclusive queue.auto_delete db
          (unfold insert_text in read-escape queue.name _ (omega arith))
          (read-escape (get_args queue.args) (codes ");") (omega arith)) n in
      rw (c_str-insert_sql queue s, insert, exec) (rw code refl, after)

  pub remove-table :
      (name : Bytes) (db : Db)
      → IsTable engine table
      → Lacks 0 name
      → (key : Bytes)
      → table (remove engine name db) key ≡ (if name == key then none else table db key)
  unfolding remove exec
  remove-table name db i s key =
      rw (c_str-remove_sql name s, remove, exec)
        (i.deletes (escape_sql_literal name ++ quote ∷ codes ";") name db
          (read-escape name (codes ";") (omega arith)) key)
