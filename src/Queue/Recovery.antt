-- ===== src/Queue/Recovery.antt =====
-- `recovery` of `MsgQueueMapper`: the rows that come back as queues.
use bitmq.Base.{
  ℕ, ◌≡◌, refl, ap, ◌∙◌, Bool, true, false, not, Option, none, some, [], ◌∷◌, map, Bytes, nat_eq,
  if◌then◌else◌, bytes_key, bytes_eq_iff, ◌==◌, arith,
}
use bitmq.Dict.{Dict, find, emplace, find-emplace, kept, same_self, HasDistinctKeys}
use bitmq.Args.{set_args}
use bitmq.Sql.{Engine, exec, c_str, parse_int}
use bitmq.Sql.Statement.{parse-show_bool}
use bitmq.Queue.{MsgQueue, QueueMap, select_callback, fold_rows, read_queue, recovery}
use bitmq.Queue.Table.{Columns, columns, row_of, IsTable}

-- The queue that a row alone gives.
pub read_row : Bytes → Columns → Option MsgQueue
read_row name c = find name (select_callback [] (row_of (name, c)))

-- The first one, or else the second one.
abbrev either : Option MsgQueue → Option MsgQueue → Option MsgQueue
either none b = b
either (some a) b = some a

abbrev pub bind : Option Columns → (Columns → Option MsgQueue) → Option MsgQueue
bind none f = none
bind (some c) f = f c

same_or : (o : Option MsgQueue) → o ≡ either o none
same_or none = refl
same_or (some q) = refl

kept-either : (o : Option MsgQueue) (q : MsgQueue) → kept o q ≡ either o (some q)
kept-either none q = refl
kept-either (some p) q = refl

skipped :
    (key name : Bytes) (acc : QueueMap)
    → find key acc ≡ (if name == key then either (find key acc) (find name []) else find key acc)
unfolding find
skipped key name acc = ground (arith, same_or (find key acc))

added :
    (key name : Bytes) (queue : MsgQueue) (acc : QueueMap)
    → (if name == key then kept (find name acc) queue else find key acc) ≡ (
        if name == key
        then either (find key acc) (find name (emplace name queue []))
        else find key acc)
unfolding find emplace
added key name queue acc =
    ground (arith, bytes_eq_iff name key, bytes_eq_iff name name, kept-either (find key acc) queue)

find-read_queue :
    (key name : Bytes) (x y z : Option ℕ) (args : Option Bytes) (acc : QueueMap)
    → find key (read_queue name x y z args acc) ≡ (
        if name == key
        then either (find key acc) (find name (read_queue name x y z args []))
        else find key acc)
find-read_queue key name (some x) (some y) (some z) args acc =
    let queue : MsgQueue = record {
      name = name;
      durable = not (nat_eq x 0);
      exclusive = not (nat_eq y 0);
      auto_delete = not (nat_eq z 0);
      args = elim args [ none ↦ [] | some text ↦ set_args text ];
    } in
    find-emplace name key queue acc ∙ added key name queue acc
find-read_queue key name none y z args acc = skipped key name acc
find-read_queue key name (some x) none z args acc = skipped key name acc
find-read_queue key name (some x) (some y) none args acc = skipped key name acc

-- What one row adds.
find-select_callback :
    (key name : Bytes) (c : Columns) (acc : QueueMap)
    → find key (select_callback acc (row_of (name, c)))
      ≡ (if name == key then either (find key acc) (read_row name c) else find key acc)
unfolding select_callback read_row
find-select_callback key name c acc =
    find-read_queue key name (parse_int (some c.durable)) (parse_int (some c.exclusive))
      (parse_int (some c.auto_delete)) (some c.args) acc

-- The rows of a listing: what was there before comes first.
find-fold_rows :
    (key : Bytes) (listing : Dict Bytes Columns) (acc : QueueMap)
    → HasDistinctKeys listing
    → find key (fold_rows acc (map row_of listing))
      ≡ either (find key acc) (bind (find key listing) (read_row key))
unfolding fold_rows find
find-fold_rows key [] acc d = same_or (find key acc)
find-fold_rows key ((name, c) ∷ listing) acc d =
    find-fold_rows key listing (select_callback acc (row_of (name, c))) d.1
    ∙ ap (λ x. either x (bind (find key listing) (read_row key)))
        (find-select_callback key name c acc)
    ∙ ground (arith, bytes_eq_iff name key, d.0, same_or (find key acc), same_or (read_row name c))

not-bit : (b : Bool) → not (nat_eq (if b then 1 else 0) 0) ≡ b
not-bit true = refl
not-bit false = refl

-- The row of a stored queue gives the queue, with its arguments as they are read.
pub read_row-columns :
    (name args : Bytes) (durable exclusive auto_delete : Bool)
    → read_row name (columns durable exclusive auto_delete args)
      ≡ some (record {
        name = name;
        durable = durable;
        exclusive = exclusive;
        auto_delete = auto_delete;
        args = set_args args;
      })
unfolding read_row select_callback find emplace
read_row-columns name args durable exclusive auto_delete =
    rw
      (
        parse-show_bool durable,
        parse-show_bool exclusive,
        parse-show_bool auto_delete,
        same_self name,
        not-bit durable,
        not-bit exclusive,
        not-bit auto_delete,
      )
      refl

module _ {Db : Type 0} (engine : Engine Db) (table : Db → Bytes → Option Columns) where
  -- Recovery finds under a key the queue of its row, and nothing else.
  pub recovery-table :
      (key : Bytes) (db : Db)
      → IsTable engine table
      → find key (recovery engine db).0 ≡ bind (table db key) (read_row key)
  unfolding recovery exec find c_str
  recovery-table key db i =
      let (listing, distinct, rows, finds) = (i.selects db).0 in
      ap (λ r. find key (fold_rows [] r)) rows
      ∙ find-fold_rows key listing [] distinct
      ∙ ap (λ o. bind o (read_row key)) (finds key)
