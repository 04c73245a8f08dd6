-- ===== src/Tests/Database.antt =====
-- An engine that reads the statements of mqserver/mq_queue.hpp as SQL does and keeps their table, and a
-- manager over it.
use bitmq.Base.{
  ◌≡◌, refl, ◌∙◌, Bool, true, false, Option, none, some, [], ◌∷◌, ◌++◌, map, Bytes, codes, nat_eq,
  bytes_eq, bytes_key, if◌then◌else◌, arith,
}
use bitmq.Dict.{
  Dict, find, emplace, erase, find-emplace, find-erase, HasDistinctKeys, emplace-HasDistinctKeys,
  erase-HasDistinctKeys,
}
use bitmq.Sql.{Engine, Reply, sqlite_ok, exec, c_str}
use bitmq.Sql.Literal.{read_literal}
use bitmq.Queue.{
  MsgQueue, QueueManager, create_table_sql, select_sql, open_manager, declare_queue, select_queue,
  recovery, fold_rows,
}
use bitmq.Queue.Table.{
  Columns, columns, row_of, insert_head, remove_head, between, IsTable, IsStorable,
}
use bitmq.Queue.Stored.{if_durable}
use bitmq.Queue.Restart.{Reachable, opened, declared, restart-select_queue}

-- The rows by their primary key.
abbrev Table : Type 0
Table = (rows : Dict Bytes Columns) × HasDistinctKeys rows

abbrev row_at : Table → Bytes → Option Columns
row_at db name = find name db.0

strip : Bytes → Bytes → Option Bytes
strip [] s = some s
strip (a ∷ p) [] = none
strip (a ∷ p) (b ∷ s) = let rest = strip p s in if nat_eq a b then rest else none

abbrev and : {A B : Type 0} → Option A → (A → Option B) → Option B
and none f = none
and (some a) f = f a

read_bit : Bytes → Option (Bool × Bytes)
read_bit [] = none
read_bit (c ∷ s) =
    if nat_eq c b'1' then some (true, s) else if nat_eq c b'0' then some (false, s) else none

-- The three numbers between the literals of an insertion.
read_between : Bytes → Option (Bool × Bool × Bool × Bytes)
unfolding strip read_bit
read_between s = and (strip (codes ", ") s) (λ s1. and (read_bit s1) (λ r1.
    and (strip (codes ", ") r1.1) (λ s2. and (read_bit s2) (λ r2.
      and (strip (codes ", ") r2.1) (λ s3.
        and (read_bit s3)
          (λ r3. and (strip (codes ", '") r3.1) (λ t. some (r1.0, r2.0, r3.0, t))))))))

read_insert : Bytes → Option (Bytes × Columns)
unfolding read_between
read_insert t = and (read_literal [] t) (λ r. and (read_between r.1) (λ b.
    and (read_literal [] b.3)
      (λ l. if bytes_eq l.1 (codes ");") then some (r.0, columns b.0 b.1 b.2 l.0) else none)))

read_between_lem : (d e a : Bool) (t : Bytes) → read_between (between d e a t) ≡ some (d, e, a, t)
unfolding read_between
read_between_lem true true true t = refl
read_between_lem true true false t = refl
read_between_lem true false true t = refl
read_between_lem true false false t = refl
read_between_lem false true true t = refl
read_between_lem false true false t = refl
read_between_lem false false true t = refl
read_between_lem false false false t = refl

fails : Table → Reply Table
fails db = record { code = 1; rows = []; db = db }

inserted : Bytes → Columns → Table → Reply Table
unfolding fails
inserted name c db = elim (find name db.0) [
  | some taken ↦ fails db
  | none ↦ record {
    code = sqlite_ok;
    rows = [];
    db = (emplace name c db.0, emplace-HasDistinctKeys name c db.0 db.1);
  }
]

erased : Bytes → Table → Reply Table
erased name db = record {
  code = sqlite_ok;
  rows = [];
  db = (erase name db.0, erase-HasDistinctKeys name db.0 db.1);
}

engine : Engine Table
unfolding inserted erased read_insert strip fails
engine sql db = elim (strip insert_head sql) [
  | some t ↦ elim (read_insert t) [ none ↦ fails db | some (name, c) ↦ inserted name c db ]
  | none ↦ elim (strip remove_head sql) [
    | some t ↦ elim (read_literal [] t) [ none ↦ fails db | some (name, rest) ↦ erased name db ]
    | none ↦
        if bytes_eq sql select_sql
        then record { code = sqlite_ok; rows = map row_of db.0; db = db }
        else record { code = sqlite_ok; rows = []; db = db }
  ]
]

read_insert_lem :
    (t t' name args : Bytes) (d e a : Bool)
    → read_literal [] t ≡ some (name, between d e a t')
    → read_literal [] t' ≡ some (args, codes ");")
    → read_insert t ≡ some (name, columns d e a args)
unfolding read_insert bytes_eq
read_insert_lem t t' name args d e a h h' =
    rw (h, read_insert) (rw (read_between_lem d e a t') (rw h' refl))

engine-insert :
    (t t' name args : Bytes) (d e a : Bool) (db : Table)
    → read_literal [] t ≡ some (name, between d e a t')
    → read_literal [] t' ≡ some (args, codes ");")
    → row_at db name ≡ none
    → engine (insert_head ++ t) db ≡ record {
      code = sqlite_ok;
      rows = [];
      db = (
        emplace name (columns d e a args) db.0,
        emplace-HasDistinctKeys name (columns d e a args) db.0 db.1,
      );
    }
unfolding engine strip inserted
engine-insert t t' name args d e a db h h' n =
    rw (read_insert_lem t t' name args d e a h h', engine) (rw (n, inserted) refl)

engine-remove :
    (t name : Bytes) (db : Table)
    → read_literal [] t ≡ some (name, codes ";")
    → engine (remove_head ++ t) db ≡ erased name db
unfolding engine strip
engine-remove t name db h = rw (h, engine) refl

engine-select :
    (db : Table)
    → engine select_sql db ≡ record { code = sqlite_ok; rows = map row_of db.0; db = db }
unfolding engine strip bytes_eq
engine-select db = refl

engine-create :
    (db : Table) → engine create_table_sql db ≡ record { code = sqlite_ok; rows = []; db = db }
unfolding engine strip bytes_eq
engine-create db = refl

engine-IsTable : IsTable engine row_at
unfolding erased
engine-IsTable = record {
  creates = λ db. rw (engine-create db) (refl, λ name. refl);
  inserts = λ t t' name args d e a db h h' n.
      rw (engine-insert t t' name args d e a db h h' n)
        (refl, λ key. find-emplace name key (columns d e a args) db.0 ∙ ground (arith, n));
  deletes = λ t name db h key. rw (engine-remove t name db h) (find-erase name key db.0);
  selects = λ db. rw (engine-select db) ((db.0, db.1, refl, λ name. refl), λ name. refl);
}

abbrev empty : Table
empty = ([], tt)

abbrev no_queues : QueueManager Table
no_queues = record { db = empty; msg_queues = [] }

abbrev quoted_queue : MsgQueue
quoted_queue = record {
  name = codes "q'1";
  durable = true;
  exclusive = false;
  auto_delete = true;
  args = (codes "k", codes "v&") ∷ [];
}

quoted_queue-IsStorable : IsStorable quoted_queue
unfolding find
quoted_queue-IsStorable = record {
  plain_name = (omega arith, (omega arith, (omega arith, tt)));
  encodable = (((omega arith, tt), (omega arith, (omega arith, tt)), λ h. cc), tt);
  distinct = (refl, tt);
}

no_queues-Reachable : Reachable engine row_at no_queues
unfolding find open_manager recovery exec c_str fold_rows engine strip bytes_eq
no_queues-Reachable = opened empty no_queues (λ name. refl) refl

abbrev one_queue : QueueManager Table
one_queue =
    (declare_queue engine (codes "q'1") true false true ((codes "k", codes "v&") ∷ []) no_queues).1

restart-select_queue_example :
    (m' : QueueManager Table) × (open_manager engine one_queue.db ≡ some m')
    × (select_queue (codes "q'1") m' ≡ if_durable (select_queue (codes "q'1") one_queue))
restart-select_queue_example =
    restart-select_queue engine row_at one_queue (codes "q'1") engine-IsTable
      (declared quoted_queue no_queues no_queues-Reachable quoted_queue-IsStorable)
