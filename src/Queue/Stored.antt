-- ===== src/Queue/Stored.antt =====
-- The durable queues of a `MsgQueueManager` and the rows of its table: what is read back when it opens.
use bitmq.Base.{
  ◌≡◌, refl, sym, ap, ap₂, ◌∙◌, Bool, true, false, Option, none, some, Bytes, if◌then◌else◌,
  bytes_key, arith, Option-cases, inl, inr, subst,
}
use bitmq.Dict.{find}
use bitmq.Args.{get_args}
use bitmq.Args.RoundTrip.{set_args-get_args}
use bitmq.Sql.{Engine, exec, c_str}
use bitmq.Queue.{create_table_sql, select_sql, MsgQueue, QueueManager, recovery, open_manager}
use bitmq.Queue.Table.{Columns, columns, IsTable, IsStorable}
use bitmq.Queue.Recovery.{bind, read_row, read_row-columns, recovery-table}

-- The queue under a key, if it is durable.
abbrev pub if_durable : Option MsgQueue → Option MsgQueue
if_durable none = none
if_durable (some queue) = if queue.durable then some queue else none

if_durable-some :
    (o : Option MsgQueue) (queue : MsgQueue) → if_durable o ≡ some queue → o ≡ some queue
if_durable-some o queue h = ground arith

-- The row of the queue under a key, if it is durable.
abbrev pub stored : Option MsgQueue → Option Columns
stored none = none
stored (some queue) =
    if queue.durable
    then some (columns queue.durable queue.exclusive queue.auto_delete (get_args queue.args))
    else none

stored-if_durable : (o : Option MsgQueue) → stored o ≡ stored (if_durable o)
stored-if_durable o = ground arith

pub if-true {ℓ} : {A : Type ℓ} (b : Bool) (x y : A) → b ≡ true → (if b then x else y) ≡ x
if-true true x y h = refl
if-true false x y h = cc

pub if-false {ℓ} : {A : Type ℓ} (b : Bool) (x y : A) → b ≡ false → (if b then x else y) ≡ y
if-false true x y h = cc
if-false false x y h = refl

some-injective {ℓ} : {A : Type ℓ} {a b : A} → some a ≡ some b → a ≡ b
some-injective h = cc

if_bind :
    (b : Bool) (c : Columns) (queue : MsgQueue) (read : Columns → Option MsgQueue)
    → read c ≡ some queue
    → bind (if b then some c else none) read ≡ (if b then some queue else none)
if_bind true c queue read h = h
if_bind false c queue read h = refl

-- A stored queue is read back as it was.
stored-read_row :
    (name : Bytes) (queue : MsgQueue)
    → queue.name ≡ name
    → IsStorable queue
    → bind (stored (some queue)) (read_row name) ≡ if_durable (some queue)
stored-read_row name queue e s =
    if_bind queue.durable
      (columns queue.durable queue.exclusive queue.auto_delete (get_args queue.args)) queue
      (read_row name)
      (read_row-columns name (get_args queue.args) queue.durable queue.exclusive queue.auto_delete
        ∙ ap₂
            (λ n a. some (record {
              name = n;
              durable = queue.durable;
              exclusive = queue.exclusive;
              auto_delete = queue.auto_delete;
              args = a;
            }))
            (sym e) (set_args-get_args queue.args s.distinct s.encodable))

module _ {Db : Type 0} (table : Db → Bytes → Option Columns) where
  -- The table has the rows of the durable queues.
  pub record IsStored (m : QueueManager Db) : Type 0 where
    pub rows : (name : Bytes) → table m.db name ≡ stored (find name m.msg_queues)
    pub good :
        (name : Bytes) (queue : MsgQueue)
        → find name m.msg_queues ≡ some queue
        → (queue.name ≡ name) × IsStorable queue

module _ {Db : Type 0} (engine : Engine Db) (table : Db → Bytes → Option Columns) where
  recovers :
      (m : QueueManager Db) (db : Db)
      → IsTable engine table
      → IsStored table m
      → ((name : Bytes) → table db name ≡ table m.db name)
      → (name : Bytes) → find name (recovery engine db).0 ≡ if_durable (find name m.msg_queues)
  recovers m db i s same name = elim (Option-cases (find name m.msg_queues)) [
    | inl e ↦
        recovery-table engine table name db i
        ∙ ap (λ o. bind o (read_row name)) (same name ∙ s.rows name ∙ ap stored e)
        ∙ ap if_durable (sym e)
    | inr (queue, e) ↦
        recovery-table engine table name db i
        ∙ ap (λ o. bind o (read_row name)) (same name ∙ s.rows name ∙ ap stored e)
        ∙ stored-read_row name queue (s.good name queue e).0 (s.good name queue e).1
        ∙ ap if_durable (sym e)
  ]

  pub opens :
      (db : Db)
      → IsTable engine table
      → open_manager engine db
        ≡ some (record {
          db = (recovery engine (engine create_table_sql db).db).1;
          msg_queues = (recovery engine (engine create_table_sql db).db).0;
        })
  unfolding open_manager exec c_str
  opens db i = rw ((i.creates db).0, open_manager, exec, c_str) refl

  recovery-db : (db : Db) → (recovery engine db).1 ≡ (engine select_sql db).db
  unfolding recovery exec c_str
  recovery-db db = refl

  -- A restart brings the durable queues back, and keeps what ties the table to them.
  pub reopened :
      (m m' : QueueManager Db)
      → IsTable engine table
      → IsStored table m
      → open_manager engine m.db ≡ some m'
      → IsStored table m'
        × ((name : Bytes) → find name m'.msg_queues ≡ if_durable (find name m.msg_queues))
  reopened m m' i s h =
      let db1 = (engine create_table_sql m.db).db in
      let back = recovers m db1 i s (i.creates m.db).1 in
      let again : QueueManager Db = record {
        db = (recovery engine db1).1;
        msg_queues = (recovery engine db1).0;
      } in
      let same : again ≡ m' = some-injective (sym (opens m.db i) ∙ h) in
      subst
        (λ x.
          IsStored table x
          × ((name : Bytes) → find name x.msg_queues ≡ if_durable (find name m.msg_queues)))
        same
        (
          record {
            rows = λ name.
                ap (λ d. table d name) (recovery-db db1)
                ∙ (i.selects db1).1 name
                ∙ (i.creates m.db).1 name
                ∙ s.rows name
                ∙ stored-if_durable (find name m.msg_queues)
                ∙ ap stored (sym (back name));
            good = λ name queue f.
                s.good name queue
                  (if_durable-some (find name m.msg_queues) queue (sym (back name) ∙ f));
          },
          back,
        )
