-- ===== src/Queue/Restart.antt =====
-- What a restart brings back of a `MsgQueueManager`.
use bitmq.Base.{◌≡◌, Option, none, some, [], Bytes, bytes_key, arith}
use bitmq.Dict.{find}
use bitmq.Sql.{Engine}
use bitmq.Queue.{MsgQueue, QueueManager, open_manager, declare_queue, delete_queue, select_queue}
use bitmq.Queue.Table.{Columns, IsTable, IsStorable}
use bitmq.Queue.Stored.{if_durable, IsStored, opens, reopened}
use bitmq.Queue.Keeps.{declared-IsStored, deleted-IsStored}

module _ {Db : Type 0} (engine : Engine Db) (table : Db → Bytes → Option Columns) where
  -- The states that a manager comes to from an empty table, restarts among its steps.
  pub data Reachable : QueueManager Db → Type 0 where
    opened :
        (db : Db) (m : QueueManager Db)
        → ((name : Bytes) → table db name ≡ none)
        → open_manager engine db ≡ some m
        → Reachable m
    declared :
        (queue : MsgQueue) (m : QueueManager Db)
        → Reachable m
        → IsStorable queue
        → Reachable
            (declare_queue engine queue.name queue.durable queue.exclusive queue.auto_delete
              queue.args m).1
    deleted :
        (name : Bytes) (m : QueueManager Db) → Reachable m → Reachable (delete_queue engine name m)
    restarted :
        (m m' : QueueManager Db) → Reachable m → open_manager engine m.db ≡ some m' → Reachable m'

  Reachable-IsStored : (m : QueueManager Db) → IsTable engine table → Reachable m → IsStored table m
  Reachable-IsStored m i (opened db _ empty h) =
      let fresh : QueueManager Db = record { db = db; msg_queues = [] } in
      (reopened engine table fresh m i
        (unfold find in record { rows = empty; good = λ name queue f. ground arith }) h).0
  Reachable-IsStored m' i (declared queue m r g) =
      declared-IsStored engine table queue m i g (Reachable-IsStored m i r)
  Reachable-IsStored m' i (deleted name m r) =
      deleted-IsStored engine table name m i (Reachable-IsStored m i r)
  Reachable-IsStored m i (restarted m0 _ r h) =
      (reopened engine table m0 m i (Reachable-IsStored m0 i r) h).0

  -- Over an engine that keeps its table: after any declarations, deletions and restarts from an empty
  -- table, a restart succeeds, and it brings back exactly the durable queues, each with its flags and its
  -- arguments. The queues' names hold no NUL, and their arguments are bytes under distinct non-empty keys.
  pub restart-select_queue :
      (m : QueueManager Db) (name : Bytes)
      → IsTable engine table
      → Reachable m
      → (m' : QueueManager Db) × (open_manager engine m.db ≡ some m')
        × (select_queue name m' ≡ if_durable (select_queue name m))
  unfolding select_queue
  restart-select_queue m name i r =
      let stored_m = Reachable-IsStored m i r in
      let opened_m = opens engine table m.db i in
      (_, opened_m, (reopened engine table m _ i stored_m opened_m).1 name)
