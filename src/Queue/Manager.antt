-- ===== src/Queue/Manager.antt =====
-- The operations of `MsgQueueManager` seen through `selectQueue`.
use bitmq.Base.{
  ◌≡◌, Bool, ◌&&◌, ◌||◌, not, Option, none, some, arith, Bytes, bytes_key, ◌==◌, if◌then◌else◌,
}
use bitmq.Dict.{kept, find-erase, find-emplace}
use bitmq.Args.{Args}
use bitmq.Sql.{Engine, exec}
use bitmq.Queue.{
  MsgQueue, QueueManager, select_queue, declare_queue, delete_queue, insert_sql, remove_sql, insert,
  remove, exists,
}

module _ {Db : Type 0} (engine : Engine Db) where
  -- Declaring a queue, whatever the database answers: if the call succeeds, the name has the queue that
  -- it had before or else the new one; if it fails, and for every other name, nothing changes.
  pub declare-select_queue :
      (name : Bytes) (durable exclusive auto_delete : Bool) (args : Args) (m : QueueManager Db)
      (name' : Bytes)
      → select_queue name' (declare_queue engine name durable exclusive auto_delete args m).1 ≡ (
          if (declare_queue engine name durable exclusive auto_delete args m).0 && name == name'
          then kept (select_queue name m) (record {
            name = name;
            durable = durable;
            exclusive = exclusive;
            auto_delete = auto_delete;
            args = args;
          })
          else select_queue name' m)
  unfolding select_queue declare_queue
  declare-select_queue name durable exclusive auto_delete args m name' =
      let queue : MsgQueue = record {
        name = name;
        durable = durable;
        exclusive = exclusive;
        auto_delete = auto_delete;
        args = args;
      } in
      ground (arith, bytes_key.same_iff name name', find-emplace name name' queue m.msg_queues)

  -- Deleting a queue takes that one away and no other one.
  pub delete-select_queue :
      (name : Bytes) (m : QueueManager Db) (name' : Bytes)
      → select_queue name' (delete_queue engine name m)
        ≡ (if name == name' then none else select_queue name' m)
  unfolding select_queue delete_queue
  delete-select_queue name m name' =
      ground (arith, bytes_key.same_iff name name', find-erase name name' m.msg_queues)

  -- A queue is accepted where its name is taken, or it is not durable, or the database takes the
  -- statement.
  abbrev pub accepts : MsgQueue → QueueManager Db → Bool
  accepts queue m =
      exists queue.name m || (not queue.durable || (exec engine (insert_sql queue) m.db).0)

  -- The database after the declaration, and after the deletion.
  abbrev pub asked : MsgQueue → QueueManager Db → Db
  asked queue m =
      if exists queue.name m || not queue.durable
      then m.db
      else (exec engine (insert_sql queue) m.db).2

  abbrev pub told : Option MsgQueue → Bytes → Db → Db
  told none name db = db
  told (some it) name db = if it.durable then (exec engine (remove_sql name) db).2 else db

  declare_queue-accepts :
      (queue : MsgQueue) (m : QueueManager Db)
      → let r =
          declare_queue engine queue.name queue.durable queue.exclusive queue.auto_delete queue.args
            m in
        (r.0 ≡ accepts queue m) × (r.1.db ≡ asked queue m)
  unfolding declare_queue exists insert
  declare_queue-accepts queue m = ground arith

  delete_queue-told :
      (name : Bytes) (m : QueueManager Db)
      → (delete_queue engine name m).db ≡ told (select_queue name m) name m.db
  unfolding delete_queue select_queue remove
  delete_queue-told name m = ground arith

  -- What a declaration and a deletion come to for a name.
  abbrev pub Managed : MsgQueue → QueueManager Db → Bytes → Type 0
  Managed queue m name' =
      let r =
        declare_queue engine queue.name queue.durable queue.exclusive queue.auto_delete queue.args
          m in
      let m' = delete_queue engine queue.name m in
      (r.0 ≡ accepts queue m)
      × (r.1.db ≡ asked queue m)
      × (select_queue name' r.1 ≡ (
          if r.0 && queue.name == name'
          then kept (select_queue queue.name m) queue
          else select_queue name' m))
      × (m'.db ≡ told (select_queue queue.name m) queue.name m.db)
      × (select_queue name' m' ≡ (if queue.name == name' then none else select_queue name' m))

  -- Declaring a queue succeeds exactly where the name is taken, or the queue is not durable, or the
  -- database takes the statement that stores it; this statement, and no other one, is run where the name is
  -- free and the queue durable. If the call succeeds, the name has what it had before or else the new
  -- queue; if it fails, and for every other name, nothing changes in memory. Deleting takes the queue of
  -- that name away and no other one, and runs the statement that removes it where it was durable.
  pub select_queue_after :
      (queue : MsgQueue) (m : QueueManager Db) (name' : Bytes) → Managed queue m name'
  select_queue_after queue m name' =
      let (answer, db) = declare_queue-accepts queue m in
      (
        answer,
        db,
        declare-select_queue queue.name queue.durable queue.exclusive queue.auto_delete queue.args m
            name',
        delete_queue-told queue.name m,
        delete-select_queue queue.name m name',
      )
