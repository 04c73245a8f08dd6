-- ===== src/Queue/Keeps.antt =====
-- Declaring and deleting a queue keeps the table in step with the durable queues.
use bitmq.Base.{
  ◌≡◌, refl, sym, ap, ◌∙◌, Bool, true, false, Option, none, some, Bytes, if◌then◌else◌, bytes_key,
  bytes_eq_iff, ◌==◌, arith, Option-cases, Bool-cases, inl, inr, subst,
}
use bitmq.Dict.{find, emplace, find-emplace, find-erase}
use bitmq.Str.Search.{Lacks}
use bitmq.Args.{get_args}
use bitmq.Sql.{Engine}
use bitmq.Queue.{MsgQueue, QueueManager, insert, declare_queue, delete_queue}
use bitmq.Queue.Table.{Columns, columns, IsTable, IsStorable, insert-table, remove-table}
use bitmq.Queue.Stored.{stored, if-true, if-false, IsStored}

module _ {Db : Type 0} (engine : Engine Db) (table : Db → Bytes → Option Columns) where
  -- A queue under a new name, and its row if it is durable.
  emplaced-IsStored :
      (queue : MsgQueue) (m : QueueManager Db) (db : Db)
      → IsStorable queue
      → find queue.name m.msg_queues ≡ none
      → ((name : Bytes)
          → table db name ≡ (if queue.name == name then stored (some queue) else table m.db name))
      → IsStored table m
      → IsStored table (record { db = db; msg_queues = emplace queue.name queue m.msg_queues })
  emplaced-IsStored queue m db g e rows s = record {
    rows = λ name.
        rows name
        ∙ ground (
          arith,
          find-emplace queue.name name queue m.msg_queues,
          e,
          s.rows name,
          bytes_eq_iff queue.name name,
        );
    good = λ name q f. ground (
      arith,
      find-emplace queue.name name queue m.msg_queues,
      e,
      s.good name q,
      g,
      f,
      bytes_eq_iff queue.name name,
    );
  }

  -- What `declareQueue` leaves in its cases.
  declared_cases :
      (b ret : Bool) (m1 m2 m3 : QueueManager Db)
      → (b ≡ true → (ret ≡ true) × IsStored table m1)
      → (b ≡ false → IsStored table m3)
      → IsStored table (
          let r : Bool × QueueManager Db =
            if b then (if ret then (true, m1) else (false, m2)) else (true, m3) in
          r.1)
  declared_cases true true m1 m2 m3 h k = (h refl).1
  declared_cases true false m1 m2 m3 h k = ground (arith, (h refl).0)
  declared_cases false ret m1 m2 m3 h k = k refl

  new-IsStored :
      (queue : MsgQueue) (m : QueueManager Db)
      → IsTable engine table
      → IsStorable queue
      → IsStored table m
      → find queue.name m.msg_queues ≡ none
      → IsStored table
          (declare_queue engine queue.name queue.durable queue.exclusive queue.auto_delete
            queue.args m).1
  unfolding declare_queue
  new-IsStored queue m i g s e =
      let unused = s.rows queue.name ∙ ap stored e in
      let (ok, rows) = insert-table engine table queue m.db i g unused in
      rw (e, declare_queue)
        (declared_cases queue.durable (insert engine queue m.db).0 _ _ _
          (λ d. (
            ok,
            emplaced-IsStored queue m (insert engine queue m.db).1 g e
                (λ name.
                  rows name
                  ∙ ap (λ r. if queue.name == name then r else table m.db name)
                      (sym (if-true queue.durable _ none d)))
                s,
          ))
          (λ d.
            emplaced-IsStored queue m m.db g e
              (λ name. ground (
                arith,
                unused,
                bytes_eq_iff queue.name name,
                if-false queue.durable
                    (some (
                      columns queue.durable queue.exclusive queue.auto_delete
                        (get_args queue.args)))
                    none d,
              ))
              s))

  pub declared-IsStored :
      (queue : MsgQueue) (m : QueueManager Db)
      → IsTable engine table
      → IsStorable queue
      → IsStored table m
      → IsStored table
          (declare_queue engine queue.name queue.durable queue.exclusive queue.auto_delete
            queue.args m).1
  unfolding declare_queue
  declared-IsStored queue m i g s = elim (Option-cases (find queue.name m.msg_queues)) [
    | inl e ↦ new-IsStored queue m i g s e
    | inr (it, e) ↦ rw (e, declare_queue) s
  ]

  pub deleted-IsStored :
      (name : Bytes) (m : QueueManager Db)
      → IsTable engine table
      → IsStored table m
      → IsStored table (delete_queue engine name m)
  unfolding delete_queue
  deleted-IsStored name m i s = elim (Option-cases (find name m.msg_queues)) [
    | inl e ↦ rw (e, delete_queue) s
    | inr (it, e) ↦
        rw (e, delete_queue)
          (record {
            rows = λ key. elim (Bool-cases it.durable) [
              | inl d ↦ rw d (
                  remove-table engine table name m.db i
                    (subst (λ n. Lacks 0 n) (s.good name it e).0 (s.good name it e).1.plain_name)
                    key
                  ∙ ground (arith, find-erase name key m.msg_queues, s.rows key))
              | inr d ↦ rw d (
                  ground (
                    arith,
                    find-erase name key m.msg_queues,
                    s.rows key,
                    s.rows name ∙ ap stored e ∙ if-false it.durable _ none d,
                    bytes_eq_iff name key,
                  ))
            ];
            good = λ key q f. s.good key q (ground (arith, find-erase name key m.msg_queues, f));
          })
  ]
