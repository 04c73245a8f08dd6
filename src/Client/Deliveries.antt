-- ===== src/Client/Deliveries.antt =====
-- The deliveries that arrive for a channel, before and after it subscribes.
use bitmq.Base.{
  ℕ, ◌≡◌, refl, sym, ap, ◌∙◌, Bool, true, false, Option, none, some, List, [], ◌∷◌, ◌++◌, Bytes,
  bytes_key, bytes_eq, if◌then◌else◌, append-nil, Option-cases, Bool-cases, inl, inr,
}
use bitmq.Dict.{find}
use bitmq.Message.{BasicProperties}
use bitmq.Proto
use bitmq.Proto.{Ids, Request, push}
use bitmq.ThreadPool
use bitmq.ThreadPool.{Pool, next}
use bitmq.Client.{Ptr, ConsumeResponse, Consumer, Called, Client, consume}
use bitmq.Client.Operations.{set_consumer}
use bitmq.Client.Connection.{on_message, consume_response, run_task, basic_response}
use bitmq.Client.Answers.{answer, settle}

module _ {C : Type 0} where
  -- The callback that a delivery calls on a channel with this consumer, if any.
  abbrev pub callbacks : Option (Consumer C) → Bytes → Bytes → BasicProperties → List (Called C)
  callbacks none tag body properties = []
  callbacks (some k) tag body properties =
      if bytes_eq k.tag tag
      then record { callback = k.callback; tag = tag; properties = properties; body = body } ∷ []
      else []

  consume-callbacks :
      (p : Ptr) (cid tag body : Bytes) (properties : BasicProperties) (c : Client C)
      → (consume p
          (record { cid = cid; consumer_tag = tag; body = body; properties = properties })
          c).called
        ≡ c.called ++ callbacks (c.heap p).consumer tag body properties
  unfolding consume
  consume-callbacks p cid tag body properties c = elim (Option-cases (c.heap p).consumer) [
    | inl e ↦ rw (e, consume, callbacks) (sym (append-nil c.called))
    | inr (k, e) ↦ elim (Bool-cases (bytes_eq k.tag tag)) [
      | inl t ↦ rw (e, consume, callbacks) (rw t refl)
      | inr t ↦ rw (e, consume, callbacks) (rw t (sym (append-nil c.called)))
    ]
  ]

  run_task-consume :
      (p : Ptr) (message : ConsumeResponse) (c : Client C)
      → c.pool.taskpool ≡ []
      → run_task
          (record c { pool = record c.pool { taskpool = c.pool.taskpool ++ (p, message) ∷ [] } })
        ≡ consume p message (record c { pool = record c.pool { taskpool = [] } })
  unfolding run_task ThreadPool.next
  run_task-consume p message c e = rw e refl

  -- A delivery for a channel that the manager knows, while the pool has no other task: it becomes a task,
  -- and the thread that runs it calls the callback of the channel's consumer, if there is one and the tags
  -- agree, and no other one.
  pub delivery-called :
      (p : Ptr) (cid tag body : Bytes) (properties : BasicProperties) (c : Client C)
      → find cid c.channels ≡ some p
      → c.pool.stop ≡ false
      → c.pool.taskpool ≡ []
      → (c1 : Client C) × (on_message (push cid tag body properties) c ≡ some c1)
        × ((run_task c1).called ≡ c.called ++ callbacks (c.heap p).consumer tag body properties)
  unfolding on_message consume_response run_task ThreadPool.push ThreadPool.next
  delivery-called p cid tag body properties c f s e =
      let message : ConsumeResponse = record {
        cid = cid;
        consumer_tag = tag;
        body = body;
        properties = properties;
      } in
      let c1 : Client C = record c {
        pool = record c.pool { taskpool = c.pool.taskpool ++ (p, message) ∷ [] };
      } in
      (
        c1,
        rw (f, on_message, consume_response) (rw (s, ThreadPool.push) refl),
        ap (λ x. x.called) (run_task-consume p message c e)
            ∙ consume-callbacks p cid tag body properties
                (record c1 { pool = record c.pool { taskpool = [] } }),
      )

module _ {C : Type 0} (uuid : ℕ → Bytes) where
  -- The consumer that a subscription makes.
  abbrev pub made : Bytes → Bytes → Bool → C → Consumer C
  made tag qname auto_ack cb = record {
    tag = tag;
    qname = qname;
    auto_ack = auto_ack;
    callback = cb;
  }

  -- The client's state once the answer to its subscription has arrived and the call has gone on.
  abbrev pub subscribed_after : Ptr → Bytes → Bytes → Consumer C → Client C → Client C
  subscribed_after p rid cid k c =
      set_consumer p (some k) (settle p rid (basic_response (answer rid cid true) c))

  abbrev pub refused_after : Ptr → Bytes → Bytes → Client C → Client C
  refused_after p rid cid c = settle p rid (basic_response (answer rid cid false) c)
