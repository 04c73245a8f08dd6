-- ===== src/Channel/Publish.antt =====
-- `Channel::basicPublish`: which queues a message goes to.
use bitmq.Base.{
  ℕ, ◌≡◌, ◌⊎◌, refl, sym, ap, ◌∙◌, true, false, Option, none, some, List, [], ◌∷◌, ◌++◌, Bytes,
  if◌then◌else◌, append_assoc, append-nil, bytes_key, Option-cases, inl, inr, Bool-cases,
}
use bitmq.Router.{ExchangeType, route}
use bitmq.Sql.{Engine}
use bitmq.Message.{BasicProperties, Wire}
use bitmq.Exchange.{Exchange}
use bitmq.Binding.{MsgQueueBindingMap}
use bitmq.Host
use bitmq.Proto.{Ids, common}
use bitmq.Channel.{Channel, Shared, deliver, deliver_all, basic_publish, routing_key_of}

-- The queues of an exchange whose binding the routing key meets.
abbrev pub routed : ExchangeType → Bytes → MsgQueueBindingMap → List Bytes
routed type routing_key [] = []
routed type routing_key ((qname, binding) ∷ mqbm) =
    let rest = routed type routing_key mqbm in
    if route type routing_key binding.binding_key then qname ∷ rest else rest

module _ {Db : Type 0} (engine : Engine Db) (wire : Wire) (uuid : ℕ → Bytes) where
  deliver_all_lem :
      (type : ExchangeType) (routing_key : Bytes) (properties : Option BasicProperties)
      (body : Bytes) (mqbm : MsgQueueBindingMap) (s : Shared Db)
      → let s' = deliver_all engine wire uuid type routing_key properties body mqbm s in
        (s'.tasks ≡ s.tasks ++ routed type routing_key mqbm)
        × (s'.sent ≡ s.sent)
        × (s'.consumers ≡ s.consumers)
  unfolding deliver_all deliver
  deliver_all_lem type routing_key properties body [] s = (sym (append-nil s.tasks), refl, refl)
  deliver_all_lem type routing_key properties body ((q, b) ∷ mqbm) s =
      elim (Bool-cases (route type routing_key b.binding_key)) [
        | inl e ↦
            let (ts, se, co) =
              deliver_all_lem type routing_key properties body mqbm
                (deliver engine wire uuid q properties body s) in
            rw (e, deliver_all) (ts ∙ append_assoc s.tasks (q ∷ []) _, se, co)
        | inr e ↦ rw (e, deliver_all) (deliver_all_lem type routing_key properties body mqbm s)
      ]

  -- What a publication comes to: an answer of false and nothing else, or an answer of true and the
  -- tasks of the pool.
  abbrev pub Published : Ids → Bytes → Bytes → Option BasicProperties → Channel → Shared Db → Type 0
  Published req ename body properties ch s =
      let s' = basic_publish engine wire uuid req ename body properties ch s in
      ((Host.select_exchange ename s.host ≡ none)
        × (s' ≡ record s { sent = s.sent ++ (ch.conn, common req.rid req.cid false) ∷ [] }))
      ⊎ ((ep : Exchange) × (Host.select_exchange ename s.host ≡ some ep)
          × ((s'.sent ≡ s.sent ++ (ch.conn, common req.rid req.cid true) ∷ [])
              × (s'.consumers ≡ s.consumers)
              × (s'.tasks
                  ≡ s.tasks
                    ++ routed ep.type (routing_key_of engine wire uuid properties)
                        (Host.exchange_bindings ename s.host))))

  -- Publishing to an exchange that is there answers true, and the pool gets one task for each queue
  -- whose binding the routing key meets, in the order of the bindings, and no other one. Publishing
  -- to an exchange that is not there answers false and changes nothing else.
  pub publish-routed :
      (req : Ids) (ename body : Bytes) (properties : Option BasicProperties) (ch : Channel)
      (s : Shared Db)
      → Published req ename body properties ch s
  unfolding basic_publish
  publish-routed req ename body properties ch s =
      elim (Option-cases (Host.select_exchange ename s.host)) [
        | inl n ↦ inl (n, rw (n, basic_publish) refl)
        | inr (ep, f) ↦
            let (ts, se, co) =
              deliver_all_lem ep.type (routing_key_of engine wire uuid properties) properties body
                (Host.exchange_bindings ename s.host) s in
            inr (
              ep,
              f,
              rw (f, basic_publish)
                  (ap (λ x. x ++ (ch.conn, common req.rid req.cid true) ∷ []) se, co, ts),
            )
      ]
