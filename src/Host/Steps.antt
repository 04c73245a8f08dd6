-- ===== src/Host/Steps.antt =====
-- The calls on a host as steps, and what they keep.
use bitmq.Base.{
  ◌≡◌, refl, Bool, true, Option, none, some, arith, Bytes, bytes_key, Option-cases, inl, inr, subst,
}
use bitmq.Dict.{find}
use bitmq.Args.{Args}
use bitmq.Router.{ExchangeType}
use bitmq.Sql.{Engine}
use bitmq.Message.{Wire, BasicProperties}
use bitmq.Exchange
use bitmq.Exchange.{ExchangeMap}
use bitmq.Queue
use bitmq.Queue.{QueueMap}
use bitmq.Queue.Manager.{declare-select_queue}
use bitmq.Binding
use bitmq.Binding.{BindingMap, lookup}
use bitmq.Binding.Manager
use bitmq.MessageManager
use bitmq.Host
use bitmq.Host.{VirtualHost, emp, mqmp, bmp, exists_exchange, exists_queue, exists_binding}
use bitmq.Host.Links.{
  is_some, IsSound, linked_more, linked_less, declare_exchange-IsSound, delete_exchange-IsSound,
  delete_queue-IsSound,
}

-- What holds of a result, if there is one.
abbrev After {ℓ} : {A : Type ℓ} → (A → Type 0) → Option A → Type 0
After P none = Unit
After P (some a) = P a

module _ {Db : Type 0} (engine : Engine Db) (wire : Wire) where
  pub data Step (h : VirtualHost Db) : VirtualHost Db → Type 0 where
    exchange_declared :
        (name : Bytes) (type : ExchangeType) (durable auto_delete : Bool) (args : Args)
        → Step h (Host.declare_exchange engine wire name type durable auto_delete args h).1
    exchange_deleted : (name : Bytes) → Step h (Host.delete_exchange engine wire name h)
    queue_declared :
        (name : Bytes) (durable exclusive auto_delete : Bool) (args : Args) (ret : Bool)
        (h' : VirtualHost Db)
        → Host.declare_queue engine wire name durable exclusive auto_delete args h ≡ some (ret, h')
        → Step h h'
    queue_deleted : (name : Bytes) → Step h (Host.delete_queue engine wire name h)
    bound : (ename qname key : Bytes) → Step h (Host.bind engine wire ename qname key h).1
    unbound : (ename qname : Bytes) → Step h (Host.un_bind engine wire ename qname h)
    published :
        (qname : Bytes) (bp : Option BasicProperties) (body uuid : Bytes)
        → Step h (Host.basic_publish engine wire qname bp body uuid h).1
    consumed : (qname : Bytes) → Step h (Host.basic_consume qname h).1
    acknowledged : (qname msgid : Bytes) → Step h (Host.basic_ack engine wire qname msgid h)
    cleared : (h' : VirtualHost Db) → Host.clear engine wire h ≡ some h' → Step h h'

  pub data Reach (h : VirtualHost Db) : VirtualHost Db → Type 0 where
    start : Reach h h
    next : (h1 h2 : VirtualHost Db) → Reach h h1 → Step h1 h2 → Reach h h2

  declare_queue-After :
      (name : Bytes) (durable exclusive auto_delete : Bool) (args : Args) (h : VirtualHost Db)
      → IsSound h
      → After
          (λ r. IsSound (r.1))
          (Host.declare_queue engine wire name durable exclusive auto_delete args h)
  unfolding Host.declare_queue Queue.select_queue
  declare_queue-After name durable exclusive auto_delete args h (t, l) =
      elim (Option-cases (MessageManager.init_queue_message wire name h.messages h.fs)) [
        | inl n ↦ rw (n, Host.declare_queue) tt
        | inr (r, f) ↦
            let h1 = Host.with_mmp r h in
            rw (f, Host.declare_queue)
              (
                t,
                linked_more h.exchanges h.exchanges h.msg_queues
                    (Queue.declare_queue engine name durable exclusive auto_delete args
                      (mqmp h1)).1.msg_queues
                    h.bindings l (λ e s. s)
                    (λ q s. ground (
                      arith,
                      s,
                      bytes_key.same_iff name q,
                      declare-select_queue engine name durable exclusive auto_delete args (mqmp h1)
                          q,
                    )),
              )
      ]

  bind_found :
      (ename qname key : Bytes) (durable : Bool) (h : VirtualHost Db)
      → IsSound h
      → is_some (find ename h.exchanges) ≡ true
      → is_some (find qname h.msg_queues) ≡ true
      → IsSound (Host.with_bmp (Binding.bind engine ename qname key durable (bmp h)).1 h)
  unfolding Binding.get_binding
  bind_found ename qname key durable h (t, l) he hq = (
    Manager.bind-IsTidy engine ename qname key durable (bmp h) t,
    λ e q s. ground (
      arith,
      l e q,
      he,
      hq,
      s,
      bytes_key.same_iff ename e,
      bytes_key.same_iff qname q,
      Manager.bound-get_binding engine ename qname key durable (bmp h) e q,
    ),
  )

  bind-IsSound :
      (ename qname key : Bytes) (h : VirtualHost Db)
      → IsSound h
      → IsSound (Host.bind engine wire ename qname key h).1
  unfolding Host.bind Exchange.select_exchange Queue.select_queue
  bind-IsSound ename qname key h s = elim (Option-cases (find ename h.exchanges)) [
    | inl n ↦ rw (n, Host.bind) s
    | inr (ep, f) ↦ elim (Option-cases (find qname h.msg_queues)) [
      | inl n ↦ rw (f, n, Host.bind) s
      | inr (mqp, g) ↦
          rw (f, g, Host.bind) (bind_found ename qname key _ h s (rw f refl) (rw g refl))
    ]
  ]

  un_bind-IsSound :
      (ename qname : Bytes) (h : VirtualHost Db)
      → IsSound h
      → IsSound (Host.un_bind engine wire ename qname h)
  unfolding Host.un_bind Binding.get_binding
  un_bind-IsSound ename qname h (t, l) = (
    Manager.un_bind-IsTidy engine ename qname (bmp h) t,
    linked_less h.exchanges h.msg_queues h.bindings _ l
        (λ e q s. ground (arith, s, Manager.un_bind-get_binding engine ename qname (bmp h) e q)),
  )

  basic_publish-IsSound :
      (qname : Bytes) (bp : Option BasicProperties) (body uuid : Bytes) (h : VirtualHost Db)
      → IsSound h
      → IsSound (Host.basic_publish engine wire qname bp body uuid h).1
  unfolding Host.basic_publish
  basic_publish-IsSound qname bp body uuid h s =
      elim (Option-cases (Queue.select_queue qname (mqmp h))) [
        | inl n ↦ rw (n, Host.basic_publish) s
        | inr (mqp, f) ↦ rw (f, Host.basic_publish) s
      ]

  clear-After : (h : VirtualHost Db) → After IsSound (Host.clear engine wire h)
  unfolding Host.clear Queue.clear Binding.clear Exchange.clear lookup find
  clear-After h = elim (Option-cases (Exchange.remove_table engine h.db)) [
    | inl n ↦ rw (n, Host.clear, Exchange.clear) tt
    | inr (db, f) ↦ rw (f, Host.clear, Exchange.clear) ((tt, tt), λ e q s. cc)
  ]

  Step-IsSound : (h h' : VirtualHost Db) → Step h h' → IsSound h → IsSound h'
  unfolding Host.basic_consume Host.basic_ack
  Step-IsSound h h' (exchange_declared name type durable auto_delete args) s =
      declare_exchange-IsSound engine wire name type durable auto_delete args h s
  Step-IsSound h h' (exchange_deleted name) s = delete_exchange-IsSound engine wire name h s
  Step-IsSound h h' (queue_declared name durable exclusive auto_delete args ret h'' e) s =
      subst (After (λ r. IsSound (r.1))) e
        (declare_queue-After name durable exclusive auto_delete args h s)
  Step-IsSound h h' (queue_deleted name) s = delete_queue-IsSound engine wire name h s
  Step-IsSound h h' (bound ename qname key) s = bind-IsSound ename qname key h s
  Step-IsSound h h' (unbound ename qname) s = un_bind-IsSound ename qname h s
  Step-IsSound h h' (published qname bp body uuid) s = basic_publish-IsSound qname bp body uuid h s
  Step-IsSound h h' (consumed qname) s = s
  Step-IsSound h h' (acknowledged qname msgid) s = s
  Step-IsSound h h' (cleared h'' e) s = subst (After IsSound) e (clear-After h)

  -- Whatever calls a sound host serves, and whatever the database and the files answer, it stays sound:
  -- every binding joins an exchange and a queue that are there, and none is kept twice.
  pub Reach-IsSound : (h h' : VirtualHost Db) → IsSound h → Reach h h' → IsSound h'
  Reach-IsSound h h' s start = s
  Reach-IsSound h h' s (next h1 h2 r step) = Step-IsSound h1 h2 step (Reach-IsSound h h1 s r)
