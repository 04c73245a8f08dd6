-- ===== src/Host/Links.antt =====
-- The links between the managers of a host, mqserver/mq_host.hpp: what joins what.
use bitmq.Base.{
  ◌≡◌, Bool, true, false, Option, none, some, arith, Bytes, bytes_key, ◌==◌, if◌then◌else◌,
}
use bitmq.Dict.{find}
use bitmq.Args.{Args}
use bitmq.Router.{ExchangeType}
use bitmq.Sql.{Engine}
use bitmq.Message.{Wire}
use bitmq.Exchange
use bitmq.Exchange.{ExchangeMap}
use bitmq.Exchange.Manager.{declare-select_exchange, delete-select_exchange}
use bitmq.Queue
use bitmq.Queue.{QueueMap}
use bitmq.Queue.Manager.{delete-select_queue}
use bitmq.Binding
use bitmq.Binding.{BindingMap, lookup}
use bitmq.Binding.Tidy.{IsTidy}
use bitmq.Binding.Manager
use bitmq.MessageManager
use bitmq.Host
use bitmq.Host.{VirtualHost, emp, mqmp, bmp, exists_exchange, exists_queue, exists_binding}

abbrev pub is_some {ℓ} : {A : Type ℓ} → Option A → Bool
is_some o = elim o [ none ↦ false | some a ↦ true ]

-- The links, over the three maps.
abbrev pub AreLinked : ExchangeMap → QueueMap → BindingMap → Type 0
AreLinked es qs bs =
    (e q : Bytes)
    → is_some (lookup e q bs) ≡ true
    → (is_some (find e es) ≡ true) × (is_some (find q qs) ≡ true)

abbrev pub IsSound : {Db : Type 0} → VirtualHost Db → Type 0
IsSound h = IsTidy h.bindings × AreLinked h.exchanges h.msg_queues h.bindings

-- More exchanges and queues, the same bindings.
pub linked_more :
    (es es' : ExchangeMap) (qs qs' : QueueMap) (bs : BindingMap)
    → AreLinked es qs bs
    → ((e : Bytes) → is_some (find e es) ≡ true → is_some (find e es') ≡ true)
    → ((q : Bytes) → is_some (find q qs) ≡ true → is_some (find q qs') ≡ true)
    → AreLinked es' qs' bs
linked_more es es' qs qs' bs linked more more' e q h =
    let (he, hq) = linked e q h in (more e he, more' q hq)

-- An exchange goes with its bindings.
linked_without_exchange :
    (name : Bytes) (es es' : ExchangeMap) (qs : QueueMap) (bs bs' : BindingMap)
    → AreLinked es qs bs
    → ((e : Bytes) → find e es' ≡ (if name == e then none else find e es))
    → ((e q : Bytes) → lookup e q bs' ≡ (if name == e then none else lookup e q bs))
    → AreLinked es' qs bs'
linked_without_exchange name es es' qs bs bs' linked less less' e q h =
    ground (arith, linked e q, less e, less' e q)

-- A queue goes with its bindings.
linked_without_queue :
    (name : Bytes) (es : ExchangeMap) (qs qs' : QueueMap) (bs bs' : BindingMap)
    → AreLinked es qs bs
    → ((q : Bytes) → find q qs' ≡ (if name == q then none else find q qs))
    → ((e q : Bytes) → lookup e q bs' ≡ (if name == q then none else lookup e q bs))
    → AreLinked es qs' bs'
linked_without_queue name es qs qs' bs bs' linked less less' e q h =
    ground (arith, linked e q, less q, less' e q)

-- Fewer bindings.
pub linked_less :
    (es : ExchangeMap) (qs : QueueMap) (bs bs' : BindingMap)
    → AreLinked es qs bs
    → ((e q : Bytes) → is_some (lookup e q bs') ≡ true → is_some (lookup e q bs) ≡ true)
    → AreLinked es qs bs'
linked_less es qs bs bs' linked less e q h = linked e q (less e q h)

module _ {Db : Type 0} (engine : Engine Db) (wire : Wire) where
  pub declare_exchange-IsSound :
      (name : Bytes) (type : ExchangeType) (durable auto_delete : Bool) (args : Args)
      (h : VirtualHost Db)
      → IsSound h
      → IsSound (Host.declare_exchange engine wire name type durable auto_delete args h).1
  unfolding Host.declare_exchange Exchange.select_exchange
  declare_exchange-IsSound name type durable auto_delete args h (t, l) = (
    t,
    linked_more h.exchanges _ h.msg_queues h.msg_queues h.bindings l
        (λ e s. ground (
          arith,
          s,
          declare-select_exchange engine name type durable auto_delete args (emp h) e,
          bytes_key.same_iff name e,
        ))
        (λ q s. s),
  )

  pub delete_exchange-IsSound :
      (name : Bytes) (h : VirtualHost Db)
      → IsSound h
      → IsSound (Host.delete_exchange engine wire name h)
  unfolding Host.delete_exchange Exchange.select_exchange Binding.get_binding
  delete_exchange-IsSound name h (t, l) =
      let h1 = Host.with_bmp (Binding.remove_exchange_bindings engine name (bmp h)) h in
      (
        Manager.remove_exchange_bindings-IsTidy engine name (bmp h) t,
        linked_without_exchange name h.exchanges
            (Exchange.delete_exchange engine name (emp h1)).exchanges h.msg_queues h.bindings
            (Binding.remove_exchange_bindings engine name (bmp h)).bindings l
            (λ e. delete-select_exchange engine name (emp h1) e)
            (λ e q. Manager.remove_exchange_bindings-get_binding engine name (bmp h) e q),
      )

  pub delete_queue-IsSound :
      (name : Bytes) (h : VirtualHost Db)
      → IsSound h
      → IsSound (Host.delete_queue engine wire name h)
  unfolding Host.delete_queue Queue.select_queue Binding.get_binding
  delete_queue-IsSound name h (t, l) =
      let h1 = Host.with_mmp (MessageManager.destroy_queue_message name h.messages h.fs) h in
      let h2 = Host.with_bmp (Binding.remove_msg_queue_bindings engine name (bmp h1)) h1 in
      (
        Manager.remove_msg_queue_bindings-IsTidy engine name (bmp h1) t,
        linked_without_queue name h.exchanges h.msg_queues
            (Queue.delete_queue engine name (mqmp h2)).msg_queues h.bindings
            (Binding.remove_msg_queue_bindings engine name (bmp h1)).bindings l
            (λ q. delete-select_queue engine name (mqmp h2) q)
            (λ e q. Manager.remove_msg_queue_bindings-get_binding engine name (bmp h1) e q t),
      )
