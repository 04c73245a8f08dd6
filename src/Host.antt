-- ===== src/Host.antt =====
-- `VirtualHost` of mqserver/mq_host.hpp: the four managers of a broker over one database and one file
-- system. `none` is an `abort` or a failed assertion below.
pub mod Links
pub mod Steps
use bitmq.Base.{
  ℕ, Bool, true, false, ◌&&◌, Option, none, some, List, [], ◌∷◌, Bytes, if◌then◌else◌, bytes_key,
}
use bitmq.Dict.{Dict, find, emplace, erase}
use bitmq.Args.{Args}
use bitmq.Router.{ExchangeType}
use bitmq.Sql.{Engine}
use bitmq.File.{Fs}
use bitmq.Message.{Message, BasicProperties, Wire}
use bitmq.Exchange
use bitmq.Exchange.{Exchange, ExchangeMap, ExchangeManager}
use bitmq.Queue
use bitmq.Queue.{MsgQueue, QueueMap, QueueManager}
use bitmq.Binding
use bitmq.Binding.{BindingMap, MsgQueueBindingMap, BindingManager}
use bitmq.MessageManager
use bitmq.MessageManager.{MessageManager}

pub record VirtualHost (Db : Type 0) : Type 0 where
  pub host_name : Bytes
  pub exchanges : ExchangeMap
  pub msg_queues : QueueMap
  pub bindings : BindingMap
  pub messages : MessageManager
  -- what the managers share
  pub db : Db
  pub fs : Fs

module _ {Db : Type 0} where
  abbrev pub emp : VirtualHost Db → ExchangeManager Db
  emp h = record { db = h.db; exchanges = h.exchanges }

  abbrev pub mqmp : VirtualHost Db → QueueManager Db
  mqmp h = record { db = h.db; msg_queues = h.msg_queues }

  abbrev pub bmp : VirtualHost Db → BindingManager Db
  bmp h = record { db = h.db; bindings = h.bindings }

  abbrev pub with_emp : ExchangeManager Db → VirtualHost Db → VirtualHost Db
  with_emp m h = record h { db = m.db; exchanges = m.exchanges }

  abbrev pub with_mqmp : QueueManager Db → VirtualHost Db → VirtualHost Db
  with_mqmp m h = record h { db = m.db; msg_queues = m.msg_queues }

  abbrev pub with_bmp : BindingManager Db → VirtualHost Db → VirtualHost Db
  with_bmp m h = record h { db = m.db; bindings = m.bindings }

  abbrev pub with_mmp : MessageManager × Fs → VirtualHost Db → VirtualHost Db
  with_mmp (m, fs) h = record h { messages = m; fs = fs }

  unfoldable pub exists_exchange : Bytes → VirtualHost Db → Bool
  exists_exchange name h = Exchange.exists name (emp h)

  unfoldable pub select_exchange : Bytes → VirtualHost Db → Option Exchange
  select_exchange ename h = Exchange.select_exchange ename (emp h)

  unfoldable pub exists_queue : Bytes → VirtualHost Db → Bool
  exists_queue name h = Queue.exists name (mqmp h)

  abbrev pub all_queues : VirtualHost Db → QueueMap
  all_queues h = h.msg_queues

  unfoldable pub exchange_bindings : Bytes → VirtualHost Db → MsgQueueBindingMap
  exchange_bindings ename h = Binding.get_exchange_bindings ename (bmp h)

  unfoldable pub exists_binding : Bytes → Bytes → VirtualHost Db → Bool
  exists_binding ename qname h = Binding.exists ename qname (bmp h)

  unfoldable pub basic_consume : Bytes → VirtualHost Db → Option Message × VirtualHost Db
  basic_consume qname h =
      let (msg, m) = MessageManager.front qname h.messages in (msg, record h { messages = m })

module _ {Db : Type 0} (engine : Engine Db) (wire : Wire) where
  -- The loop of the constructor over the recovered queues.
  unfoldable pub init_all : QueueMap → MessageManager → Fs → Option (MessageManager × Fs)
  init_all [] m fs = some (m, fs)
  init_all ((name, queue) ∷ queues) m fs = elim (MessageManager.init_queue_message wire name m fs) [
    | none ↦ none
    | some (m', fs') ↦ init_all queues m' fs'
  ]

  unfoldable pub open_host : Bytes → Bytes → Db → Fs → Option (VirtualHost Db)
  unfolding init_all
  open_host hname basedir db fs = elim (Exchange.open_manager engine db) [
    | none ↦ none
    | some em ↦ elim (Queue.open_manager engine em.db) [
      | none ↦ none
      | some qm ↦ elim (Binding.open_manager engine qm.db) [
        | none ↦ none
        | some bm ↦
            elim (init_all qm.msg_queues (record { basedir = basedir; queue_msgs = [] }) fs) [
              | none ↦ none
              | some (mm, fs') ↦ some (record {
                host_name = hname;
                exchanges = em.exchanges;
                msg_queues = qm.msg_queues;
                bindings = bm.bindings;
                messages = mm;
                db = bm.db;
                fs = fs';
              })
            ]
      ]
    ]
  ]

  unfoldable pub declare_exchange :
      Bytes → ExchangeType → Bool → Bool → Args → VirtualHost Db → Bool × VirtualHost Db
  declare_exchange name type durable auto_delete args h =
      let (ret, m) = Exchange.declare_exchange engine name type durable auto_delete args (emp h) in
      (ret, with_emp m h)

  -- The bindings go first.
  unfoldable pub delete_exchange : Bytes → VirtualHost Db → VirtualHost Db
  delete_exchange name h =
      let h1 = with_bmp (Binding.remove_exchange_bindings engine name (bmp h)) h in
      with_emp (Exchange.delete_exchange engine name (emp h1)) h1

  -- The message handle is made before the queue is declared.
  unfoldable pub declare_queue :
      Bytes → Bool → Bool → Bool → Args → VirtualHost Db → Option (Bool × VirtualHost Db)
  declare_queue qname qdurable qexclusive qauto_delete qargs h =
      elim (MessageManager.init_queue_message wire qname h.messages h.fs) [
        | none ↦ none
        | some r ↦
            let h1 = with_mmp r h in
            let (ret, m) =
              Queue.declare_queue engine qname qdurable qexclusive qauto_delete qargs (mqmp h1) in
            some (ret, with_mqmp m h1)
      ]

  -- The messages go first, then the bindings.
  unfoldable pub delete_queue : Bytes → VirtualHost Db → VirtualHost Db
  delete_queue name h =
      let h1 = with_mmp (MessageManager.destroy_queue_message name h.messages h.fs) h in
      let h2 = with_bmp (Binding.remove_msg_queue_bindings engine name (bmp h1)) h1 in
      with_mqmp (Queue.delete_queue engine name (mqmp h2)) h2

  unfoldable pub bind : Bytes → Bytes → Bytes → VirtualHost Db → Bool × VirtualHost Db
  bind ename qname key h = elim (Exchange.select_exchange ename (emp h)) [
    | none ↦ (false, h)
    | some ep ↦ elim (Queue.select_queue qname (mqmp h)) [
      | none ↦ (false, h)
      | some mqp ↦
          let (ret, m) = Binding.bind engine ename qname key (ep.durable && mqp.durable) (bmp h) in
          (ret, with_bmp m h)
    ]
  ]

  unfoldable pub un_bind : Bytes → Bytes → VirtualHost Db → VirtualHost Db
  un_bind ename qname h = with_bmp (Binding.un_bind engine ename qname (bmp h)) h

  unfoldable pub basic_publish :
      Bytes → Option BasicProperties → Bytes → Bytes → VirtualHost Db → Bool × VirtualHost Db
  basic_publish qname bp body uuid h = elim (Queue.select_queue qname (mqmp h)) [
    | none ↦ (false, h)
    | some mqp ↦
        let (ret, m, fs') =
          MessageManager.insert wire qname bp body mqp.durable uuid h.messages h.fs in
        (ret, record h { messages = m; fs = fs' })
  ]

  unfoldable pub basic_ack : Bytes → Bytes → VirtualHost Db → VirtualHost Db
  basic_ack qname msgid h = with_mmp (MessageManager.ack wire qname msgid h.messages h.fs) h

  unfoldable pub clear : VirtualHost Db → Option (VirtualHost Db)
  clear h = elim (Exchange.clear engine (emp h)) [
    | none ↦ none
    | some em ↦
        let h1 = with_emp em h in
        let h2 = with_mqmp (Queue.clear engine (mqmp h1)) h1 in
        let h3 = with_bmp (Binding.clear engine (bmp h2)) h2 in
        some (with_mmp (MessageManager.clear h3.messages h3.fs) h3)
  ]
