-- ===== src/Channel.antt =====
-- `Channel` of mqserver/mq_channel.hpp over what the channels share: the host, the consumers, the
-- queue of the thread pool, and what went out on the connections.
pub mod Publish
pub mod Consume
pub mod Leave
use bitmq.Base.{
  ℕ, suc, ◌+◌, Bool, true, false, Option, none, some, List, [], ◌∷◌, ◌++◌, Bytes, if◌then◌else◌,
  length,
}
use bitmq.Args.{Args}
use bitmq.Router.{ExchangeType, route}
use bitmq.Sql.{Engine}
use bitmq.Message.{Message, Payload, BasicProperties, Wire}
use bitmq.Exchange.{Exchange}
use bitmq.Binding.{Binding, MsgQueueBindingMap}
use bitmq.Host
use bitmq.Host.{VirtualHost}
use bitmq.Consumer
use bitmq.Consumer.{Consumer, ConsumerManager}
use bitmq.Proto.{Ids, Response, common, push}

-- A connection, by its address.
abbrev pub Conn : Type 0
Conn = ℕ

-- `std::bind(&Channel::callback, this, …)`: the channel that the callback writes to.
pub record Callback : Type 0 where
  pub conn : Conn
  pub cid : Bytes

pub record Channel : Type 0 where
  pub cid : Bytes
  pub conn : Conn
  pub consumer : Option (Consumer Callback)

pub record Shared (Db : Type 0) : Type 0 where
  pub host : VirtualHost Db
  pub consumers : ConsumerManager Callback
  -- the tasks of the pool, each the queue that `consume` is bound to
  pub tasks : List Bytes
  pub sent : List (Conn × Response)
  -- the number of the next delivery, for which `uuid` gives the text that `UUIDHelper::uuid` makes
  pub seq : ℕ

module _ {Db : Type 0} where
  abbrev pub send : Conn → Response → Shared Db → Shared Db
  send conn resp s = record s { sent = s.sent ++ (conn, resp) ∷ [] }

  -- `basicResponse` of the channel
  abbrev pub basic_response : Channel → Bool → Ids → Shared Db → Shared Db
  basic_response ch ok req s = send ch.conn (common req.rid req.cid ok) s

  abbrev pub set_host : VirtualHost Db → Shared Db → Shared Db
  set_host h s = record s { host = h }

  -- The destructor.
  unfoldable pub destroy : Channel → Shared Db → Shared Db
  destroy ch s = elim ch.consumer [
    | none ↦ s
    | some c ↦ record s { consumers = Consumer.remove c.tag c.qname s.consumers }
  ]

  unfoldable pub basic_consume :
      Ids → Bytes → Bytes → Bool → Channel → Shared Db → Channel × Shared Db
  basic_consume req consumer_tag queue_name auto_ack ch s =
      let cb : Callback = record { conn = ch.conn; cid = ch.cid } in
      let (consumer, consumers) = Consumer.create consumer_tag queue_name auto_ack cb s.consumers in
      if Host.exists_queue queue_name s.host
      then (
        record ch { consumer = consumer },
        basic_response ch true req (record s { consumers = consumers }),
      )
      else (ch, basic_response ch false req s)

  unfoldable pub basic_cancel : Ids → Bytes → Bytes → Channel → Shared Db → Shared Db
  basic_cancel req consumer_tag queue_name ch s =
      basic_response ch true req
        (record s { consumers = Consumer.remove consumer_tag queue_name s.consumers })

  -- `callback`
  abbrev pub call_back : Callback → Bytes → BasicProperties → Bytes → Shared Db → Shared Db
  call_back cb tag bp body s = send cb.conn (push cb.cid tag body bp) s

module _ {Db : Type 0} (engine : Engine Db) (wire : Wire) (uuid : ℕ → Bytes) where
  unfoldable pub declare_exchange :
      Ids → Bytes → ExchangeType → Bool → Bool → Args → Channel → Shared Db → Shared Db
  declare_exchange req name type durable auto_delete args ch s =
      let (ret, h) = Host.declare_exchange engine wire name type durable auto_delete args s.host in
      basic_response ch ret req (set_host h s)

  unfoldable pub delete_exchange : Ids → Bytes → Channel → Shared Db → Shared Db
  delete_exchange req name ch s =
      basic_response ch true req (set_host (Host.delete_exchange engine wire name s.host) s)

  -- The consumers' handle is made where the queue is declared.
  unfoldable pub declare_queue :
      Ids → Bytes → Bool → Bool → Bool → Args → Channel → Shared Db → Option (Shared Db)
  declare_queue req name exclusive durable auto_delete args ch s =
      elim (Host.declare_queue engine wire name durable exclusive auto_delete args s.host) [
        | none ↦ none
        | some (ret, h) ↦
            let s1 = set_host h s in
            let s2 = record s1 { consumers = Consumer.init_queue_consumer name s1.consumers } in
            some (if ret then basic_response ch true req s2 else basic_response ch false req s1)
      ]

  unfoldable pub delete_queue : Ids → Bytes → Channel → Shared Db → Shared Db
  delete_queue req name ch s =
      let s1 = record s { consumers = Consumer.destroy_queue_consumer name s.consumers } in
      basic_response ch true req (set_host (Host.delete_queue engine wire name s1.host) s1)

  unfoldable pub queue_bind : Ids → Bytes → Bytes → Bytes → Channel → Shared Db → Shared Db
  queue_bind req exchange_name queue_name binding_key ch s =
      let (ret, h) = Host.bind engine wire exchange_name queue_name binding_key s.host in
      basic_response ch ret req (set_host h s)

  unfoldable pub queue_un_bind : Ids → Bytes → Bytes → Channel → Shared Db → Shared Db
  queue_un_bind req exchange_name queue_name ch s =
      basic_response ch true req
        (set_host (Host.un_bind engine wire exchange_name queue_name s.host) s)

  -- One round of the loop of `basicPublish` whose binding matches. A message without properties takes
  -- a new identifier.
  unfoldable pub deliver : Bytes → Option BasicProperties → Bytes → Shared Db → Shared Db
  deliver qname properties body s =
      let (ret, h) = Host.basic_publish engine wire qname properties body (uuid s.seq) s.host in
      record s { host = h; tasks = s.tasks ++ qname ∷ []; seq = suc s.seq }

  unfoldable pub deliver_all :
      ExchangeType
      → Bytes
      → Option BasicProperties
      → Bytes
      → MsgQueueBindingMap
      → Shared Db
      → Shared Db
  unfolding deliver
  deliver_all type routing_key properties body [] s = s
  deliver_all type routing_key properties body ((qname, binding) ∷ mqbm) s =
      deliver_all type routing_key properties body mqbm
        (if route type routing_key binding.binding_key then deliver qname properties body s else s)

  abbrev pub routing_key_of : Option BasicProperties → Bytes
  routing_key_of none = []
  routing_key_of (some bp) = bp.routing_key

  unfoldable pub basic_publish :
      Ids → Bytes → Bytes → Option BasicProperties → Channel → Shared Db → Shared Db
  unfolding deliver_all
  basic_publish req exchange_name body properties ch s =
      elim (Host.select_exchange exchange_name s.host) [
        | none ↦ basic_response ch false req s
        | some ep ↦
            let mqbm = Host.exchange_bindings exchange_name s.host in
            basic_response ch true req
              (deliver_all ep.type (routing_key_of properties) properties body mqbm s)
      ]

  unfoldable pub basic_ack : Ids → Bytes → Bytes → Channel → Shared Db → Shared Db
  basic_ack req queue_name message_id ch s =
      basic_response ch true req
        (set_host (Host.basic_ack engine wire queue_name message_id s.host) s)

  -- The message goes to the consumer, and is acknowledged at once if he asked for that.
  unfoldable pub hand_to : Bytes → Message → Consumer Callback → Shared Db → Shared Db
  hand_to qname msg cp s =
      let p = msg.payload in
      let s1 = call_back cp.callback cp.tag p.properties p.body s in
      if cp.auto_ack
      then set_host (Host.basic_ack engine wire qname p.properties.id s1.host) s1
      else s1

  -- A task of the pool.
  unfoldable pub consume : Bytes → Shared Db → Shared Db
  unfolding hand_to
  consume qname s =
      let (mp, h) = Host.basic_consume qname s.host in
      let (cp, consumers) = Consumer.choose qname s.consumers in
      elim mp [
        | none ↦ set_host h s
        | some msg ↦
            let s1 = record s { host = h; consumers = consumers } in
            elim cp [ none ↦ s1 | some c ↦ hand_to qname msg c s1 ]
      ]
