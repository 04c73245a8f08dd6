-- ===== src/Broker.antt =====
-- mqserver/mq_connection.hpp (`Connection`, `ConnectionManager`), `ChannelManager` of
-- mqserver/mq_channel.hpp, and `Server` of mqserver/mq_broker.hpp. The network library is the order in
-- which its callbacks are called.
pub mod Frames
use bitmq.Base.{
  ℕ, suc, Bool, true, false, Option, none, some, List, [], ◌∷◌, ◌++◌, Bytes, if◌then◌else◌, nat_key,
  bytes_key,
}
use bitmq.Dict.{Dict, find, emplace, assign, erase}
use bitmq.Sql.{Engine}
use bitmq.File.{Fs}
use bitmq.Message.{Wire}
use bitmq.Queue.{QueueMap}
use bitmq.Host
use bitmq.Host.{VirtualHost}
use bitmq.Consumer
use bitmq.Consumer.{Consumer, ConsumerManager}
use bitmq.Proto.{
  Ids, Request, Response, common, open_channel, close_channel, declare_exchange, delete_exchange,
  declare_queue, delete_queue, queue_bind, queue_un_bind, basic_publish, basic_ack, basic_consume,
  basic_cancel, unknown,
}
use bitmq.Channel
use bitmq.Channel.{Channel, Shared, Callback, Conn, send, destroy}

-- `Connection` and its `ChannelManager`
pub record Connection : Type 0 where
  pub conn : Conn
  pub channels : Dict Bytes Channel

pub record Server (Db : Type 0) : Type 0 where
  pub shared : Shared Db
  pub conns : Dict ℕ Connection
  -- the connections that the server closed
  pub shut : List Conn

-- `ChannelManager::openChannel`: the channel, if its name is new.
unfoldable pub add_channel : Bytes → Connection → Option Connection
add_channel id mconn = elim (find id mconn.channels) [
  | some it ↦ none
  | none ↦
      let channel : Channel = record { cid = id; conn = mconn.conn; consumer = none } in
      some (record mconn { channels = emplace id channel mconn.channels })
]

abbrev pub get_channel : Bytes → Connection → Option Channel
get_channel cid mconn = find cid mconn.channels

module _ {Db : Type 0} where
  unfoldable pub on_open_channel : Ids → Connection → Shared Db → Connection × Shared Db
  unfolding add_channel
  on_open_channel req mconn s = elim (add_channel req.cid mconn) [
    | none ↦ (mconn, send mconn.conn (common req.rid req.cid false) s)
    | some mconn' ↦ (mconn', send mconn.conn (common req.rid req.cid true) s)
  ]

  -- The channel that goes takes its consumer with it.
  unfoldable pub on_close_channel : Ids → Connection → Shared Db → Connection × Shared Db
  on_close_channel req mconn s =
      let s1 : Shared Db = elim (find req.cid mconn.channels) [
        | none ↦ s
        | some ch ↦ destroy ch s
      ] in
      (
        record mconn { channels = erase req.cid mconn.channels },
        send mconn.conn (common req.rid req.cid true) s1,
      )

  unfoldable pub destroy_all : Dict Bytes Channel → Shared Db → Shared Db
  destroy_all [] s = s
  destroy_all ((cid, ch) ∷ channels) s = destroy_all channels (destroy ch s)

  unfoldable pub new_connection : Conn → Server Db → Server Db
  new_connection conn srv = elim (find conn srv.conns) [
    | some it ↦ srv
    | none ↦ record srv { conns = emplace conn (record { conn = conn; channels = [] }) srv.conns }
  ]

  unfoldable pub del_connection : Conn → Server Db → Server Db
  unfolding destroy_all
  del_connection conn srv = elim (find conn srv.conns) [
    | none ↦ srv
    | some it ↦ record srv {
      shared = destroy_all it.channels srv.shared;
      conns = erase conn srv.conns;
    }
  ]

  -- `connected` is what the connection says of itself.
  unfoldable pub on_connection : Conn → Bool → Server Db → Server Db
  on_connection conn connected srv =
      if connected then new_connection conn srv else del_connection conn srv

  abbrev pub shutdown : Conn → Server Db → Server Db
  shutdown conn srv = record srv { shut = srv.shut ++ conn ∷ [] }

  abbrev pub put_back : Conn → Connection × Shared Db → Server Db → Server Db
  put_back conn (mconn, s) srv = record srv { shared = s; conns = assign conn mconn srv.conns }

  -- The channel is the one that `conn` has under the name; its own handler may change it.
  abbrev pub put_channel : Conn → Connection → Bytes → Channel × Shared Db → Server Db → Server Db
  put_channel conn mconn cid (ch, s) srv =
      put_back conn (record mconn { channels = assign cid ch mconn.channels }, s) srv

module _ {Db : Type 0} (engine : Engine Db) (wire : Wire) (uuid : ℕ → Bytes) where
  -- The handler of a request on its channel. `none` is an abort.
  unfoldable pub on_channel : Ids → Request → Channel → Shared Db → Option (Channel × Shared Db)
  on_channel ids (declare_exchange name type durable auto_delete args) ch s =
      some
        (ch, Channel.declare_exchange engine wire uuid ids name type durable auto_delete args ch s)
  on_channel ids (delete_exchange name) ch s =
      some (ch, Channel.delete_exchange engine wire uuid ids name ch s)
  on_channel ids (declare_queue name exclusive durable auto_delete args) ch s =
      elim (Channel.declare_queue engine wire uuid ids name exclusive durable auto_delete args ch
        s) [ none ↦ none | some s' ↦ some (ch, s') ]
  on_channel ids (delete_queue name) ch s =
      some (ch, Channel.delete_queue engine wire uuid ids name ch s)
  on_channel ids (queue_bind ename qname key) ch s =
      some (ch, Channel.queue_bind engine wire uuid ids ename qname key ch s)
  on_channel ids (queue_un_bind ename qname) ch s =
      some (ch, Channel.queue_un_bind engine wire uuid ids ename qname ch s)
  on_channel ids (basic_publish ename body properties) ch s =
      some (ch, Channel.basic_publish engine wire uuid ids ename body properties ch s)
  on_channel ids (basic_ack qname msgid) ch s =
      some (ch, Channel.basic_ack engine wire uuid ids qname msgid ch s)
  on_channel ids (basic_consume tag qname auto_ack) ch s =
      some (Channel.basic_consume ids tag qname auto_ack ch s)
  on_channel ids (basic_cancel tag qname) ch s = some (ch, Channel.basic_cancel ids tag qname ch s)
  on_channel ids _ ch s = some (ch, s)

  -- The part that the ten handlers share: the channel is looked up, and a missing one ends the call.
  unfoldable pub with_channel : Conn → Ids → Request → Connection → Server Db → Option (Server Db)
  unfolding on_channel
  with_channel conn ids req mconn srv = elim (get_channel ids.cid mconn) [
    | none ↦ some srv
    | some ch ↦ elim (on_channel ids req ch srv.shared) [
      | none ↦ none
      | some r ↦ some (put_channel conn mconn ids.cid r srv)
    ]
  ]

  unfoldable pub on_request : Conn → Ids → Request → Connection → Server Db → Option (Server Db)
  unfolding with_channel
  on_request conn ids open_channel mconn srv =
      some (put_back conn (on_open_channel ids mconn srv.shared) srv)
  on_request conn ids close_channel mconn srv =
      some (put_back conn (on_close_channel ids mconn srv.shared) srv)
  on_request conn ids req mconn srv = with_channel conn ids req mconn srv

  -- A message that arrives: a handler looks the connection up first and closes an unknown one; an
  -- unknown message closes its connection.
  unfoldable pub on_message : Conn → Ids → Request → Server Db → Option (Server Db)
  unfolding on_request
  on_message conn ids unknown srv = some (shutdown conn srv)
  on_message conn ids req srv = elim (find conn srv.conns) [
    | none ↦ some (shutdown conn srv)
    | some mconn ↦ on_request conn ids req mconn srv
  ]

  -- The next task of the pool, if there is one.
  unfoldable pub run_task : Shared Db → Shared Db
  run_task s = elim s.tasks [
    | [] ↦ s
    | qname ∷ rest ↦ Channel.consume engine wire uuid qname (record s { tasks = rest })
  ]

  unfoldable pub init_consumers : QueueMap → ConsumerManager Callback → ConsumerManager Callback
  init_consumers [] m = m
  init_consumers ((name, queue) ∷ queues) m =
      init_consumers queues (Consumer.init_queue_consumer name m)

  -- The constructor.
  unfoldable pub open_server : Bytes → Bytes → Db → Fs → Option (Server Db)
  unfolding init_consumers
  open_server host_name basedir db fs = elim (Host.open_host engine wire host_name basedir db fs) [
    | none ↦ none
    | some h ↦ some (record {
      shared = record {
        host = h;
        consumers = init_consumers (Host.all_queues h) [];
        tasks = [];
        sent = [];
        seq = 1;
      };
      conns = [];
      shut = [];
    })
  ]
