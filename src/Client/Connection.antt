-- ===== src/Client/Connection.antt =====
-- `ChannelManager` of mqclient/mq_channel.hpp, and `Connection` of mqclient/mq_connection.hpp.
use bitmq.Base.{
  ℕ, suc, ◌-◌, Bool, Option, none, some, List, [], ◌∷◌, ◌++◌, Bytes, bytes_key, if◌then◌else◌,
}
use bitmq.Dict.{find, emplace, erase}
use bitmq.Proto.{Response, common, push}
use bitmq.ThreadPool
use bitmq.ThreadPool.{Pool, wait, leave, run, new_pool}
use bitmq.Client.{
  Void, Ptr, Conn, BasicResponse, ConsumeResponse, Channel, Client, Call, put, put_basic_response,
  consume, and_then,
}
use bitmq.Client.Operations

module _ {C : Type 0} where
  -- `ChannelManager::remove`
  abbrev pub remove : Bytes → Client C → Client C
  remove cid c = record c { channels = erase cid c.channels }

  -- `ChannelManager::get`
  abbrev pub get : Bytes → Client C → Option Ptr
  get cid c = find cid c.channels

  -- The constructor, up to the wait for the latch.
  abbrev pub new_client : Channel C → Client C
  new_client unused = record {
    heap = λ p. unused;
    next = 0;
    latch = 1;
    conn = none;
    channels = [];
    pool = new_pool;
    sent = [];
    shut = [];
    called = [];
    seq = 1;
  }

  -- `basicResponse`
  unfoldable pub basic_response : BasicResponse → Client C → Client C
  unfolding put_basic_response
  basic_response message c = elim (get message.cid c) [
    | none ↦ c
    | some p ↦ put_basic_response p message c
  ]

  -- `consumeResponse`; `none` is the exception of a stopped pool.
  unfoldable pub consume_response : ConsumeResponse → Client C → Option (Client C)
  consume_response message c = elim (get message.cid c) [
    | none ↦ some c
    | some p ↦ elim (ThreadPool.push (p, message) c.pool) [
      | none ↦ none
      | some pool ↦ some (record c { pool = pool })
    ]
  ]

  -- A thread of the pool takes a task and runs it.
  unfoldable pub run_task : Client C → Client C
  run_task c = elim (ThreadPool.next c.pool) [
    | wait ↦ c
    | leave ↦ c
    | run task pool ↦ consume task.0 task.1 (record c { pool = pool })
  ]

  -- The dispatcher: the handler of the message's type.
  unfoldable pub on_message : Response → Client C → Option (Client C)
  unfolding basic_response consume_response
  on_message (common rid cid ok) c =
      some (basic_response (record { rid = rid; cid = cid; ok = ok }) c)
  on_message (push cid consumer_tag body properties) c =
      consume_response
        (record { cid = cid; consumer_tag = consumer_tag; body = body; properties = properties }) c

  -- `onUnknownMessage`
  unfoldable pub on_unknown_message : Conn → Client C → Client C
  on_unknown_message conn c = record c { shut = c.shut ++ conn ∷ [] }

  -- The statements of `onConnection`, each one on its own: the latch has its own lock, and a thread that
  -- waits for it may go on before the next statement.
  abbrev pub count_down : Client C → Client C
  count_down c = record c { latch = c.latch - 1 }

  abbrev pub set_conn : Option Conn → Client C → Client C
  set_conn conn c = record c { conn = conn }

  -- `onConnection`; `connected` is what the connection says of itself.
  unfoldable pub on_connection : Conn → Bool → List (Client C → Client C)
  on_connection conn connected =
      if connected then count_down ∷ set_conn (some conn) ∷ [] else set_conn none ∷ []

  -- A number of statements.
  abbrev pub run_all : List (Client C → Client C) → Client C → Client C
  run_all [] c = c
  run_all (step ∷ steps) c = run_all steps (step c)

module _ {C : Type 0} (uuid : ℕ → Bytes) where
  -- `ChannelManager::create`
  unfoldable pub create : Client C → Ptr × Client C
  create c =
      let channel : Channel C = record {
        cid = uuid c.seq;
        conn = c.conn;
        consumer = none;
        basic_resp = [];
      } in
      (
        c.next,
        record (put c.next channel c) {
          next = suc c.next;
          channels = emplace channel.cid c.next c.channels;
          seq = suc c.seq;
        },
      )

  -- A channel that the server refuses stays in the manager.
  unfoldable pub open_channel : Client C → Call C (Option Ptr)
  unfolding create and_then
  open_channel c =
      let (p, c1) = create c in
      and_then (Operations.open_channel uuid p c1) (λ ok c2. (if ok then some p else none, c2))

  unfoldable pub close_channel : Ptr → Client C → Call C Void
  unfolding and_then
  close_channel p c =
      and_then (Operations.close_channel uuid p c) (λ u c1. (tt, remove (c1.heap p).cid c1))
