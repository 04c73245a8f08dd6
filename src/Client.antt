-- ===== src/Client.antt =====
-- The client library: mqclient/mq_consumer.hpp, mqclient/mq_channel.hpp, mqclient/mq_connection.hpp and the
-- pool of mqclient/mq_worker.hpp. Here the state, and what a channel does with the messages that arrive.
-- Channel objects are shared by pointers, so they stand in a heap. A call that waits for its response is a
-- value: what it waits for, and what it does then.
pub mod Operations
pub mod Connection
pub mod Others
pub mod Frame
pub mod Waiting
pub mod Answers
pub mod Deliveries
pub mod Closing
pub mod Connecting
use bitmq.Base.{
  ℕ, suc, Bool, Option, none, some, List, [], ◌∷◌, ◌++◌, Bytes, bytes_key, bytes_eq, nat_eq,
  if◌then◌else◌,
}
use bitmq.Dict.{Dict, find, emplace, erase}
use bitmq.Message.{BasicProperties}
use bitmq.Proto.{Ids, Request}
use bitmq.ThreadPool.{Pool}

abbrev pub Ptr : Type 0
Ptr = ℕ

-- A TCP connection, by its address.
abbrev pub Conn : Type 0
Conn = ℕ

-- What a function without a result returns.
abbrev pub Void : Type 0
Void = Unit

-- `basicCommonResponse`
pub record BasicResponse : Type 0 where
  pub rid : Bytes
  pub cid : Bytes
  pub ok : Bool

-- `basicConsumeResponse`
pub record ConsumeResponse : Type 0 where
  pub cid : Bytes
  pub consumer_tag : Bytes
  pub body : Bytes
  pub properties : BasicProperties

-- `C` is the type of the user's callbacks.
pub record Consumer (C : Type 0) : Type 0 where
  pub tag : Bytes
  pub qname : Bytes
  pub auto_ack : Bool
  pub callback : C

pub record Channel (C : Type 0) : Type 0 where
  pub cid : Bytes
  -- `none` is the null pointer
  pub conn : Option Conn
  pub consumer : Option (Consumer C)
  pub basic_resp : Dict Bytes BasicResponse

-- A callback that was called, with its arguments.
pub record Called (C : Type 0) : Type 0 where
  pub callback : C
  pub tag : Bytes
  pub properties : BasicProperties
  pub body : Bytes

-- One `Connection` with its `ChannelManager`, its worker's pool, and what went in and out.
pub record Client (C : Type 0) : Type 0 where
  pub heap : Ptr → Channel C
  pub next : Ptr
  pub latch : ℕ
  pub conn : Option Conn
  pub channels : Dict Bytes Ptr
  pub pool : Pool (Ptr × ConsumeResponse)
  pub sent : List (Conn × Ids × Request)
  pub shut : List Conn
  pub called : List (Called C)
  -- the number of the next text that `UUIDHelper::uuid` makes
  pub seq : ℕ

-- A call of an operation: the null pointer was used; it returned; or it waits for the response with that
-- rid, and then goes on.
pub data Call (C R : Type 0) : Type 0 where
  crashes : Call C R
  returned : R → Client C → Call C R
  waits : Bytes → (BasicResponse → Client C → R × Client C) → Client C → Call C R

module _ {C : Type 0} where
  abbrev pub store : Ptr → Channel C → (Ptr → Channel C) → Ptr → Channel C
  store p ch heap q = if nat_eq q p then ch else heap q

  abbrev pub put : Ptr → Channel C → Client C → Client C
  put p ch c = record c { heap = store p ch c.heap }

  -- `putBasicResponse` of the channel at `p`
  unfoldable pub put_basic_response : Ptr → BasicResponse → Client C → Client C
  put_basic_response p resp c =
      put p (record (c.heap p) { basic_resp = emplace resp.rid resp (c.heap p).basic_resp }) c

  -- `waitResponse`; `none` where the response is not there yet, so that the caller waits on.
  unfoldable pub wait_response : Ptr → Bytes → Client C → Option (BasicResponse × Client C)
  wait_response p rid c = elim (find rid (c.heap p).basic_resp) [
    | none ↦ none
    | some resp ↦
        some (resp, put p (record (c.heap p) { basic_resp = erase rid (c.heap p).basic_resp }) c)
  ]

  -- The consumer's callback is called if the message is for it.
  unfoldable pub consume : Ptr → ConsumeResponse → Client C → Client C
  consume p resp c = elim (c.heap p).consumer [
    | none ↦ c
    | some consumer ↦
        if bytes_eq consumer.tag resp.consumer_tag
        then record c {
          called =
              c.called
              ++ (record {
                callback = consumer.callback;
                tag = resp.consumer_tag;
                properties = resp.properties;
                body = resp.body;
              })
                ∷ [];
        }
        else c
  ]

  -- A call that waits goes on, if its response is there.
  unfoldable pub finish :
      {R : Type 0}
      → Ptr
      → Bytes
      → (BasicResponse → Client C → R × Client C)
      → Client C
      → Option (R × Client C)
  finish p rid rest c = elim (wait_response p rid c) [
    | none ↦ none
    | some (resp, c') ↦ some (rest resp c')
  ]

  -- What comes after a call, once it has returned.
  unfoldable pub and_then : {R S : Type 0} → Call C R → (R → Client C → S × Client C) → Call C S
  and_then crashes rest = crashes
  and_then (returned r c) rest = returned (rest r c).0 (rest r c).1
  and_then (waits rid first c) rest =
      waits rid (λ resp c'. rest (first resp c').0 (first resp c').1) c
