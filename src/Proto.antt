-- ===== src/Proto.antt =====
-- mqcommon/mq_proto.proto: the requests of a client and the answers of the broker.
use bitmq.Base.{Bool, Option, Bytes}
use bitmq.Args.{Args}
use bitmq.Router.{ExchangeType}
use bitmq.Message.{BasicProperties}

-- `rid` and `cid`, which every request carries.
pub record Ids : Type 0 where
  pub rid : Bytes
  pub cid : Bytes

pub data Request : Type 0 where
  open_channel close_channel : Request
  -- exchange_name, exchange_type, durable, auto_delete, args
  declare_exchange : Bytes → ExchangeType → Bool → Bool → Args → Request
  delete_exchange : Bytes → Request
  -- queue_name, exclusive, durable, auto_delete, args
  declare_queue : Bytes → Bool → Bool → Bool → Args → Request
  delete_queue : Bytes → Request
  -- exchange_name, queue_name, binding_key
  queue_bind : Bytes → Bytes → Bytes → Request
  queue_un_bind : Bytes → Bytes → Request
  -- exchange_name, body, properties
  basic_publish : Bytes → Bytes → Option BasicProperties → Request
  -- queue_name, message_id
  basic_ack : Bytes → Bytes → Request
  -- consumer_tag, queue_name, auto_ack
  basic_consume : Bytes → Bytes → Bool → Request
  -- consumer_tag, queue_name
  basic_cancel : Bytes → Bytes → Request
  -- any other message
  unknown : Request

pub data Response : Type 0 where
  -- basicCommonResponse: rid, cid, ok
  common : Bytes → Bytes → Bool → Response
  -- basicConsumeResponse: cid, consumer_tag, body, properties
  push : Bytes → Bytes → Bytes → BasicProperties → Response
