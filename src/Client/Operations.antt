-- ===== src/Client/Operations.antt =====
-- `Channel` of mqclient/mq_channel.hpp: each operation on the channel at an address, up to the wait for its
-- response, and what it does after it.
use bitmq.Base.{ℕ, suc, Bool, true, false, Option, none, some, [], ◌∷◌, ◌++◌, Bytes, if◌then◌else◌}
use bitmq.Args.{Args}
use bitmq.Router.{ExchangeType}
use bitmq.Message.{BasicProperties}
use bitmq.Proto
use bitmq.Proto.{Ids, Request}
use bitmq.Client.{Void, Ptr, BasicResponse, Consumer, Client, Call, crashes, returned, waits, put}

-- A copy of the properties, made field by field, if there are any.
abbrev pub copy_properties : Option BasicProperties → Option BasicProperties
copy_properties none = none
copy_properties (some bp) =
    some (record { id = bp.id; delivery_mode = bp.delivery_mode; routing_key = bp.routing_key })

module _ {C : Type 0} where
  abbrev pub set_consumer : Ptr → Option (Consumer C) → Client C → Client C
  set_consumer p consumer c = put p (record (c.heap p) { consumer = consumer }) c

  abbrev pub to_ok : BasicResponse → Client C → Bool × Client C
  to_ok resp c = (resp.ok, c)

  abbrev pub to_nothing : BasicResponse → Client C → Void × Client C
  to_nothing resp c = (tt, c)

  abbrev pub then_reset : Ptr → BasicResponse → Client C → Void × Client C
  then_reset p resp c = (tt, set_consumer p none c)

  abbrev pub then_subscribe : Ptr → Consumer C → BasicResponse → Client C → Bool × Client C
  then_subscribe p consumer resp c =
      if resp.ok then (true, set_consumer p (some consumer) c) else (false, c)

module _ {C : Type 0} (uuid : ℕ → Bytes) where
  -- How every request is sent: with a new rid, which comes back, and the channel's cid. `none` is the use of
  -- a null connection.
  unfoldable pub send_request : Ptr → Request → Client C → Option (Bytes × Client C)
  send_request p req c = elim (c.heap p).conn [
    | none ↦ none
    | some conn ↦
        let ids : Ids = record { rid = uuid c.seq; cid = (c.heap p).cid } in
        some (ids.rid, record c { sent = c.sent ++ (conn, ids, req) ∷ []; seq = suc c.seq })
  ]

  -- A request, the wait for its response, and what follows.
  unfoldable pub ask :
      {R : Type 0} → Ptr → Request → (BasicResponse → Client C → R × Client C) → Client C → Call C R
  unfolding send_request
  ask p req rest c = elim (send_request p req c) [
    | none ↦ crashes
    | some (rid, c') ↦ waits rid rest c'
  ]

  unfoldable pub open_channel : Ptr → Client C → Call C Bool
  unfolding ask
  open_channel p c = ask p Proto.open_channel to_ok c

  unfoldable pub close_channel : Ptr → Client C → Call C Void
  unfolding ask
  close_channel p c = ask p Proto.close_channel to_nothing c

  -- The caller's map of arguments is swapped into the request.
  unfoldable pub declare_exchange :
      Ptr → Bytes → ExchangeType → Bool → Bool → Args → Client C → Call C Bool
  unfolding ask
  declare_exchange p name type durable auto_delete args c =
      ask p (Proto.declare_exchange name type durable auto_delete args) to_ok c

  unfoldable pub delete_exchange : Ptr → Bytes → Client C → Call C Void
  unfolding ask
  delete_exchange p name c = ask p (Proto.delete_exchange name) to_nothing c

  unfoldable pub declare_queue : Ptr → Bytes → Bool → Bool → Bool → Args → Client C → Call C Bool
  unfolding ask
  declare_queue p qname qdurable qexclusive qauto_delete qargs c =
      ask p (Proto.declare_queue qname qexclusive qdurable qauto_delete qargs) to_ok c

  unfoldable pub delete_queue : Ptr → Bytes → Client C → Call C Void
  unfolding ask
  delete_queue p qname c = ask p (Proto.delete_queue qname) to_nothing c

  unfoldable pub queue_bind : Ptr → Bytes → Bytes → Bytes → Client C → Call C Bool
  unfolding ask
  queue_bind p ename qname key c = ask p (Proto.queue_bind ename qname key) to_ok c

  unfoldable pub queue_un_bind : Ptr → Bytes → Bytes → Client C → Call C Void
  unfolding ask
  queue_un_bind p ename qname c = ask p (Proto.queue_un_bind ename qname) to_nothing c

  unfoldable pub basic_publish :
      Ptr → Bytes → Option BasicProperties → Bytes → Client C → Call C Void
  unfolding ask
  basic_publish p ename bp body c =
      ask p (Proto.basic_publish ename body (copy_properties bp)) to_nothing c

  unfoldable pub basic_ack : Ptr → Bytes → Client C → Call C Void
  unfolding ask
  basic_ack p msgid c = elim (c.heap p).consumer [
    | none ↦ returned tt c
    | some consumer ↦ ask p (Proto.basic_ack consumer.qname msgid) to_nothing c
  ]

  unfoldable pub basic_cancel : Ptr → Client C → Call C Void
  unfolding ask
  basic_cancel p c = elim (c.heap p).consumer [
    | none ↦ returned tt c
    | some consumer ↦ ask p (Proto.basic_cancel consumer.tag consumer.qname) (then_reset p) c
  ]

  -- The destructor.
  unfoldable pub destroy : Ptr → Client C → Call C Void
  unfolding basic_cancel
  destroy p c = basic_cancel p c

  unfoldable pub basic_consume : Ptr → Bytes → Bytes → Bool → C → Client C → Call C Bool
  unfolding ask
  basic_consume p consumer_tag queue_name auto_ack cb c = elim (c.heap p).consumer [
    | some consumer ↦ returned false c
    | none ↦
        let consumer : Consumer C = record {
          tag = consumer_tag;
          qname = queue_name;
          auto_ack = auto_ack;
          callback = cb;
        } in
        ask p (Proto.basic_consume consumer_tag queue_name auto_ack) (then_subscribe p consumer) c
  ]
