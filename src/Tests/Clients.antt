-- ===== src/Tests/Clients.antt =====
-- A client with one channel, and what arrives for it.
use bitmq.Base.{
  ℕ, ◌≡◌, ◌⊎◌, refl, true, Option, none, some, [], ◌∷◌, take, length, Bytes, codes, bytes_eq,
  bytes_eq_iff, bytes_key, arith,
}
use bitmq.Dict.{find}
use bitmq.Message.{BasicProperties, durable}
use bitmq.MessageManager
use bitmq.Proto
use bitmq.Proto.{Ids, common, queue_un_bind}
use bitmq.Broker
use bitmq.Broker.{Server}
use bitmq.Client.{Void, Ptr, BasicResponse, Consumer, Channel, Client, waits, crashes, finish}
use bitmq.Client.Operations.{ask, destroy, then_reset, to_nothing}
use bitmq.Client.Connection.{
  basic_response, on_message, run_task, new_client, run_all, set_conn, on_connection, open_channel,
  close_channel, remove,
}
use bitmq.Client.Others.{none_yet, one_more, worked, connected, Awaits}
use bitmq.Client.Answers.{answer, settle, IsAnswered, finish-answered, ask-IsAnswered}
use bitmq.Client.Closing
use bitmq.Client.Closing.{closing, answered, closed, cancelling, Received, nothing, closed-destroy}
use bitmq.Client.Connecting.{on_connection-open_channel}
use bitmq.Tests.{plain_wire}
use bitmq.Tests.Managers.{counting}
use bitmq.Tests.Delivery.{no_uuid, server, connection, channel}

-- The user's callbacks are numbered.
abbrev open_one : Channel ℕ
open_one = record { cid = codes "c"; conn = some 7; consumer = none; basic_resp = [] }

abbrev idle : Client ℕ
idle = record (new_client open_one) {
  next = 1;
  latch = 0;
  conn = some 7;
  channels = (codes "c", 0) ∷ [];
}

idle-Awaits : Awaits 0 (no_uuid 1) (codes "c") none idle
unfolding find bytes_eq
idle-Awaits = record { known = refl; old = omega arith; arrived = refl }

finish-answered_example :
    (finish 0 (no_uuid 1) to_nothing (run_task idle) ≡ none)
    × (finish 0
          (no_uuid 1)
          to_nothing
          (set_conn none (basic_response (answer (no_uuid 1) (codes "c") true) (run_task idle)))
        ≡ some (
          tt,
          settle 0 (no_uuid 1) (
              set_conn none (basic_response (answer (no_uuid 1) (codes "c") true) (run_task idle))),
        ))
    × (basic_response (answer (no_uuid 1) (codes "c") true) (remove (codes "c") (run_task idle))
        ≡ remove (codes "c") (run_task idle))
    × (finish 0 (no_uuid 1) to_nothing (remove (codes "c") (run_task idle)) ≡ none)
finish-answered_example =
    finish-answered no_uuid 0 (no_uuid 1) (codes "c") true to_nothing idle (run_task idle)
      (set_conn none (basic_response (answer (no_uuid 1) (codes "c") true) (run_task idle)))
      idle-Awaits (one_more idle (run_task idle) none_yet worked)
      (one_more _ _ none_yet (connected none))

abbrev first_ids : Ids
first_ids = record { rid = no_uuid 1; cid = codes "c" }

ask-IsAnswered_example :
    let req = queue_un_bind (codes "e") (codes "q") in
    (c' : Client ℕ) × (ask no_uuid 0 req to_nothing idle ≡ waits (no_uuid 1) to_nothing c')
    × (c'.sent ≡ (7, first_ids, req) ∷ [])
    × (((Broker.on_message counting plain_wire no_uuid 7 first_ids req server ≡ none)
          × ((name : Bytes) × (MessageManager.init_queue_message plain_wire name
                  server.shared.host.messages server.shared.host.fs
                ≡ none)))
        ⊎ ((srv' : Server ℕ) × (Broker.on_message counting plain_wire no_uuid 7 first_ids req server
              ≡ some srv')
            × IsAnswered no_uuid counting plain_wire no_uuid 0 first_ids to_nothing c' channel
                server srv'))
unfolding find bytes_eq
ask-IsAnswered_example =
    ask-IsAnswered no_uuid counting plain_wire no_uuid 0 7 (queue_un_bind (codes "e") (codes "q"))
      to_nothing idle connection channel server refl refl idle-Awaits refl refl

abbrev news : BasicProperties
news = record { id = codes "a"; delivery_mode = durable; routing_key = codes "k" }

abbrev reader : Consumer ℕ
reader = record { tag = codes "t"; qname = codes "q"; auto_ack = true; callback = 9 }

abbrev subscribed_one : Client ℕ
subscribed_one = record idle { heap = λ p. record open_one { consumer = some reader } }

only_name : (cid : Bytes) → find cid subscribed_one.channels ≡ some 0 → cid ≡ codes "c"
unfolding find
only_name cid h = ground (arith, bytes_eq_iff (codes "c") cid)

subscribed-Awaits : Awaits 0 (no_uuid 1) (codes "c") none subscribed_one
unfolding find bytes_eq
subscribed-Awaits = record { known = refl; old = omega arith; arrived = refl }

-- The server would even answer.
abbrev late : Client ℕ
late =
    basic_response (answer (no_uuid 2) (codes "c") true)
      (cancelling no_uuid 0 7 true reader subscribed_one)

late-Received : Received (cancelling no_uuid 0 7 true reader subscribed_one) late
unfolding on_message
late-Received = Closing.one_more (common (no_uuid 2) (codes "c") true) _ late nothing refl

closed-destroy_example :
    let shut = closed no_uuid 0 7 true subscribed_one in
    ((rest : BasicResponse → Client ℕ → Void × Client ℕ) × (close_channel no_uuid 0 subscribed_one
        ≡ waits (no_uuid 1) rest (closing no_uuid 0 7 subscribed_one))
      × (finish 0 (no_uuid 1) rest (answered no_uuid 0 7 true subscribed_one) ≡ some (tt, shut)))
    × (destroy no_uuid 0 shut
        ≡ waits
            (no_uuid shut.seq)
            (then_reset 0)
            (cancelling no_uuid 0 7 true reader subscribed_one))
    × (finish 0 (no_uuid shut.seq) (then_reset 0) late ≡ none)
unfolding find
closed-destroy_example =
    closed-destroy no_uuid 0 7 true reader subscribed_one late only_name refl refl subscribed-Awaits
      refl late-Received

on_connection-open_channel_example :
    let c = new_client open_one in
    let between = run_all (take 1 (on_connection 7 true)) c in
    let after = run_all (on_connection 7 true) c in
    (length (on_connection {C = ℕ} 7 true) ≡ 2)
    × (between.latch ≡ 0)
    × (open_channel no_uuid between ≡ crashes)
    × (after.latch ≡ 0)
    × ((rest : BasicResponse → Client ℕ → Option Ptr × Client ℕ) × (c' : Client ℕ) × (open_channel
            no_uuid after
          ≡ waits (no_uuid 2) rest c')
        × (c'.sent ≡ (7, record { rid = no_uuid 2; cid = no_uuid 1 }, Proto.open_channel) ∷ []))
on_connection-open_channel_example =
    on_connection-open_channel no_uuid 7 (new_client open_one) refl refl
