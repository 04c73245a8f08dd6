-- ===== src/Tests/Delivery.antt =====
-- A server with one connection, one channel and two consumers.
use bitmq.Base.{
  ℕ, ◌<◌, ◌≡◌, refl, true, none, some, [], ◌∷◌, Bytes, codes, bytes_eq, length, get_elem?, arith,
  nat_key, bytes_key,
}
use bitmq.Dict.{find}
use bitmq.Consumer.{Consumer, QueueConsumer, choose_from}
use bitmq.Consumer.Turns.{after, choose_in_turn}
use bitmq.Host.{VirtualHost}
use bitmq.Proto.{Ids, queue_un_bind}
use bitmq.Channel.{Channel, Shared, Callback}
use bitmq.Channel.Publish.{Published, publish-routed}
use bitmq.Channel.Consume.{Consumed, consume-delivered}
use bitmq.Broker.{Connection, Server, on_message}
use bitmq.Broker.Frames.{Served, on_message-Served}
use bitmq.Tests.{plain_wire, empty_queue, last}
use bitmq.Tests.Managers.{counting, host}

abbrev pub consumer : Bytes → Consumer Callback
consumer tag = record {
  tag = tag;
  qname = codes "q";
  auto_ack = true;
  callback = record { conn = 7; cid = codes "c" };
}

abbrev pub two : QueueConsumer Callback
two = record {
  qname = codes "q";
  rr_seq = 5;
  consumers = consumer (codes "x") ∷ consumer (codes "y") ∷ [];
}

choose_in_turn_example :
    (k : ℕ) × (k < length (consumer (codes "x") ∷ consumer (codes "y") ∷ []))
    × ((choose_from (after k two)).0
        ≡ get_elem? (consumer (codes "x") ∷ consumer (codes "y") ∷ []) 0)
choose_in_turn_example =
    choose_in_turn two (consumer (codes "x")) (consumer (codes "y") ∷ []) 0 refl (omega arith)
      (omega arith)

abbrev busy_host : VirtualHost ℕ
busy_host = record host {
  messages = record {
    basedir = codes "d/";
    queue_msgs =
        (
          codes "q",
          record empty_queue {
            msgs = 0 ∷ [];
            heap = λ p. record { payload = last; offset = 0; length = 0 };
            next = 1;
          },
        )
        ∷ [];
  };
}

abbrev pub shared : Shared ℕ
shared = record {
  host = busy_host;
  consumers = (codes "q", two) ∷ [];
  tasks = [];
  sent = [];
  seq = 1;
}

abbrev pub no_uuid : ℕ → Bytes
no_uuid n = n ∷ []

abbrev pub ids : Ids
ids = record { rid = codes "1"; cid = codes "c" }

abbrev pub channel : Channel
channel = record { cid = codes "c"; conn = 7; consumer = none }

publish-routed_example :
    Published counting plain_wire no_uuid ids
      (codes "e")
      (codes "hi")
      (some last.properties)
      channel
      shared
publish-routed_example =
    publish-routed counting plain_wire no_uuid ids (codes "e") (codes "hi") (some last.properties)
      channel shared

consume-delivered_example : Consumed counting plain_wire no_uuid (codes "q") shared
consume-delivered_example = consume-delivered counting plain_wire no_uuid (codes "q") shared

abbrev pub connection : Connection
connection = record { conn = 7; channels = (codes "c", channel) ∷ [] }

abbrev pub server : Server ℕ
server = record { shared = shared; conns = (7, connection) ∷ []; shut = [] }

on_message-Served_example :
    Served counting plain_wire no_uuid 7 ids channel server
      (on_message counting plain_wire no_uuid 7 ids (queue_un_bind (codes "e") (codes "q")) server)
unfolding find bytes_eq
on_message-Served_example =
    on_message-Served counting plain_wire no_uuid 7 ids (queue_un_bind (codes "e") (codes "q"))
      connection channel server refl refl refl

abbrev pub other_ids : Ids
other_ids = record { rid = codes "1"; cid = codes "d" }
