-- ===== src/QueueMessage.antt =====
-- `QueueMessage` of mqserver/mq_message.hpp: the messages of one queue in memory and in its file. The
-- three containers share their messages by pointers, and a change through one shows in the others:
-- the messages stand in a heap here, and the containers hold addresses.
pub mod Fifo
pub mod Order
pub mod Durable
pub mod Acknowledge
pub mod Placed
pub mod View
pub mod Settle
pub mod Queued
pub mod Tied
pub mod Grow
pub mod Insertion
pub mod Without
pub mod Removal
pub mod Collected
pub mod Acked
pub mod Kept
pub mod Runs
use bitmq.Base.{
  ℕ, zero, suc, ◌+◌, ◌-◌, ◌*◌, ◌/◌, ◌%◌, ◌^◌, Bool, true, false, ◌&&◌, Option, none, some, List, [],
  ◌∷◌, ◌++◌, Bytes, codes, nat_eq, ltb, if◌then◌else◌, length, bytes_key,
}
use bitmq.Dict.{Dict, find, emplace, erase}
use bitmq.File.{Fs}
use bitmq.Message.{
  Message, Payload, BasicProperties, DeliveryMode, unknow_mode, undurable, durable, Wire,
  new_message, size_mod,
}
use bitmq.MessageFile
use bitmq.MessageFile.{Mapper, open_mapper, remove_msg_file}

abbrev pub Ptr : Type 0
Ptr = ℕ

pub record QueueMessage : Type 0 where
  pub mapper : Mapper
  pub valid_count : ℕ
  pub total_count : ℕ
  pub msgs : List Ptr
  pub durable_msgs : Dict Bytes Ptr
  pub waitack_msgs : Dict Bytes Ptr
  -- the objects, and the address of the next one
  pub heap : Ptr → Message
  pub next : Ptr

abbrev pub store : Ptr → Message → (Ptr → Message) → Ptr → Message
store p msg heap q = if nat_eq q p then msg else heap q

abbrev pub id_of : Message → Bytes
id_of msg = msg.payload.properties.id

abbrev pub mode_of : Message → DeliveryMode
mode_of msg = msg.payload.properties.delivery_mode

abbrev pub is_durable : DeliveryMode → Bool
is_durable durable = true
is_durable _ = false

-- The constructor. `none` is the failed assertion of the mapper.
unfoldable pub open_queue : Bytes → Bytes → Fs → Option (QueueMessage × Fs)
open_queue basedir qname fs = elim (open_mapper basedir qname fs) [
  | none ↦ none
  | some (m, fs') ↦ some (
    record {
      mapper = m;
      valid_count = 0;
      total_count = 0;
      msgs = [];
      durable_msgs = [];
      waitack_msgs = [];
      heap = λ p. new_message;
      next = 0;
    },
    fs',
  )
]

-- A new object for a message, pushed to the back of `_msgs`; into `_durable_msgs` if it is not there.
unfoldable pub adopt : Message → QueueMessage → QueueMessage
adopt msg q = record q {
  msgs = q.msgs ++ q.next ∷ [];
  durable_msgs = emplace (id_of msg) q.next q.durable_msgs;
  heap = store q.next msg q.heap;
  next = suc q.next;
}

unfoldable pub adopt_all : List Message → QueueMessage → QueueMessage
unfolding adopt
adopt_all [] q = q
adopt_all (msg ∷ found) q = adopt_all found (adopt msg q)

unfoldable pub gc_check : QueueMessage → Bool
gc_check q = ltb 2000 q.total_count && ltb (q.valid_count * 10 % size_mod / q.total_count) 5

-- The properties of a message to insert. `uuid` is the text that `UUIDHelper::uuid` makes.
unfoldable pub properties_for : Option BasicProperties → Bool → Bytes → BasicProperties
properties_for (some bp) queue_is_durable uuid = record {
  id = bp.id;
  delivery_mode = if queue_is_durable then bp.delivery_mode else undurable;
  routing_key = bp.routing_key;
}
properties_for none queue_is_durable uuid = record {
  id = uuid;
  delivery_mode = if queue_is_durable then durable else undurable;
  routing_key = [];
}

-- One round of the loop of `gc`: a managed message takes its new place, another one is adopted.
unfoldable pub settle : Message → QueueMessage → QueueMessage
unfolding adopt
settle msg q = elim (find (id_of msg) q.durable_msgs) [
  | none ↦ adopt msg q
  | some p ↦ record q {
    heap = store p (record (q.heap p) { offset = msg.offset; length = msg.length }) q.heap;
  }
]

unfoldable pub settle_all : List Message → QueueMessage → QueueMessage
unfolding settle
settle_all [] q = q
settle_all (msg ∷ msgs) q = settle_all msgs (settle msg q)

abbrev pub set_counts : ℕ → QueueMessage → QueueMessage
set_counts n q = record q { valid_count = n; total_count = n }

unfoldable pub front : QueueMessage → Option Message × QueueMessage
front q = elim q.msgs [
  | [] ↦ (none, q)
  | p ∷ rest ↦ (
    some (q.heap p),
    record q { msgs = rest; waitack_msgs = emplace (id_of (q.heap p)) p q.waitack_msgs },
  )
]

abbrev pub getable_count : QueueMessage → ℕ
getable_count q = length q.msgs

abbrev pub durable_count : QueueMessage → ℕ
durable_count q = length q.durable_msgs

abbrev pub waitack_count : QueueMessage → ℕ
waitack_count q = length q.waitack_msgs

unfoldable pub clear : QueueMessage → Fs → QueueMessage × Fs
clear q fs = (
  record q { msgs = []; durable_msgs = []; waitack_msgs = []; valid_count = 0; total_count = 0 },
  remove_msg_file q.mapper fs,
)

module _ (wire : Wire) where
  -- The old list goes; the old entries of the hash stay.
  unfoldable pub recovery : QueueMessage → Fs → QueueMessage × Fs
  unfolding adopt_all
  recovery q fs =
      let (found, fs') = MessageFile.gc wire q.mapper fs in
      (set_counts (length found) (adopt_all found (record q { msgs = [] })), fs')

  unfoldable pub insert :
      Option BasicProperties → Bytes → Bool → Bytes → QueueMessage → Fs → Bool × QueueMessage × Fs
  unfolding properties_for adopt
  insert bp body queue_is_durable uuid q fs =
      let properties = properties_for bp queue_is_durable uuid in
      let kept = record new_message {
        payload = record { properties = properties; body = body; valid = codes "1" };
      } in
      let light = record new_message {
        payload = record { properties = properties; body = body; valid = [] };
      } in
      let (ret, placed, fs') = MessageFile.insert wire q.mapper kept fs in
      let q' = adopt placed q in
      if is_durable properties.delivery_mode
      then (if ret
          then (
            true,
            record q' {
              valid_count = (q.valid_count + 1) % size_mod;
              total_count = (q.total_count + 1) % size_mod;
            },
            fs',
          )
          else (false, q, fs'))
      else (
        true,
        record q {
          msgs = q.msgs ++ q.next ∷ [];
          heap = store q.next light q.heap;
          next = suc q.next;
        },
        fs,
      )

  unfoldable pub gc : QueueMessage → Fs → QueueMessage × Fs
  unfolding gc_check settle_all
  gc q fs =
      let (found, fs') = MessageFile.gc wire q.mapper fs in
      if gc_check q then (set_counts (length found) (settle_all found q), fs') else (q, fs)

  -- The steps of `remove` for a durable message.
  unfoldable pub remove_durable : Bytes → Ptr → QueueMessage → Fs → QueueMessage × Fs
  unfolding gc
  remove_durable msg_id p q fs =
      let (ret, marked, fs1) = MessageFile.remove wire q.mapper (q.heap p) fs in
      gc
        (record q {
          heap = store p marked q.heap;
          durable_msgs = erase msg_id q.durable_msgs;
          valid_count = (q.valid_count + size_mod - 1) % size_mod;
        })
        fs1

  abbrev forget : Bytes → QueueMessage → QueueMessage
  forget msg_id q = record q { waitack_msgs = erase msg_id q.waitack_msgs }

  unfoldable pub remove : Bytes → QueueMessage → Fs → Bool × QueueMessage × Fs
  unfolding remove_durable
  remove msg_id q fs = elim (find msg_id q.waitack_msgs) [
    | none ↦ (true, q, fs)
    | some p ↦
        let (q', fs') = remove_durable msg_id p q fs in
        if is_durable (mode_of (q.heap p))
        then (true, forget msg_id q', fs')
        else (true, forget msg_id q, fs)
  ]
