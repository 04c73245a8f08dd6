-- ===== src/MessageManager.antt =====
-- `MessageManager` of mqserver/mq_message.hpp: the message handles of the queues by their names.
use bitmq.Base.{ℕ, Bool, false, Option, none, some, [], ◌∷◌, Bytes, bytes_key}
use bitmq.Dict.{Dict, find, emplace, assign, erase}
use bitmq.File.{Fs}
use bitmq.Message.{Message, BasicProperties, Wire}
use bitmq.MessageFile.{with_slash}
use bitmq.QueueMessage
use bitmq.QueueMessage.{QueueMessage, open_queue}

pub record MessageManager : Type 0 where
  pub basedir : Bytes
  pub queue_msgs : Dict Bytes QueueMessage

-- An operation on the object behind a name writes it back there.
abbrev pub update : Bytes → QueueMessage → MessageManager → MessageManager
update qname q m = record m { queue_msgs = assign qname q m.queue_msgs }

unfoldable pub clear_all : Dict Bytes QueueMessage → Fs → Dict Bytes QueueMessage × Fs
clear_all [] fs = ([], fs)
clear_all ((qname, q) ∷ queue_msgs) fs =
    let (q', fs1) = QueueMessage.clear q fs in
    let rest = clear_all queue_msgs fs1 in ((qname, q') ∷ rest.0, rest.1)

unfoldable pub clear : MessageManager → Fs → MessageManager × Fs
unfolding clear_all
clear m fs =
    let (cleared, fs') = clear_all m.queue_msgs fs in (record m { queue_msgs = cleared }, fs')

unfoldable pub destroy_queue_message : Bytes → MessageManager → Fs → MessageManager × Fs
destroy_queue_message qname m fs = elim (find qname m.queue_msgs) [
  | none ↦ (m, fs)
  | some q ↦ (record m { queue_msgs = erase qname m.queue_msgs }, (QueueMessage.clear q fs).1)
]

unfoldable pub front : Bytes → MessageManager → Option Message × MessageManager
front qname m = elim (find qname m.queue_msgs) [
  | none ↦ (none, m)
  | some q ↦ ((QueueMessage.front q).0, update qname (QueueMessage.front q).1 m)
]

-- The four counts, each 0 for a queue with no handle.
abbrev pub count_of : (QueueMessage → ℕ) → Bytes → MessageManager → ℕ
count_of count qname m = elim (find qname m.queue_msgs) [ none ↦ 0 | some q ↦ count q ]

abbrev pub getable_count : Bytes → MessageManager → ℕ
getable_count = count_of QueueMessage.getable_count

abbrev pub total_count : Bytes → MessageManager → ℕ
total_count = count_of (λ q. q.total_count)

abbrev pub durable_count : Bytes → MessageManager → ℕ
durable_count = count_of QueueMessage.durable_count

abbrev pub waitack_count : Bytes → MessageManager → ℕ
waitack_count = count_of QueueMessage.waitack_count

module _ (wire : Wire) where
  -- `none` is the failed assertion of the mapper.
  unfoldable pub init_queue_message : Bytes → MessageManager → Fs → Option (MessageManager × Fs)
  init_queue_message qname m fs = elim (find qname m.queue_msgs) [
    | some q ↦ some (m, fs)
    | none ↦ elim (open_queue m.basedir qname fs) [
      | none ↦ none
      | some (q, fs1) ↦
          let (q', fs2) = QueueMessage.recovery wire q fs1 in
          some (
            record { basedir = with_slash m.basedir; queue_msgs = emplace qname q' m.queue_msgs },
            fs2,
          )
    ]
  ]

  unfoldable pub insert :
      Bytes
      → Option BasicProperties
      → Bytes
      → Bool
      → Bytes
      → MessageManager
      → Fs
      → Bool × MessageManager × Fs
  insert qname bp body queue_is_durable uuid m fs = elim (find qname m.queue_msgs) [
    | none ↦ (false, m, fs)
    | some q ↦
        let (ret, q', fs') = QueueMessage.insert wire bp body queue_is_durable uuid q fs in
        (ret, update qname q' m, fs')
  ]

  unfoldable pub ack : Bytes → Bytes → MessageManager → Fs → MessageManager × Fs
  ack qname msg_id m fs = elim (find qname m.queue_msgs) [
    | none ↦ (m, fs)
    | some q ↦ let (ret, q', fs') = QueueMessage.remove wire msg_id q fs in (update qname q' m, fs')
  ]
