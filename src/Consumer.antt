-- ===== src/Consumer.antt =====
-- mqserver/mq_consumer.hpp: `Consumer`, `QueueConsumer`, `ConsumerManager`. The callback of a consumer
-- is a value of a type of the client's.
pub mod Turns
pub mod Tags
use bitmq.Base.{
  ℕ, zero, suc, ◌+◌, ◌%◌, Bool, true, false, Option, none, some, List, [], ◌∷◌, ◌++◌, Bytes,
  bytes_eq, nat_eq, if◌then◌else◌, length, get_elem?, bytes_key,
}
use bitmq.Dict.{Dict, find, assign, erase}
use bitmq.Message.{size_mod}

pub record Consumer (C : Type 0) : Type 0 where
  pub tag : Bytes
  pub qname : Bytes
  pub auto_ack : Bool
  pub callback : C

pub record QueueConsumer (C : Type 0) : Type 0 where
  pub qname : Bytes
  -- a `uint64_t`
  pub rr_seq : ℕ
  pub consumers : List (Consumer C)

module _ {C : Type 0} where
  unfoldable pub has_tag : Bytes → List (Consumer C) → Bool
  has_tag ctag [] = false
  has_tag ctag (c ∷ consumers) = if bytes_eq c.tag ctag then true else has_tag ctag consumers

  -- `create` of a queue's consumers
  unfoldable pub add :
      Bytes → Bytes → Bool → C → QueueConsumer C → Option (Consumer C) × QueueConsumer C
  unfolding has_tag
  add ctag queue_name ack_flag cb q =
      let consumer : Consumer C = record {
        tag = ctag;
        qname = queue_name;
        auto_ack = ack_flag;
        callback = cb;
      } in
      if has_tag ctag q.consumers
      then (none, q)
      else (some consumer, record q { consumers = q.consumers ++ consumer ∷ [] })

  -- The first consumer with the tag goes.
  unfoldable pub drop_tag : Bytes → List (Consumer C) → List (Consumer C)
  drop_tag ctag [] = []
  drop_tag ctag (c ∷ consumers) =
      if bytes_eq c.tag ctag then consumers else c ∷ drop_tag ctag consumers

  unfoldable pub remove_from : Bytes → QueueConsumer C → QueueConsumer C
  unfolding drop_tag
  remove_from ctag q = record q { consumers = drop_tag ctag q.consumers }

  -- The index is in range, so the vector's `[]` gives a consumer. `int` holds it up to 2 ^ 31 consumers.
  unfoldable pub choose_from : QueueConsumer C → Option (Consumer C) × QueueConsumer C
  choose_from q = elim q.consumers [
    | [] ↦ (none, q)
    | c ∷ consumers ↦ (
      get_elem? (c ∷ consumers) (q.rr_seq % length (c ∷ consumers)),
      record q { rr_seq = (q.rr_seq + 1) % size_mod },
    )
  ]

  unfoldable pub clear_queue : QueueConsumer C → QueueConsumer C
  clear_queue q = record q { consumers = []; rr_seq = 0 }

abbrev pub ConsumerManager : Type 0 → Type 0
ConsumerManager C = Dict Bytes (QueueConsumer C)

module _ {C : Type 0} where
  unfoldable pub init_queue_consumer : Bytes → ConsumerManager C → ConsumerManager C
  init_queue_consumer qname m = elim (find qname m) [
    | some q ↦ m
    | none ↦ assign qname (record { qname = qname; rr_seq = 0; consumers = [] }) m
  ]

  unfoldable pub destroy_queue_consumer : Bytes → ConsumerManager C → ConsumerManager C
  destroy_queue_consumer qname m = erase qname m

  unfoldable pub create :
      Bytes → Bytes → Bool → C → ConsumerManager C → Option (Consumer C) × ConsumerManager C
  create ctag queue_name ack_flag cb m = elim (find queue_name m) [
    | none ↦ (none, m)
    | some q ↦
        let (consumer, q') = add ctag queue_name ack_flag cb q in (consumer, assign queue_name q' m)
  ]

  unfoldable pub remove : Bytes → Bytes → ConsumerManager C → ConsumerManager C
  remove ctag queue_name m = elim (find queue_name m) [
    | none ↦ m
    | some q ↦ assign queue_name (remove_from ctag q) m
  ]

  unfoldable pub choose : Bytes → ConsumerManager C → Option (Consumer C) × ConsumerManager C
  choose queue_name m = elim (find queue_name m) [
    | none ↦ (none, m)
    | some q ↦ let (consumer, q') = choose_from q in (consumer, assign queue_name q' m)
  ]

  -- A queue with no handle is not empty.
  unfoldable pub empty : Bytes → ConsumerManager C → Bool
  empty queue_name m = elim (find queue_name m) [
    | none ↦ false
    | some q ↦ nat_eq (length q.consumers) 0
  ]

  unfoldable pub exists : Bytes → Bytes → ConsumerManager C → Bool
  exists ctag queue_name m = elim (find queue_name m) [
    | none ↦ false
    | some q ↦ has_tag ctag q.consumers
  ]

  abbrev pub clear : ConsumerManager C → ConsumerManager C
  clear m = []
