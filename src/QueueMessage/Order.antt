-- ===== src/QueueMessage/Order.antt =====
-- `insert` and `front` of `QueueMessage` as the two ends of a queue of payloads.
use bitmq.Base.{
  ℕ, zero, suc, take, ◌≡◌, refl, sym, ap, ◌∙◌, ◌⊎◌, inl, inr, Bool, true, false, Option, none, some,
  List, [], ◌∷◌, ◌++◌, Bytes, codes, if◌then◌else◌, arith,
}
use bitmq.File.{Fs}
use bitmq.Message.{
  Message, Payload, BasicProperties, DeliveryMode, undurable, durable, Wire, new_message,
}
use bitmq.MessageFile
use bitmq.QueueMessage.{QueueMessage, is_durable, properties_for, front, insert}
use bitmq.QueueMessage.Fifo.{contents, IsAllocated, payload_for, front-contents, insert-contents}

-- What an insertion is to make, by the cases of its arguments: the id of the given properties or else the
-- new text; the mode that is given, or else the durable one, if the queue is durable; and the mark.
abbrev pub due_id : Option BasicProperties → Bytes → Bytes
due_id none uuid = uuid
due_id (some bp) uuid = bp.id

abbrev pub due_mode : Option BasicProperties → Bool → DeliveryMode
due_mode bp false = undurable
due_mode none true = durable
due_mode (some bp) true = bp.delivery_mode

abbrev pub due_key : Option BasicProperties → Bytes
due_key none = []
due_key (some bp) = bp.routing_key

abbrev pub due_valid : DeliveryMode → Bytes
due_valid durable = codes "1"
due_valid _ = []

abbrev pub due : Option BasicProperties → Bytes → Bool → Bytes → Payload
due bp body queue_is_durable uuid = record {
  properties = record {
    id = due_id bp uuid;
    delivery_mode = due_mode bp queue_is_durable;
    routing_key = due_key bp;
  };
  body = body;
  valid = due_valid (due_mode bp queue_is_durable);
}

payload_for-due :
    (bp : Option BasicProperties) (body uuid : Bytes) (queue_is_durable : Bool)
    → payload_for bp body queue_is_durable uuid ≡ due bp body queue_is_durable uuid
unfolding properties_for
payload_for-due bp body uuid queue_is_durable = ground arith

-- What a number of calls of `front` hand out, until there is nothing.
abbrev pub hand_on : Option Message → List Payload → List Payload
hand_on none rest = []
hand_on (some msg) rest = msg.payload ∷ rest

abbrev pub handed : ℕ → QueueMessage → List Payload
handed zero q = []
handed (suc n) q = hand_on (front q).0 (handed n (front q).1)

handed-contents : (n : ℕ) (q : QueueMessage) → handed n q ≡ take n (contents q)
handed-contents zero q = refl
handed-contents (suc n) q = elim (front-contents q) [
  | inl (empty, same) ↦ ap (λ r. hand_on r.0 (handed n r.1)) same ∙ sym (ap (take (suc n)) empty)
  | inr (msg, q', same, first) ↦
      ap (λ r. hand_on r.0 (handed n r.1)) same
      ∙ ap (λ r. msg.payload ∷ r) (handed-contents n q')
      ∙ sym (ap (take (suc n)) first)
]

module _ (wire : Wire) where
  -- Whether the file takes the payload that is due.
  abbrev pub stores : Option BasicProperties → Bytes → Bool → Bytes → QueueMessage → Fs → Bool
  stores bp body queue_is_durable uuid q fs =
      let p = record (due bp body queue_is_durable uuid) { valid = codes "1" } in
      (MessageFile.insert wire q.mapper (record new_message { payload = p }) fs).0

  insert-answer :
      (bp : Option BasicProperties) (body uuid : Bytes) (queue_is_durable : Bool) (q : QueueMessage)
      (fs : Fs)
      → (insert wire bp body queue_is_durable uuid q fs).0 ≡ (
          if is_durable (due_mode bp queue_is_durable)
          then stores bp body queue_is_durable uuid q fs
          else true)
  unfolding insert properties_for
  insert-answer bp body uuid queue_is_durable q fs = ground arith

  -- The queue is first in, first out. `insert` answers true exactly where the message is not durable or its
  -- file takes it, and then puts it at the end; else it changes nothing in memory. The message has the given
  -- id and key, or else the new id and no key; it is durable where the queue is and the given mode is, or
  -- none is given. And any number of calls of `front` hand out what waited before, each payload once and in
  -- order, then this one if it was put in, and then nothing. The queue's addresses are in use below the
  -- next one.
  pub contents_after :
      (bp : Option BasicProperties) (body uuid : Bytes) (queue_is_durable : Bool) (q : QueueMessage)
      (fs : Fs) (n : ℕ)
      → IsAllocated q
      → let r = insert wire bp body queue_is_durable uuid q fs in
        let p = due bp body queue_is_durable uuid in
        (r.0 ≡ (
          if is_durable p.properties.delivery_mode
          then stores bp body queue_is_durable uuid q fs
          else true))
        × (((r.0 ≡ false) × (r.1 ≡ q)) ⊎ ((r.0 ≡ true) × (contents r.1 ≡ contents q ++ p ∷ [])))
        × (handed n r.1 ≡ take n (if r.0 then contents q ++ p ∷ [] else contents q))
  contents_after bp body uuid queue_is_durable q fs n a =
      let r = insert wire bp body queue_is_durable uuid q fs in
      let is_due = payload_for-due bp body uuid queue_is_durable in
      let out = handed-contents n r.1 in
      (
        insert-answer bp body uuid queue_is_durable q fs,
        elim (insert-contents wire bp body uuid queue_is_durable q fs a) [
          | inl refused ↦ inl refused
          | inr (taken, grown) ↦ inr (taken, grown ∙ ap (λ x. contents q ++ x ∷ []) is_due)
        ],
        elim (insert-contents wire bp body uuid queue_is_durable q fs a) [
          | inl (refused, same) ↦ rw refused (out ∙ ap (λ x. take n (contents x)) same)
          | inr (taken, grown) ↦
              rw taken (out ∙ ap (take n) (grown ∙ ap (λ x. contents q ++ x ∷ []) is_due))
        ],
      )
