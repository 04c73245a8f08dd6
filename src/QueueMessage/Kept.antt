-- ===== src/QueueMessage/Kept.antt =====
-- The containers and the file of a queue under `insert` and `front` of `QueueMessage`.
use bitmq.Base.{
  ◌≡◌, refl, sym, true, if◌then◌else◌, Option, List, [], ◌∷◌, ◌++◌, Bytes, codes, bytes_key, subst,
  Bool, Bool-cases, inl, inr,
}
use bitmq.File.{Fs}
use bitmq.Message.{Payload, Wire, BasicProperties, new_message}
use bitmq.MessageFile
use bitmq.MessageFile.Update.{insert_into-appended}
use bitmq.QueueMessage.{QueueMessage, Ptr, insert, front, is_durable, properties_for}
use bitmq.QueueMessage.Fifo.{payload_for, front-nil, front-cons}
use bitmq.QueueMessage.Tied.{IsTied, popped-IsSorted}
use bitmq.QueueMessage.Queued.{lasts}
use bitmq.QueueMessage.Grow.{IsUnused}
use bitmq.QueueMessage.Insertion.{IsFit, appended-IsTied, light-IsTied}

-- The records of the file after an insertion.
abbrev pub with_inserted : Payload → List Payload → List Payload
with_inserted p ps = if lasts p then ps ++ p ∷ [] else ps

module _ (wire : Wire) where
  durable_payload :
      (bp : Option BasicProperties) (body : Bytes) (qd : Bool) (uuid : Bytes)
      → is_durable (properties_for bp qd uuid).delivery_mode ≡ true
      → payload_for bp body qd uuid
        ≡ record { properties = properties_for bp qd uuid; body = body; valid = codes "1" }
  durable_payload bp body qd uuid e = rw e refl

  pub insert-IsTied :
      (bp : Option BasicProperties) (body uuid : Bytes) (qd : Bool) (q : QueueMessage)
      (ps : List Payload) (fs : Fs)
      → IsTied wire q ps fs
      → IsUnused (payload_for bp body qd uuid).properties.id q
      → (lasts (payload_for bp body qd uuid) ≡ true → IsFit wire (payload_for bp body qd uuid) q ps)
      → let r = insert wire bp body qd uuid q fs in
        (r.0 ≡ true) × IsTied wire r.1 (with_inserted (payload_for bp body qd uuid) ps) r.2
  unfolding insert MessageFile.insert
  insert-IsTied bp body uuid qd q ps fs t u fit =
      let kept = record new_message {
        payload = record { properties = properties_for bp qd uuid; body = body; valid = codes "1" };
      } in
      elim (Bool-cases (is_durable (properties_for bp qd uuid).delivery_mode)) [
        | inl e ↦
            rw (e, insert)
              (rw (insert_into-appended wire kept t.file) (
                refl,
                appended-IsTied wire kept.payload ps q fs _ _ t
                    (subst (λ x. IsFit wire x q ps) (durable_payload bp body qd uuid e) (fit e)),
              ))
        | inr e ↦
            rw (e, insert)
              (
                refl,
                light-IsTied wire
                    (record new_message {
                      payload = record {
                        properties = properties_for bp qd uuid;
                        body = body;
                        valid = [];
                      };
                    })
                    ps q fs t u e,
              )
      ]

  pub front-IsTied :
      (q : QueueMessage) (ps : List Payload) (fs : Fs)
      → IsTied wire q ps fs
      → IsTied wire (front q).1 ps fs
  front-IsTied q ps fs t = at q.msgs refl
    where
      at : (l : List Ptr) → q.msgs ≡ l → IsTied wire (front q).1 ps fs
      at [] e = subst (λ r. IsTied wire r.1 ps fs) (sym (front-nil q e)) t
      at (p ∷ rest) e =
          subst (λ r. IsTied wire r.1 ps fs) (sym (front-cons q p rest e))
            (record {
              sorted = popped-IsSorted p rest q e t.sorted;
              file = t.file;
              room = t.room;
              storable = t.storable;
              placed = t.placed;
              distinct = t.distinct;
              small = t.small;
              recorded = t.recorded;
            })
