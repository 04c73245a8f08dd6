-- ===== src/QueueMessage/Durable.antt =====
-- `insert` of a durable message and `recovery` of `QueueMessage`, over the contents of the file.
use bitmq.Base.{
  ℕ, suc, ◌+◌, ◌≡◌, refl, sym, ap, ◌∙◌, true, Option, List, [], ◌∷◌, ◌++◌, map, Bytes, codes,
  bytes_eq, length, All, arith, append-nil, subst, bytes_key,
}
use bitmq.File.{Fs}
use bitmq.File.Open.{IsOpen}
use bitmq.Message.{Message, Payload, BasicProperties, Wire, new_message}
use bitmq.MessageFile
use bitmq.MessageFile.Layout.{image, image-append, IsStorable, live, record_of}
use bitmq.MessageFile.Update.{appended, insert_into-appended, appended-IsOpen}
use bitmq.MessageFile.Compact.{HasRoom, placed, gc-image}
use bitmq.QueueMessage.{
  QueueMessage, is_durable, adopt, adopt_all, properties_for, insert, recovery,
}
use bitmq.QueueMessage.Fifo.{contents, IsAllocated, adopt_all-contents}

pub live-append : (ps qs : List Payload) → live (ps ++ qs) ≡ live ps ++ live qs
live-append [] qs = refl
live-append (p ∷ ps) qs = ground (arith, live-append ps qs)

module _ (wire : Wire) where
  placed-payload : (n : ℕ) (ps : List Payload) → map (λ msg. msg.payload) (placed wire n ps) ≡ ps
  placed-payload n [] = refl
  placed-payload n (p ∷ ps) = ap (λ r. p ∷ r) (placed-payload (n + length (record_of wire p)) ps)

  placed-length : (n : ℕ) (ps : List Payload) → length (placed wire n ps) ≡ length ps
  placed-length n [] = refl
  placed-length n (p ∷ ps) = ap suc (placed-length (n + length (record_of wire p)) ps)

  adopt_all-keeps :
      (found : List Message) (q : QueueMessage) → (adopt_all found q).mapper ≡ q.mapper
  unfolding adopt_all adopt
  adopt_all-keeps [] q = refl
  adopt_all-keeps (msg ∷ found) q = adopt_all-keeps found (adopt msg q)

  no_waiting : (q : QueueMessage) → IsAllocated q → IsAllocated (record q { msgs = [] })
  no_waiting q a = record { waiting = tt; managed = a.managed; unacked = a.unacked }

  -- Recovery on a file of whole records that read back, with room beside it: exactly the payloads
  -- of the records that are not marked wait, in the order of the file; the two counts are their
  -- number; and the file holds those records only.
  pub recovery-contents :
      (q : QueueMessage) (ps : List Payload) (fs : Fs)
      → IsAllocated q
      → IsOpen q.mapper.datafile (image wire ps) fs
      → HasRoom q.mapper fs
      → All (IsStorable wire) ps
      → let r = recovery wire q fs in
        (contents r.0 ≡ live ps)
        × (r.0.total_count ≡ length (live ps))
        × (r.0.valid_count ≡ length (live ps))
        × IsOpen q.mapper.datafile (image wire (live ps)) r.1
  unfolding recovery
  recovery-contents q ps fs a o room s =
      let (fs', e, o') = gc-image wire q.mapper ps fs o room s in
      rw (e, recovery)
        (
          adopt_all-contents (placed wire 0 (live ps)) (record q { msgs = [] }) (no_waiting q a)
              ∙ placed-payload 0 (live ps),
          placed-length 0 (live ps),
          placed-length 0 (live ps),
          o',
        )

  -- The payload of a durable message, as it is kept.
  abbrev pub kept_payload : Option BasicProperties → Bytes → Bytes → Payload
  kept_payload bp body uuid = record {
    properties = properties_for bp true uuid;
    body = body;
    valid = codes "1";
  }

  -- What an insertion of a durable message comes to, on a file of whole records.
  insert-appended :
      (bp : Option BasicProperties) (body uuid : Bytes) (q : QueueMessage) (ps : List Payload)
      (fs : Fs)
      → is_durable (properties_for bp true uuid).delivery_mode ≡ true
      → IsOpen q.mapper.datafile (image wire ps) fs
      → let r = insert wire bp body true uuid q fs in
        (r.0 ≡ true)
        × (r.2 ≡ appended wire q.mapper.datafile (image wire ps) (kept_payload bp body uuid) fs)
  unfolding insert MessageFile.insert
  insert-appended bp body uuid q ps fs d o =
      let kept = record new_message { payload = kept_payload bp body uuid } in
      rw (d, insert) (rw (insert_into-appended wire kept o) (refl, refl))

  pub image-last :
      (ps : List Payload) (p : Payload)
      → image wire ps ++ record_of wire p ≡ image wire (ps ++ p ∷ [])
  image-last ps p =
      ap (λ r. image wire ps ++ r) (sym (append-nil (record_of wire p)))
      ∙ sym (image-append wire ps (p ∷ []))

  -- On a file of whole records that read back, with room beside it, the insertion of a durable
  -- message into a durable queue answers true, and a queue that is made anew over that file
  -- recovers the messages that the file had, with this one behind them.
  pub insert-recovery :
      (bp : Option BasicProperties) (body uuid : Bytes) (q fresh_q : QueueMessage)
      (ps : List Payload) (fs : Fs)
      → is_durable (properties_for bp true uuid).delivery_mode ≡ true
      → IsOpen q.mapper.datafile (image wire ps) fs
      → HasRoom q.mapper fs
      → All (IsStorable wire) (ps ++ kept_payload bp body uuid ∷ [])
      → IsAllocated fresh_q
      → fresh_q.mapper ≡ q.mapper
      → let r = insert wire bp body true uuid q fs in
        (r.0 ≡ true)
        × (contents (recovery wire fresh_q r.2).0 ≡ live ps ++ kept_payload bp body uuid ∷ [])
  unfolding bytes_eq
  insert-recovery bp body uuid q fresh_q ps fs d o room s a same =
      let p = kept_payload bp body uuid in
      let fs' = appended wire q.mapper.datafile (image wire ps) p fs in
      let (ok, after) = insert-appended bp body uuid q ps fs d o in
      let o' : IsOpen q.mapper.datafile (image wire (ps ++ p ∷ [])) fs' =
        subst (λ c. IsOpen q.mapper.datafile c fs') (image-last ps p) (appended-IsOpen wire p o) in
      let room' : HasRoom q.mapper fs' = record {
        apart = room.apart;
        may_read = room.may_read;
        may_write = room.may_write;
        no_dir = room.no_dir;
        no_data_dir = room.no_data_dir;
      } in
      let restored =
        recovery-contents fresh_q (ps ++ p ∷ []) fs' a
          (subst (λ m. IsOpen m.datafile (image wire (ps ++ p ∷ [])) fs') (sym same) o')
          (subst (λ m. HasRoom m fs') (sym same) room') s in
      (ok, rw after (restored.0 ∙ live-append ps (p ∷ [])))
