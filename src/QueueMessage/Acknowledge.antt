-- ===== src/QueueMessage/Acknowledge.antt =====
-- `remove` of `QueueMessage`, over the contents of the file.
use bitmq.Base.{
  ◌+◌, ◌-◌, ◌%◌, ◌≡◌, refl, sym, ap, ◌∙◌, true, some, List, [], ◌∷◌, ◌++◌, Bytes, bytes_eq, length,
  All, arith, subst, bytes_key, Bool-cases, inl, inr,
}
use bitmq.Dict.{find, erase}
use bitmq.File.{Fs}
use bitmq.File.Open.{IsOpen}
use bitmq.Message.{Payload, Wire, size_mod}
use bitmq.MessageFile.Layout.{image, IsStorable, live}
use bitmq.MessageFile.Update.{marked, remove-image, remove-write}
use bitmq.MessageFile.Compact.{HasRoom, gc-image}
use bitmq.QueueMessage.{
  QueueMessage, Ptr, store, is_durable, mode_of, gc, gc_check, remove, remove_durable,
}
use bitmq.QueueMessage.Durable.{live-append}

-- The records with one of them marked give the others.
pub live-marked :
    (wire : Wire) (before after : List Payload) (p : Payload)
    → live (before ++ marked wire p ∷ after) ≡ live before ++ live after
unfolding bytes_eq
live-marked wire before after p = live-append before (marked wire p ∷ after)

module _ (wire : Wire) where
  open wire use {serialize}

  pub live-live : (ps : List Payload) → live (live ps) ≡ live ps
  live-live [] = refl
  live-live (p ∷ ps) = ground (arith, live-live ps)

  -- The file after a collection that may or may not be due.
  gc-kept :
      (q : QueueMessage) (ps : List Payload) (fs : Fs)
      → IsOpen q.mapper.datafile (image wire ps) fs
      → HasRoom q.mapper fs
      → All (IsStorable wire) ps
      → (ps' : List Payload) × IsOpen q.mapper.datafile (image wire ps') (gc wire q fs).1
        × (live ps' ≡ live ps)
  unfolding gc
  gc-kept q ps fs o room s = elim (Bool-cases (gc_check q)) [
    | inl c ↦
        let (fs', e, o') = gc-image wire q.mapper ps fs o room s in
        (live ps, rw (c, gc) (rw e o'), live-live ps)
    | inr c ↦ (ps, rw (c, gc) o, refl)
  ]

  -- A durable message that is not acknowledged yet, and its record in the file.
  pub record IsUnacked (msg_id : Bytes) (p : Ptr) (q : QueueMessage) (before after : List Payload)
      (fs : Fs) : Type 0 where
    pub waits : find msg_id q.waitack_msgs ≡ some p
    pub mode : is_durable (mode_of (q.heap p)) ≡ true
    pub recorded : IsOpen q.mapper.datafile (image wire (before ++ (q.heap p).payload ∷ after)) fs
    pub place : (q.heap p).offset ≡ length (image wire before) + 8
    pub size : (q.heap p).length ≡ length (serialize (q.heap p).payload)
    pub same_size :
        length (serialize (marked wire (q.heap p).payload)) ≡ length (serialize (q.heap p).payload)

  -- For a durable message that is not acknowledged yet, whose place and size in memory are those of
  -- its record in a file of whole records that read back, with room beside it: the acknowledgement
  -- takes that record, and no other one, from those that are not marked, whether a collection runs
  -- then or not.
  pub remove-live :
      (msg_id : Bytes) (p : Ptr) (q : QueueMessage) (before after : List Payload) (fs : Fs)
      → IsUnacked msg_id p q before after fs
      → HasRoom q.mapper fs
      → All (IsStorable wire) (before ++ marked wire (q.heap p).payload ∷ after)
      → let r = remove wire msg_id q fs in
        (r.0 ≡ true)
        × ((ps : List Payload) × IsOpen q.mapper.datafile (image wire ps) r.2
            × (live ps ≡ live before ++ live after))
  unfolding remove remove_durable
  remove-live msg_id p q before after fs u room s =
      let msg = q.heap p in
      let (fs1, e, o1) =
        remove-image wire q.mapper msg before after fs u.recorded u.place u.size u.same_size in
      let written =
        sym (remove-write wire q.mapper msg u.recorded (u.same_size ∙ sym u.size)) ∙ e in
      let room' : HasRoom q.mapper fs1 = subst (HasRoom q.mapper) (ap (λ r. r.2) written) (record {
        apart = room.apart;
        may_read = room.may_read;
        may_write = room.may_write;
        no_dir = room.no_dir;
        no_data_dir = room.no_data_dir;
      }) in
      let q1 = record q {
        heap = store p (record msg { payload = marked wire msg.payload }) q.heap;
        durable_msgs = erase msg_id q.durable_msgs;
        valid_count = (q.valid_count + size_mod - 1) % size_mod;
      } in
      let (ps, o2, l) = gc-kept q1 (before ++ marked wire msg.payload ∷ after) fs1 o1 room' s in
      rw (u.waits, remove)
        (rw (u.mode, remove_durable)
          (rw e (refl, (ps, o2, l ∙ live-marked wire before after msg.payload))))
