-- ===== src/QueueMessage/Collected.antt =====
-- The containers and the file of a queue under `gc` of `QueueMessage`.
use bitmq.Base.{
  ℕ, ◌+◌, ◌≡◌, refl, sym, ap, ◌∙◌, false, Option, some, List, [], ◌∷◌, Bytes, bytes_key, length,
  All, arith, Bool-cases, Option-cases, inl, inr, subst,
}
use bitmq.Dict.{find}
use bitmq.File.{Fs}
use bitmq.File.Open.{IsOpen}
use bitmq.Message.{Message, Payload, Wire}
use bitmq.MessageFile
use bitmq.MessageFile.Layout.{record_of, image, live}
use bitmq.MessageFile.Compact.{HasRoom, placed, gc-image}
use bitmq.MessageFile.Rights.{gc-SameRights, SameRights-HasRoom}
use bitmq.QueueMessage.{QueueMessage, Ptr, settle, settle_all, gc, gc_check, set_counts}
use bitmq.QueueMessage.Acknowledge.{live-live}
use bitmq.QueueMessage.Placed.{
  id_in, is_marked, HasDistinctIds, Has, IsMarkable, Placed, Placed-managed,
}
use bitmq.QueueMessage.View.{managed}
use bitmq.QueueMessage.Settle.{AreManaged, AreExact, settle_all-IsSettled}
use bitmq.QueueMessage.Queued.{All-map}
use bitmq.QueueMessage.Tied.{IsTied, counted-IsSorted, SameBooks-IsSorted}
use bitmq.QueueMessage.Without.{All-live, length-image-live}
use bitmq.QueueMessage.Removal.{forgotten}

found_at :
    (q : QueueMessage) (id : Bytes) (m : Message)
    → managed q id ≡ some m
    → (x : Ptr) × (find id q.durable_msgs ≡ some x) × (q.heap x ≡ m)
found_at q id m e = elim (Option-cases (find id q.durable_msgs)) [
  | inl o ↦ ground (arith, o, e)
  | inr (x, o) ↦ (x, o, ground (arith, o, e))
]

-- Forgetting that a message waits for its acknowledgement, before or after the loop of `gc`.
settle-forgotten :
    (msg : Message) (id : Bytes) (q : QueueMessage)
    → settle msg (forgotten id q) ≡ forgotten id (settle msg q)
unfolding settle
settle-forgotten msg id q = ground arith

settle_all-forgotten :
    (found : List Message) (id : Bytes) (q : QueueMessage)
    → settle_all found (forgotten id q) ≡ forgotten id (settle_all found q)
unfolding settle_all
settle_all-forgotten [] id q = refl
settle_all-forgotten (msg ∷ found) id q =
    ap (settle_all found) (settle-forgotten msg id q) ∙ settle_all-forgotten found id (settle msg q)

module _ (wire : Wire) where
  pub gc-forgotten :
      (id : Bytes) (q : QueueMessage) (fs : Fs)
      → gc wire (forgotten id q) fs ≡ (forgotten id (gc wire q fs).0, (gc wire q fs).1)
  unfolding gc gc_check
  gc-forgotten id q fs =
      let found = (MessageFile.gc wire q.mapper fs).0 in
      elim (Bool-cases (gc_check q)) [
        | inl c ↦ rw (c, gc) (rw (settle_all-forgotten found id q) refl)
        | inr c ↦ rw (c, gc) refl
      ]

  Placed-AreManaged :
      (q : QueueMessage) (ps : List Payload) → Placed wire (managed q) 0 ps → AreManaged q (live ps)
  Placed-AreManaged q ps h =
      All-map _ _ (live ps)
        (λ p (m, e, v).
          let (x, f, i) = found_at q (id_in p) m e in (x, f, ap (λ y. y.payload) i ∙ v))
        (Placed-managed wire (managed q) 0 ps h)

  Placed-IsMarkable :
      (at : Bytes → Option Message) (before : ℕ) (ps : List Payload)
      → Placed wire at before ps
      → All (λ p. IsMarkable wire p × (is_marked p ≡ false)) (live ps)
  Placed-IsMarkable at before [] h = tt
  Placed-IsMarkable at before (p ∷ ps) (inl m, h) =
      rw m (Placed-IsMarkable at (before + length (record_of wire p)) ps h)
  Placed-IsMarkable at before (p ∷ ps) (inr (e, k, m), h) =
      rw m ((k, m), Placed-IsMarkable at (before + length (record_of wire p)) ps h)

  AreExact-Placed :
      (at : Bytes → Option Message) (before : ℕ) (ps : List Payload)
      → AreExact wire at before ps
      → All (λ p. IsMarkable wire p × (is_marked p ≡ false)) ps
      → Placed wire at before ps
  AreExact-Placed at before [] h k = tt
  AreExact-Placed at before (p ∷ ps) h k =
      (inr (h.0, k.0.0, k.0.1), AreExact-Placed at (before + length (record_of wire p)) ps h.1 k.1)

  settled-IsTied :
      (q : QueueMessage) (ps : List Payload) (fs fs' : Fs) (n : ℕ)
      → IsTied wire q ps fs
      → IsOpen q.mapper.datafile (image wire (live ps)) fs'
      → HasRoom q.mapper fs'
      → IsTied wire (set_counts n (settle_all (placed wire 0 (live ps)) q)) (live ps) fs'
  settled-IsTied q ps fs fs' n t o room =
      let q' = settle_all (placed wire 0 (live ps)) q in
      let small = length-image-live wire ps in
      let s =
        settle_all-IsSettled wire 0 (live ps) q t.sorted.keyed (Placed-AreManaged q ps t.placed)
          t.distinct (omega (arith, t.small, small)) in
      record {
        sorted = counted-IsSorted n n q' (SameBooks-IsSorted q q' s.books t.sorted);
        file =
            subst (λ m. IsOpen m.datafile (image wire (live ps)) fs') (sym s.books.same_mapper) o;
        room = subst (λ m. HasRoom m fs') (sym s.books.same_mapper) room;
        storable = All-live _ ps t.storable;
        placed =
            AreExact-Placed (managed q') 0 (live ps) s.places
              (Placed-IsMarkable (managed q) 0 ps t.placed);
        distinct = subst HasDistinctIds (sym (live-live wire ps)) t.distinct;
        small = omega (arith, t.small, small);
        recorded = λ id p e.
            subst (Has id) (sym (live-live wire ps))
              (t.recorded id p (ap (find id) (sym s.books.same_durable) ∙ e));
      }

  pub gc-IsTied :
      (q : QueueMessage) (ps : List Payload) (fs : Fs)
      → IsTied wire q ps fs
      → (ps' : List Payload) × IsTied wire (gc wire q fs).0 ps' (gc wire q fs).1
        × (live ps' ≡ live ps)
  unfolding gc
  gc-IsTied q ps fs t = elim (Bool-cases (gc_check q)) [
    | inl c ↦
        let (fs', e, o) = gc-image wire q.mapper ps fs t.file t.room t.storable in
        let room : HasRoom q.mapper fs' =
          subst (HasRoom q.mapper) (ap (λ r. r.1) e)
            (SameRights-HasRoom q.mapper fs _ (gc-SameRights wire q.mapper fs) t.room) in
        (live ps, rw (c, gc) (rw e (settled-IsTied q ps fs fs' _ t o room)), live-live wire ps)
    | inr c ↦ (ps, rw (c, gc) t, refl)
  ]
