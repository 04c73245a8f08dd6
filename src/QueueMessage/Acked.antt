-- ===== src/QueueMessage/Acked.antt =====
-- The containers and the file of a queue under `remove` of `QueueMessage`.
use bitmq.Base.{
  ℕ, ◌+◌, ◌-◌, ◌%◌, ◌≡◌, ◌≢◌, refl, sym, ap, ◌∙◌, true, false, some, none, List, ◌∷◌, ◌++◌, Bytes,
  bytes_eq_iff, bytes_key, if◌then◌else◌, length, All, arith, Bool-cases, Option-cases, inl, inr,
  subst,
}
use bitmq.Dict.{find, find-erase}
use bitmq.File.{Fs}
use bitmq.File.Open.{IsOpen}
use bitmq.Message.{Payload, Wire, size_mod}
use bitmq.MessageFile.Layout.{image, live}
use bitmq.MessageFile.Update.{marked, remove-image}
use bitmq.MessageFile.Compact.{HasRoom}
use bitmq.MessageFile.Rights.{remove-SameRights, SameRights-HasRoom}
use bitmq.QueueMessage.{QueueMessage, Ptr, remove, remove_durable}
use bitmq.QueueMessage.Acknowledge.{live-marked}
use bitmq.QueueMessage.Durable.{live-append}
use bitmq.QueueMessage.Placed.{
  id_in, is_marked, without, live-kept, HasDistinctIds, Has, IsMarkable, exact, Placed-same,
  Placed-marked, Placed-Located,
}
use bitmq.QueueMessage.View.{managed}
use bitmq.QueueMessage.Queued.{All-map, lasts}
use bitmq.QueueMessage.Tied.{IsTied, pay}
use bitmq.QueueMessage.Without.{
  All-replace, distinct_others, Has-without, live-without, length-image-marked,
}
use bitmq.QueueMessage.Removal.{
  unmanaged, forgotten, unmanaged-managed, removed-IsSorted, forgotten-IsSorted,
}
use bitmq.QueueMessage.Collected.{gc-IsTied, gc-forgotten}

-- What is left of the payloads after the acknowledgement of an id: one of a durable message that waits for
-- it goes.
abbrev pub acked_from : Bytes → QueueMessage → List Payload → List Payload
acked_from id q ds = elim (find id q.waitack_msgs) [
  | none ↦ ds
  | some p ↦ if lasts (pay q p) then without id ds else ds
]

module _ (wire : Wire) where
  open wire use {serialize}

  -- The record of a durable message in memory.
  record IsFound (id : Bytes) (p : Ptr) (q : QueueMessage) (before after : List Payload)
      : Type 0 where
    pub named : id_in (pay q p) ≡ id
    pub managed_there : find id q.durable_msgs ≡ some p
    pub place : (q.heap p).offset ≡ length (image wire before) + 8
    pub size : (q.heap p).length ≡ length (serialize (pay q p))
    pub markable : IsMarkable wire (pay q p)
    pub kept : is_marked (pay q p) ≡ false

  tied-IsFound :
      (id : Bytes) (p : Ptr) (q : QueueMessage) (ps : List Payload) (fs : Fs)
      → IsTied wire q ps fs
      → find id q.waitack_msgs ≡ some p
      → lasts (pay q p) ≡ true
      → (before : List Payload) × (after : List Payload) × (ps ≡ before ++ pay q p ∷ after)
        × IsFound id p q before after
  tied-IsFound id p q ps fs t f l =
      let (named, there) = t.sorted.acked id p f in
      let e = there l in
      let r = Placed-Located wire (managed q) 0 id ps t.placed (t.recorded id p e) in
      let same : q.heap p ≡ exact wire (0 + length (image wire r.before)) r.payload =
        ground (arith, e, r.exactly) in
      let v : r.payload ≡ pay q p = ap (λ m. m.payload) (sym same) in
      (
        r.before,
        r.after,
        r.splits ∙ ap (λ x. r.before ++ x ∷ r.after) v,
        record {
          named = named;
          managed_there = e;
          place = omega (arith, ap (λ m. m.offset) same);
          size = ap (λ m. m.length) same ∙ ap (λ x. length (serialize x)) v;
          markable = subst (IsMarkable wire) v r.markable;
          kept = ap is_marked (sym v) ∙ r.kept;
        },
      )

  -- The queue with the message of an address marked, managed no more, and acknowledged.
  abbrev acknowledged : Bytes → Ptr → ℕ → QueueMessage → QueueMessage
  acknowledged id p valid q =
      forgotten id (unmanaged id p (record (q.heap p) { payload = marked wire (pay q p) }) valid q)

  marked-IsTied :
      (id : Bytes) (p : Ptr) (valid : ℕ) (q : QueueMessage) (before after : List Payload)
      (fs fs' : Fs)
      → IsTied wire q (before ++ pay q p ∷ after) fs
      → find id q.waitack_msgs ≡ some p
      → IsFound id p q before after
      → IsOpen q.mapper.datafile (image wire (before ++ marked wire (pay q p) ∷ after)) fs'
      → HasRoom q.mapper fs'
      → IsTied wire (acknowledged id p valid q) (before ++ marked wire (pay q p) ∷ after) fs'
        × (live (before ++ marked wire (pay q p) ∷ after)
            ≡ without id (live (before ++ pay q p ∷ after)))
  marked-IsTied id p valid q before after fs fs' t f i o room =
      let v = pay q p in
      let msg = record (q.heap p) { payload = marked wire v } in
      let whole : live (before ++ v ∷ after) ≡ live before ++ v ∷ live after =
        live-append before (v ∷ after) ∙ ap (λ r. live before ++ r) (live-kept v after i.kept) in
      let (others, apart) =
        distinct_others (live before) (live after) v (subst HasDistinctIds whole t.distinct) in
      let rest = live-marked wire before after v in
      let left : live (before ++ marked wire v ∷ after) ≡ without id (live (before ++ v ∷ after)) =
        live-without wire before after v i.kept t.distinct
        ∙ ap (λ k. without k (live (before ++ v ∷ after))) i.named in
      let same = i.markable.same_size in
      (
        record {
          sorted = removed-IsSorted id p msg valid q refl f t.sorted;
          file = o;
          room = room;
          storable = All-replace _ before after v (marked wire v) i.markable.storable t.storable;
          placed =
              Placed-same wire (managed q) (managed (acknowledged id p valid q)) 0
                (before ++ marked wire v ∷ after)
                (subst (All _) (sym rest) (
                  All-map _ _ (live before ++ live after)
                    (λ x n.
                      unmanaged-managed id (id_in x) p msg valid q t.sorted.keyed i.managed_there
                        (λ e. n (e ∙ sym i.named)))
                    apart))
                (Placed-marked wire (managed q) 0 before after v same t.placed);
          distinct = subst HasDistinctIds (sym rest) others;
          small = omega (arith, t.small, length-image-marked wire before after v same);
          recorded = λ key x g.
              let old : find key q.durable_msgs ≡ some x =
                ground (arith, g, find-erase id key q.durable_msgs) in
              let n : key ≢ id =
                ground (arith, g, find-erase id key q.durable_msgs, bytes_eq_iff id key) in
              subst (Has key) (sym left)
                (Has-without id key (live (before ++ v ∷ after)) n (t.recorded key x old));
        },
        left,
      )

  forgotten-IsTied :
      (id : Bytes) (q : QueueMessage) (ps : List Payload) (fs : Fs)
      → IsTied wire q ps fs
      → IsTied wire (forgotten id q) ps fs
  forgotten-IsTied id q ps fs t = record {
    sorted = forgotten-IsSorted id q t.sorted;
    file = t.file;
    room = t.room;
    storable = t.storable;
    placed = t.placed;
    distinct = t.distinct;
    small = t.small;
    recorded = t.recorded;
  }

  acked-IsTied :
      (id : Bytes) (p : Ptr) (q : QueueMessage) (ps : List Payload) (fs : Fs)
      → IsTied wire q ps fs
      → find id q.waitack_msgs ≡ some p
      → lasts (pay q p) ≡ true
      → let r = remove_durable wire id p q fs in
        (ps' : List Payload) × IsTied wire (forgotten id r.0) ps' r.1
        × (live ps' ≡ without id (live ps))
  unfolding remove_durable
  acked-IsTied id p q ps fs t f l =
      let (before, after, split, i) = tied-IsFound id p q ps fs t f l in
      let (fs1, e, o) =
        remove-image wire q.mapper (q.heap p) before after fs
          (subst (λ x. IsOpen q.mapper.datafile (image wire x) fs) split t.file) i.place i.size
          i.markable.same_size in
      let room : HasRoom q.mapper fs1 =
        subst (HasRoom q.mapper) (ap (λ r. r.2) e) (
          SameRights-HasRoom q.mapper fs _ (remove-SameRights wire q.mapper (q.heap p) fs)
            t.room) in
      let valid = (q.valid_count + size_mod - 1) % size_mod in
      let msg = record (q.heap p) { payload = marked wire (pay q p) } in
      let q1 = unmanaged id p msg valid q in
      let (t1, left) =
        marked-IsTied id p valid q before after fs fs1 (subst (λ x. IsTied wire q x fs) split t) f i
          o room in
      let (ps', t2, same) =
        gc-IsTied wire (forgotten id q1) (before ++ marked wire (pay q p) ∷ after) fs1 t1 in
      let moved = gc-forgotten wire id q1 fs1 in
      (
        ps',
        rw (e, remove_durable) (subst (λ r. IsTied wire r.0 ps' r.1) moved t2),
        same ∙ left ∙ ap (λ x. without id (live x)) (sym split),
      )

  pub remove-IsTied :
      (id : Bytes) (q : QueueMessage) (ps : List Payload) (fs : Fs)
      → IsTied wire q ps fs
      → let r = remove wire id q fs in
        (r.0 ≡ true)
        × ((ps' : List Payload) × IsTied wire r.1 ps' r.2 × (live ps' ≡ acked_from id q (live ps)))
  unfolding remove
  remove-IsTied id q ps fs t = elim (Option-cases (find id q.waitack_msgs)) [
    | inl f ↦ rw (f, remove, acked_from) (refl, (ps, t, refl))
    | inr (p, f) ↦ elim (Bool-cases (lasts (pay q p))) [
      | inl l ↦ rw (f, remove, acked_from) (rw l (refl, acked-IsTied id p q ps fs t f l))
      | inr l ↦ rw (f, remove, acked_from) (rw l (refl, (ps, forgotten-IsTied id q ps fs t, refl)))
    ]
  ]
