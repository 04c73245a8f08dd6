-- ===== src/QueueMessage/Runs.antt =====
-- The calls of a queue (`insert`, `front`, `remove` of `QueueMessage`) as sequences.
use bitmq.Base.{
  ◌+◌, ◌<◌, ◌^◌, ◌≡◌, refl, ap, ◌∙◌, Bool, true, false, Option, List, [], ◌∷◌, ◌++◌, Bytes,
  bytes_eq, bytes_key, length, arith, Bool-cases, inl, inr,
}
use bitmq.Dict.{find}
use bitmq.File.{Fs, size}
use bitmq.File.Open.{IsOpen, size-IsOpen}
use bitmq.Message.{Payload, Wire, BasicProperties, new_message}
use bitmq.MessageFile.{Mapper}
use bitmq.MessageFile.Layout.{record_of, live, IsStorable}
use bitmq.MessageFile.Compact.{HasRoom}
use bitmq.QueueMessage.{QueueMessage, insert, front, remove, recovery}
use bitmq.QueueMessage.Fifo.{contents, IsAllocated, payload_for}
use bitmq.QueueMessage.Durable.{live-append, recovery-contents}
use bitmq.QueueMessage.Placed.{IsMarkable, is_marked, live-kept}
use bitmq.QueueMessage.Queued.{lasts}
use bitmq.QueueMessage.Tied.{IsTied}
use bitmq.QueueMessage.Grow.{IsUnused}
use bitmq.QueueMessage.Insertion.{IsFit}
use bitmq.QueueMessage.Kept.{with_inserted, insert-IsTied, front-IsTied}
use bitmq.QueueMessage.Acked.{acked_from, remove-IsTied}

-- A queue that holds nothing.
abbrev pub empty_over : Mapper → QueueMessage
empty_over m = record {
  mapper = m;
  valid_count = 0;
  total_count = 0;
  msgs = [];
  durable_msgs = [];
  waitack_msgs = [];
  heap = λ p. new_message;
  next = 0;
}

-- What a call of `insert` gives: an id that no message in memory has; a payload that reads back, before
-- and after it is marked, in the same number of bytes; and a file that stays below 4 GiB with it.
pub record IsSound (wire : Wire) (p : Payload) (q : QueueMessage) (fs : Fs) : Type 0 where
  pub unused : IsUnused p.properties.id q
  pub storable : IsStorable wire p
  pub markable : IsMarkable wire p
  pub fits : size q.mapper.datafile fs + length (record_of wire p) < 2 ^ 32

-- The calls of a queue.
pub data Call : Type 0 where
  puts : Option BasicProperties → Bytes → Bytes → Bool → Call
  takes : Call
  acknowledges : Bytes → Call

module _ (wire : Wire) where
  unfoldable pub call : Call → QueueMessage → Fs → QueueMessage × Fs
  call (puts bp body uuid qd) q fs =
      let (ret, q', fs') = insert wire bp body qd uuid q fs in (q', fs')
  call takes q fs = let (msg, q') = front q in (q', fs)
  call (acknowledges id) q fs = let (ret, q', fs') = remove wire id q fs in (q', fs')

  unfoldable pub run : List Call → QueueMessage → Fs → QueueMessage × Fs
  unfolding call
  run [] q fs = (q, fs)
  run (c ∷ cs) q fs = run cs (call c q fs).0 (call c q fs).1

  -- The durable payloads that were put in and not acknowledged yet, in their order.
  abbrev pub unacked_after : Call → QueueMessage → List Payload → List Payload
  unacked_after (puts bp body uuid qd) q ds = with_inserted (payload_for bp body qd uuid) ds
  unacked_after takes q ds = ds
  unacked_after (acknowledges id) q ds = acked_from id q ds

  unfoldable pub all_unacked : List Call → QueueMessage → Fs → List Payload → List Payload
  unfolding call
  all_unacked [] q fs ds = ds
  all_unacked (c ∷ cs) q fs ds =
      all_unacked cs (call c q fs).0 (call c q fs).1 (unacked_after c q ds)

  abbrev pub IsSoundCall : Call → QueueMessage → Fs → Type 0
  IsSoundCall (puts bp body uuid qd) q fs = IsSound wire (payload_for bp body qd uuid) q fs
  IsSoundCall takes q fs = Unit
  IsSoundCall (acknowledges id) q fs = Unit

  unfoldable pub AreSound : List Call → QueueMessage → Fs → Type 0
  unfolding call
  AreSound [] q fs = Unit
  AreSound (c ∷ cs) q fs = IsSoundCall c q fs × AreSound cs (call c q fs).0 (call c q fs).1

empty-IsAllocated : (m : Mapper) → IsAllocated (empty_over m)
unfolding find
empty-IsAllocated m = record { waiting = tt; managed = λ id p e. cc; unacked = λ id p e. cc }

empty-IsTied :
    (wire : Wire) (m : Mapper) (fs : Fs)
    → IsOpen m.datafile [] fs
    → HasRoom m fs
    → IsTied wire (empty_over m) [] fs
unfolding find
empty-IsTied wire m fs o room = record {
  sorted = record {
    keyed = record { allocated = empty-IsAllocated m; keyed = λ id p e. cc };
    acked = λ id p e. cc;
    queued = tt;
  };
  file = o;
  room = room;
  storable = tt;
  placed = tt;
  distinct = tt;
  small = omega arith;
  recorded = λ id p e. cc;
}

unmarked :
    (bp : Option BasicProperties) (body uuid : Bytes) (qd : Bool)
    → lasts (payload_for bp body qd uuid) ≡ true
    → is_marked (payload_for bp body qd uuid) ≡ false
unfolding bytes_eq
unmarked bp body uuid qd e = rw e refl

module _ (wire : Wire) where
  with_inserted-live :
      (p : Payload) (ps : List Payload)
      → (lasts p ≡ true → is_marked p ≡ false)
      → live (with_inserted p ps) ≡ with_inserted p (live ps)
  with_inserted-live p ps k = elim (Bool-cases (lasts p)) [
    | inl e ↦ rw e (live-append ps (p ∷ []) ∙ ap (λ r. live ps ++ r) (live-kept p [] (k e)))
    | inr e ↦ rw e refl
  ]

  call-IsTied :
      (c : Call) (q : QueueMessage) (ps : List Payload) (fs : Fs)
      → IsTied wire q ps fs
      → IsSoundCall wire c q fs
      → (ps' : List Payload) × IsTied wire (call wire c q fs).0 ps' (call wire c q fs).1
        × (live ps' ≡ unacked_after wire c q (live ps))
  unfolding call
  call-IsTied (puts bp body uuid qd) q ps fs t sound =
      let p = payload_for bp body qd uuid in
      let k = unmarked bp body uuid qd in
      let fit : lasts p ≡ true → IsFit wire p q ps = λ l. record {
        unused = sound.unused;
        storable = sound.storable;
        markable = sound.markable;
        unmarked = k l;
        fits = omega (arith, sound.fits, size-IsOpen t.file);
      } in
      let (ok, t') = insert-IsTied wire bp body uuid qd q ps fs t sound.unused fit in
      (with_inserted p ps, t', with_inserted-live p ps k)
  call-IsTied takes q ps fs t sound = (ps, front-IsTied wire q ps fs t, refl)
  call-IsTied (acknowledges id) q ps fs t sound = (remove-IsTied wire id q ps fs t).1

  run-IsTied :
      (cs : List Call) (q : QueueMessage) (ps : List Payload) (fs : Fs)
      → IsTied wire q ps fs
      → AreSound wire cs q fs
      → let r = run wire cs q fs in
        (ps' : List Payload) × IsTied wire r.0 ps' r.1
        × (live ps' ≡ all_unacked wire cs q fs (live ps))
  unfolding run all_unacked AreSound call
  run-IsTied [] q ps fs t sound = (ps, t, refl)
  run-IsTied (c ∷ cs) q ps fs t sound =
      let (ps1, t1, e1) = call-IsTied c q ps fs t sound.0 in
      let (ps2, t2, e2) = run-IsTied cs _ ps1 _ t1 sound.1 in
      (ps2, t2, e2 ∙ ap (all_unacked wire cs _ _) e1)

  -- After any calls of `insert`, `front` and `remove` on an empty queue over an empty file with room beside
  -- it, a queue that is made anew over the file recovers exactly the durable messages that were put in and
  -- not acknowledged, in the order in which they were put in, and counts them: those that were handed out
  -- and not acknowledged are among them, and no collection on the way loses or repeats one. Each message is
  -- put in with an id that no message in memory has then, its bytes read back before and after it is marked,
  -- in the same number, and the file stays below 4 GiB.
  pub run-recovery :
      (m : Mapper) (cs : List Call) (fs : Fs)
      → IsOpen m.datafile [] fs
      → HasRoom m fs
      → AreSound wire cs (empty_over m) fs
      → let (q, fs') = run wire cs (empty_over m) fs in
        let r = recovery wire (empty_over q.mapper) fs' in
        let ds = all_unacked wire cs (empty_over m) fs [] in
        (contents r.0 ≡ ds) × (r.0.total_count ≡ length ds) × (r.0.valid_count ≡ length ds)
  run-recovery m cs fs o room sound =
      let (ps, t, e) = run-IsTied cs (empty_over m) [] fs (empty-IsTied wire m fs o room) sound in
      let q = (run wire cs (empty_over m) fs).0 in
      let (c, n, k, o') =
        recovery-contents wire (empty_over q.mapper) ps _ (empty-IsAllocated q.mapper) t.file t.room
          t.storable in
      (c ∙ e, n ∙ ap length e, k ∙ ap length e)
