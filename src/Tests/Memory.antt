-- ===== src/Tests/Memory.antt =====
-- A queue in memory over its file.
use bitmq.Base.{
  ◌≡◌, ◌⊎◌, refl, true, false, take, if◌then◌else◌, Option, some, List, [], ◌∷◌, ◌++◌, codes, All,
  bytes_eq, arith, bytes_key,
}
use bitmq.Dict.{find}
use bitmq.File.Open.{IsOpen}
use bitmq.Message.{Payload, BasicProperties}
use bitmq.MessageFile.Layout.{image, IsStorable, live, fresh}
use bitmq.QueueMessage.{QueueMessage, insert, adopt, recovery, remove, properties_for}
use bitmq.QueueMessage.Fifo.{contents, IsAllocated, adopt-IsAllocated}
use bitmq.QueueMessage.Order.{due, stores, handed, contents_after}
use bitmq.QueueMessage.Durable.{insert-recovery, kept_payload}
use bitmq.QueueMessage.Acknowledge.{IsUnacked, remove-live}
use bitmq.Tests.{plain_wire, payload, first, gone, last, empty_queue}
use bitmq.Tests.Files.{three, disk, disk-IsOpen, disk-HasRoom, payload-IsStorable, last_message}

empty-IsAllocated : IsAllocated empty_queue
unfolding find
empty-IsAllocated = record { waiting = tt; managed = λ id p h. cc; unacked = λ id p h. cc }

abbrev one_queue : QueueMessage
one_queue = adopt (fresh first) empty_queue

abbrev some_properties : Option BasicProperties
some_properties = some last.properties

contents_after_example :
    let r = insert plain_wire some_properties (codes "hi") true (codes "u") one_queue disk in
    let p = due some_properties (codes "hi") true (codes "u") in
    (r.0 ≡ stores plain_wire some_properties (codes "hi") true (codes "u") one_queue disk)
    × (((r.0 ≡ false) × (r.1 ≡ one_queue))
        ⊎ ((r.0 ≡ true) × (contents r.1 ≡ contents one_queue ++ p ∷ [])))
    × (handed 3 r.1 ≡ take 3 (if r.0 then contents one_queue ++ p ∷ [] else contents one_queue))
contents_after_example =
    contents_after plain_wire some_properties (codes "hi") (codes "u") true one_queue disk 3
      (adopt-IsAllocated (fresh first) empty_queue empty-IsAllocated)

four-IsStorable :
    All
      (IsStorable plain_wire)
      (three ++ kept_payload plain_wire some_properties (codes "hi") (codes "u") ∷ [])
unfolding properties_for
four-IsStorable = let (a, b, c) = payload-IsStorable in (a, (b, (c, (c, tt))))

insert-recovery_example :
    let r = insert plain_wire some_properties (codes "hi") true (codes "u") one_queue disk in
    (r.0 ≡ true)
    × (contents (recovery plain_wire empty_queue r.2).0
        ≡ live three ++ kept_payload plain_wire some_properties (codes "hi") (codes "u") ∷ [])
unfolding properties_for adopt
insert-recovery_example =
    insert-recovery plain_wire some_properties (codes "hi") (codes "u") one_queue empty_queue three
      disk refl disk-IsOpen disk-HasRoom four-IsStorable empty-IsAllocated refl

abbrev sent_queue : QueueMessage
sent_queue = record empty_queue {
  valid_count = 2;
  total_count = 3;
  durable_msgs = (codes "c", 0) ∷ [];
  waitack_msgs = (codes "c", 0) ∷ [];
  heap = λ p. last_message;
  next = 1;
}

last-IsUnacked : IsUnacked plain_wire (codes "c") 0 sent_queue (first ∷ gone ∷ []) [] disk
unfolding find bytes_eq
last-IsUnacked = record {
  waits = refl;
  mode = refl;
  recorded = disk-IsOpen;
  place = refl;
  size = refl;
  same_size = refl;
}

marked-IsStorable :
    All (IsStorable plain_wire) (first ∷ gone ∷ payload (codes "c") (codes "0") ∷ [])
marked-IsStorable =
    let (a, b, c) = payload-IsStorable in
    (a, (b, (record { reads_back = refl; fits = omega arith }, tt)))

remove-live_example :
    let r = remove plain_wire (codes "c") sent_queue disk in
    (r.0 ≡ true)
    × ((ps : List Payload) × IsOpen sent_queue.mapper.datafile (image plain_wire ps) r.2
        × (live ps ≡ live (first ∷ gone ∷ []) ++ live []))
remove-live_example =
    remove-live plain_wire (codes "c") 0 sent_queue (first ∷ gone ∷ []) [] disk last-IsUnacked
      disk-HasRoom marked-IsStorable
