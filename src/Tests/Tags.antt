-- ===== src/Tests/Tags.antt =====
-- Consumers with tags, and a channel that goes.
use bitmq.Base.{
  ◌≡◌, ◌↔◌, refl, true, false, ◌||◌, none, [], codes, bytes_eq, if◌then◌else◌, bytes_key,
}
use bitmq.Dict.{find}
use bitmq.Consumer.{QueueConsumer, has_tag, add, remove_from, choose_from, exists}
use bitmq.Consumer.Tags.{
  HasDistinctTags, Served, made, added, chosen, Served-HasDistinctTags, has_tag_after,
}
use bitmq.Host.{exists_queue}
use bitmq.Channel.{Callback, basic_consume, destroy}
use bitmq.Channel.Leave.{leave_once, leave_twice}
use bitmq.Tests.Delivery.{two, shared, ids, other_ids, channel}

abbrev callback : Callback
callback = record { conn = 7; cid = codes "c" }

abbrev none_yet : QueueConsumer Callback
none_yet = record { qname = codes "q"; rr_seq = 0; consumers = [] }

abbrev one : QueueConsumer Callback
one = (add (codes "x") (codes "q") true callback none_yet).1

one-Served : Served one
one-Served = added (codes "x") (codes "q") true callback none_yet (made (codes "q"))

Served-HasDistinctTags_example : HasDistinctTags (choose_from one).1.consumers
Served-HasDistinctTags_example = Served-HasDistinctTags (choose_from one).1 (chosen one one-Served)

has_tag_after_example :
    (has_tag (codes "x") (add (codes "y") (codes "q") true callback one).1.consumers
      ≡ (has_tag (codes "x") one.consumers || bytes_eq (codes "y") (codes "x")))
    × (((add (codes "y") (codes "q") true callback one).0 ≡ none)
        ↔ (has_tag (codes "y") one.consumers ≡ true))
    × (has_tag (codes "x") (remove_from (codes "y") one).consumers
        ≡ (if bytes_eq (codes "y") (codes "x") then false else has_tag (codes "x") one.consumers))
has_tag_after_example =
    has_tag_after (codes "y") (codes "q") true callback one (codes "x") one-Served

two-HasDistinctTags : HasDistinctTags two.consumers
unfolding has_tag bytes_eq
two-HasDistinctTags = (refl, (refl, tt))

leave_once_example :
    let r = basic_consume ids (codes "z") (codes "q") true channel shared in
    exists (codes "x") (codes "q") (destroy r.0 r.1).consumers
    ≡ exists (codes "x") (codes "q") shared.consumers
unfolding exists_queue find has_tag bytes_eq bitmq.Queue.exists
leave_once_example =
    leave_once ids (codes "z") (codes "q") (codes "x") true channel shared two refl refl refl
      two-HasDistinctTags

leave_twice_example :
    let r = basic_consume ids (codes "z") (codes "q") true channel shared in
    let r' = basic_consume other_ids (codes "w") (codes "q") true r.0 r.1 in
    exists (codes "z") (codes "q") (destroy r'.0 r'.1).consumers ≡ true
unfolding exists_queue find has_tag bytes_eq bitmq.Queue.exists
leave_twice_example =
    leave_twice ids other_ids (codes "z") (codes "w") (codes "q") true channel shared two refl refl
      refl refl refl two-HasDistinctTags
