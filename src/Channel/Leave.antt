-- ===== src/Channel/Leave.antt =====
-- A channel that goes, and the consumers that it made.
use bitmq.Base.{
  ◌≡◌, refl, sym, ap, ◌∙◌, Bool, true, false, some, [], ◌∷◌, ◌++◌, Bytes, if◌then◌else◌, arith,
  bytes_key, bytes_eq, bytes_eq_iff,
}
use bitmq.Dict.{find, assign, find-assign, same_self}
use bitmq.Host
use bitmq.Consumer
use bitmq.Consumer.{Consumer, QueueConsumer, ConsumerManager, has_tag, add, remove_from, drop_tag}
use bitmq.Consumer.Tags.{HasDistinctTags, has_tag-append, has_tag-drop_tag, append-HasDistinctTags}
use bitmq.Proto.{Ids}
use bitmq.Channel.{Channel, Shared, Callback, basic_consume, destroy}

abbrev consumer_of : Bytes → Bytes → Bool → Channel → Consumer Callback
consumer_of tag qname auto_ack ch = record {
  tag = tag;
  qname = qname;
  auto_ack = auto_ack;
  callback = record { conn = ch.conn; cid = ch.cid };
}

find-assign_same :
    (k : Bytes) (q : QueueConsumer Callback) (m : ConsumerManager Callback)
    → find k (assign k q m) ≡ some q
find-assign_same k q m = find-assign k k q m ∙ rw (same_self k) refl

create_new :
    (tag qname : Bytes) (auto_ack : Bool) (cb : Callback) (q : QueueConsumer Callback)
    (m : ConsumerManager Callback)
    → find qname m ≡ some q
    → has_tag tag q.consumers ≡ false
    → Consumer.create tag qname auto_ack cb m ≡ (
      some (record { tag = tag; qname = qname; auto_ack = auto_ack; callback = cb }),
      assign qname
          (record q {
            consumers =
                q.consumers
                ++ record { tag = tag; qname = qname; auto_ack = auto_ack; callback = cb } ∷ [];
          })
          m,
    )
unfolding Consumer.create add
create_new tag qname auto_ack cb q m f n = rw (f, Consumer.create) (rw (n, add) refl)

remove_known :
    (tag qname : Bytes) (q : QueueConsumer Callback) (m : ConsumerManager Callback)
    → find qname m ≡ some q
    → Consumer.remove tag qname m ≡ assign qname (remove_from tag q) m
unfolding Consumer.remove
remove_known tag qname q m f = rw (f, Consumer.remove) refl

exists_known :
    (t qname : Bytes) (q : QueueConsumer Callback) (m : ConsumerManager Callback)
    → find qname m ≡ some q
    → Consumer.exists t qname m ≡ has_tag t q.consumers
unfolding Consumer.exists
exists_known t qname q m f = rw (f, Consumer.exists) refl

module _ {Db : Type 0} where
  -- A subscription with a new tag on a queue that is there.
  consume_new :
      (req : Ids) (tag qname : Bytes) (auto_ack : Bool) (ch : Channel) (s : Shared Db)
      (q : QueueConsumer Callback)
      → Host.exists_queue qname s.host ≡ true
      → find qname s.consumers ≡ some q
      → has_tag tag q.consumers ≡ false
      → let r = basic_consume req tag qname auto_ack ch s in
        let c = consumer_of tag qname auto_ack ch in
        (r.0 ≡ record ch { consumer = some c })
        × (r.1.consumers
            ≡ assign qname (record q { consumers = q.consumers ++ c ∷ [] }) s.consumers)
        × (r.1.host ≡ s.host)
  unfolding basic_consume
  consume_new req tag qname auto_ack ch s q e f n =
      let made =
        create_new tag qname auto_ack (record { conn = ch.conn; cid = ch.cid }) q s.consumers f n in
      rw (e, basic_consume) (rw made (refl, refl, refl))

  destroy_known :
      (ch : Channel) (s : Shared Db) (c : Consumer Callback) (q : QueueConsumer Callback)
      → ch.consumer ≡ some c
      → find c.qname s.consumers ≡ some q
      → (destroy ch s).consumers ≡ assign c.qname (remove_from c.tag q) s.consumers
  unfolding destroy
  destroy_known ch s c q e f = rw (e, destroy) (remove_known c.tag c.qname q s.consumers f)

  -- The consumers of a queue behind a channel that left, where its last consumer was `c`.
  left_with :
      (ch : Channel) (s : Shared Db) (m : ConsumerManager Callback) (c : Consumer Callback)
      (q : QueueConsumer Callback) (t : Bytes)
      → ch.consumer ≡ some c
      → s.consumers ≡ assign c.qname q m
      → HasDistinctTags q.consumers
      → Consumer.exists t c.qname (destroy ch s).consumers
        ≡ (if bytes_eq c.tag t then false else has_tag t q.consumers)
  unfolding remove_from
  left_with ch s m c q t e f h =
      let there = ap (find c.qname) f ∙ find-assign_same c.qname q m in
      ap (Consumer.exists t c.qname) (destroy_known ch s c q e there)
      ∙ exists_known t c.qname (remove_from c.tag q)
          (assign c.qname (remove_from c.tag q) s.consumers)
          (find-assign_same c.qname (remove_from c.tag q) s.consumers)
      ∙ has_tag-drop_tag c.tag t q.consumers h

  -- A channel that subscribes with a new tag to a queue that is there, whose consumers have
  -- distinct tags, and then goes leaves the tags of the queue's consumers as they were.
  pub leave_once :
      (req : Ids) (tag qname t : Bytes) (auto_ack : Bool) (ch : Channel) (s : Shared Db)
      (q : QueueConsumer Callback)
      → Host.exists_queue qname s.host ≡ true
      → find qname s.consumers ≡ some q
      → has_tag tag q.consumers ≡ false
      → HasDistinctTags q.consumers
      → let r = basic_consume req tag qname auto_ack ch s in
        Consumer.exists t qname (destroy r.0 r.1).consumers ≡ Consumer.exists t qname s.consumers
  leave_once req tag qname t auto_ack ch s q e f n h =
      let c = consumer_of tag qname auto_ack ch in
      let r = basic_consume req tag qname auto_ack ch s in
      let (own, made, same) = consume_new req tag qname auto_ack ch s q e f n in
      left_with r.0 r.1 s.consumers c (record q { consumers = q.consumers ++ c ∷ [] }) t
        (ap (λ x. x.consumer) own) made (append-HasDistinctTags q.consumers c n h)
      ∙ ground (arith, has_tag-append t q.consumers c, bytes_eq_iff tag t, n)
      ∙ sym (exists_known t qname q s.consumers f)

  -- A channel that subscribes twice, with two new and different tags, to a queue that is there,
  -- whose consumers have distinct tags, and then goes leaves a consumer with the first tag behind.
  pub leave_twice :
      (req req' : Ids) (tag tag' qname : Bytes) (auto_ack : Bool) (ch : Channel) (s : Shared Db)
      (q : QueueConsumer Callback)
      → Host.exists_queue qname s.host ≡ true
      → find qname s.consumers ≡ some q
      → has_tag tag q.consumers ≡ false
      → has_tag tag' q.consumers ≡ false
      → bytes_eq tag tag' ≡ false
      → HasDistinctTags q.consumers
      → let r = basic_consume req tag qname auto_ack ch s in
        let r' = basic_consume req' tag' qname auto_ack r.0 r.1 in
        Consumer.exists tag qname (destroy r'.0 r'.1).consumers ≡ true
  leave_twice req req' tag tag' qname auto_ack ch s q e f n n' d h =
      let c = consumer_of tag qname auto_ack ch in
      let q1 = record q { consumers = q.consumers ++ c ∷ [] } in
      let r = basic_consume req tag qname auto_ack ch s in
      let (own, made, same) = consume_new req tag qname auto_ack ch s q e f n in
      let r' = basic_consume req' tag' qname auto_ack r.0 r.1 in
      let c' = consumer_of tag' qname auto_ack r.0 in
      let n1 : has_tag tag' q1.consumers ≡ false =
        ground (arith, has_tag-append tag' q.consumers c) in
      let h1 = append-HasDistinctTags q.consumers c n h in
      let f1 = ap (find qname) made ∙ find-assign_same qname q1 s.consumers in
      let (own', made', same') =
        consume_new req' tag' qname auto_ack r.0 r.1 q1 (ap (Host.exists_queue qname) same ∙ e) f1
          n1 in
      left_with r'.0 r'.1 r.1.consumers c' (record q1 { consumers = q1.consumers ++ c' ∷ [] }) tag
        (ap (λ x. x.consumer) own') made' (append-HasDistinctTags q1.consumers c' n1 h1)
      ∙ ground (
        arith,
        has_tag-append tag q1.consumers c',
        has_tag-append tag q.consumers c,
        bytes_eq_iff tag tag',
        bytes_eq_iff tag' tag,
        bytes_eq_iff tag tag,
      )
