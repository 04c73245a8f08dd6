-- ===== src/Consumer/Tags.antt =====
-- The tags of a queue's consumers.
use bitmq.Base.{
  ◌≡◌, ◌↔◌, refl, Bool, true, false, ◌||◌, none, List, [], ◌∷◌, ◌++◌, arith, Bytes, bytes_eq,
  bytes_eq_iff, if◌then◌else◌, bytes_key, Bool-cases, inl, inr,
}
use bitmq.Consumer.{
  Consumer, QueueConsumer, has_tag, add, drop_tag, remove_from, choose_from, clear_queue,
}

module _ {C : Type 0} where
  pub has_tag-append :
      (t : Bytes) (cs : List (Consumer C)) (c : Consumer C)
      → has_tag t (cs ++ c ∷ []) ≡ (has_tag t cs || bytes_eq c.tag t)
  unfolding has_tag
  has_tag-append t [] c = ground arith
  has_tag-append t (d ∷ cs) c = ground (arith, has_tag-append t cs c)

  -- No tag stands twice.
  abbrev pub HasDistinctTags : List (Consumer C) → Type 0
  HasDistinctTags [] = Unit
  HasDistinctTags (c ∷ cs) = (has_tag c.tag cs ≡ false) × HasDistinctTags cs

  pub append-HasDistinctTags :
      (cs : List (Consumer C)) (c : Consumer C)
      → has_tag c.tag cs ≡ false
      → HasDistinctTags cs
      → HasDistinctTags (cs ++ c ∷ [])
  unfolding has_tag
  append-HasDistinctTags [] c n h = (refl, tt)
  append-HasDistinctTags (d ∷ cs) c n h = ground (
    arith,
    bytes_eq_iff d.tag c.tag,
    bytes_eq_iff c.tag d.tag,
    has_tag-append d.tag cs c,
    append-HasDistinctTags cs c,
  )

  pub has_tag-drop_tag :
      (tag t : Bytes) (cs : List (Consumer C))
      → HasDistinctTags cs
      → has_tag t (drop_tag tag cs) ≡ (if bytes_eq tag t then false else has_tag t cs)
  unfolding has_tag drop_tag
  has_tag-drop_tag tag t [] h = ground arith
  has_tag-drop_tag tag t (c ∷ cs) h = ground (
    arith,
    bytes_eq_iff tag t,
    bytes_eq_iff c.tag tag,
    bytes_eq_iff c.tag t,
    has_tag-drop_tag tag t cs,
  )

  drop_tag-HasDistinctTags :
      (tag : Bytes) (cs : List (Consumer C))
      → HasDistinctTags cs
      → HasDistinctTags (drop_tag tag cs)
  unfolding has_tag drop_tag
  drop_tag-HasDistinctTags tag [] h = tt
  drop_tag-HasDistinctTags tag (c ∷ cs) h =
      ground (arith, drop_tag-HasDistinctTags tag cs, has_tag-drop_tag tag c.tag cs)

  -- The states that a queue's consumers come to.
  pub data Served : QueueConsumer C → Type 0 where
    made : (qname : Bytes) → Served (record { qname = qname; rr_seq = 0; consumers = [] })
    added :
        (tag qname : Bytes) (auto_ack : Bool) (callback : C) (q : QueueConsumer C)
        → Served q
        → Served (add tag qname auto_ack callback q).1
    removed : (tag : Bytes) (q : QueueConsumer C) → Served q → Served (remove_from tag q)
    chosen : (q : QueueConsumer C) → Served q → Served (choose_from q).1
    cleared : (q : QueueConsumer C) → Served q → Served (clear_queue q)

  add-HasDistinctTags :
      (tag qname : Bytes) (auto_ack : Bool) (callback : C) (q : QueueConsumer C)
      → HasDistinctTags q.consumers
      → HasDistinctTags (add tag qname auto_ack callback q).1.consumers
  unfolding add
  add-HasDistinctTags tag qname auto_ack callback q h =
      elim (Bool-cases (has_tag tag q.consumers)) [
        | inl e ↦ rw (e, add) h
        | inr e ↦ rw (e, add) (append-HasDistinctTags q.consumers _ e h)
      ]

  choose_from-consumers : (q : QueueConsumer C) → (choose_from q).1.consumers ≡ q.consumers
  unfolding choose_from
  choose_from-consumers q = ground arith

  -- Whatever is created, removed and chosen, the tags of a queue's consumers stay distinct.
  pub Served-HasDistinctTags : (q : QueueConsumer C) → Served q → HasDistinctTags q.consumers
  unfolding remove_from clear_queue
  Served-HasDistinctTags q (made qname) = tt
  Served-HasDistinctTags q (added tag qname auto_ack callback q' s) =
      add-HasDistinctTags tag qname auto_ack callback q' (Served-HasDistinctTags q' s)
  Served-HasDistinctTags q (removed tag q' s) =
      drop_tag-HasDistinctTags tag q'.consumers (Served-HasDistinctTags q' s)
  Served-HasDistinctTags q (chosen q' s) =
      rw (choose_from-consumers q') (Served-HasDistinctTags q' s)
  Served-HasDistinctTags q (cleared q' s) = tt

  -- For the consumers of a queue after any calls: a creation is refused exactly where the tag is
  -- taken; after it the tags are those before and that one; after a removal they are those before
  -- without that one.
  pub has_tag_after :
      (tag qname : Bytes) (auto_ack : Bool) (callback : C) (q : QueueConsumer C) (t : Bytes)
      → Served q
      → (has_tag t (add tag qname auto_ack callback q).1.consumers
          ≡ (has_tag t q.consumers || bytes_eq tag t))
        × (((add tag qname auto_ack callback q).0 ≡ none) ↔ (has_tag tag q.consumers ≡ true))
        × (has_tag t (remove_from tag q).consumers
            ≡ (if bytes_eq tag t then false else has_tag t q.consumers))
  unfolding add remove_from
  has_tag_after tag qname auto_ack callback q t s =
      let h = Served-HasDistinctTags q s in
      let gone = has_tag-drop_tag tag t q.consumers h in
      elim (Bool-cases (has_tag tag q.consumers)) [
        | inl e ↦
            rw (e, add) (ground (arith, bytes_eq_iff tag t, e), ((λ x. refl), (λ x. refl)), gone)
        | inr e ↦ rw (e, add) (has_tag-append t q.consumers _, ((λ x. cc), (λ x. cc)), gone)
      ]
