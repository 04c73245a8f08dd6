-- ===== src/QueueMessage/View.antt =====
-- The durable messages in memory, each under its id, and what the operations of `QueueMessage` do to them.
use bitmq.Base.{
  ◌<◌, ◌≡◌, refl, sym, ap, ◌∙◌, Option, none, some, Bytes, bytes_eq, bytes_eq_iff, bytes_key,
  nat_eq, nat_eq_iff, if◌then◌else◌, All, arith, Bool-cases, Option-cases, inl, inr, subst,
}
use bitmq.Dict.{find, emplace, find-emplace}
use bitmq.Message.{Message}
use bitmq.QueueMessage.{QueueMessage, Ptr, store, id_of, adopt, settle}
use bitmq.QueueMessage.Fifo.{IsAllocated, adopt-IsAllocated}

-- The message that is managed under an id.
abbrev pub managed : QueueMessage → Bytes → Option Message
managed q id = elim (find id q.durable_msgs) [ none ↦ none | some p ↦ some (q.heap p) ]

-- The addresses are in use, and a managed message has the id that it is managed under.
pub record IsKeyed (q : QueueMessage) : Type 0 where
  pub allocated : IsAllocated q
  pub keyed : (id : Bytes) (p : Ptr) → find id q.durable_msgs ≡ some p → id_of (q.heap p) ≡ id

-- Only places and sizes of messages differ.
pub record SameBooks (q q' : QueueMessage) : Type 0 where
  pub same_mapper : q'.mapper ≡ q.mapper
  pub same_msgs : q'.msgs ≡ q.msgs
  pub same_durable : q'.durable_msgs ≡ q.durable_msgs
  pub same_waitack : q'.waitack_msgs ≡ q.waitack_msgs
  pub same_next : q'.next ≡ q.next
  pub same_payload : (p : Ptr) → (q'.heap p).payload ≡ (q.heap p).payload

pub adopt-managed :
    (msg : Message) (q : QueueMessage) (id : Bytes)
    → IsKeyed q
    → find (id_of msg) q.durable_msgs ≡ none
    → managed (adopt msg q) id ≡ (if bytes_eq (id_of msg) id then some msg else managed q id)
unfolding adopt
adopt-managed msg q id k n = elim (Bool-cases (bytes_eq (id_of msg) id)) [
  | inl t ↦
      let e : find id (emplace (id_of msg) q.next q.durable_msgs) ≡ some q.next = ground (
        arith,
        find-emplace (id_of msg) id q.next q.durable_msgs,
        n,
        bytes_eq_iff (id_of msg) id,
      ) in
      rw (e, managed, adopt) (rw t (ground (arith, nat_eq_iff q.next q.next)))
  | inr t ↦
      let e : find id (emplace (id_of msg) q.next q.durable_msgs) ≡ find id q.durable_msgs =
        ground (arith, find-emplace (id_of msg) id q.next q.durable_msgs) in
      rw (e, managed, adopt)
        (rw t (elim (Option-cases (find id q.durable_msgs)) [
          | inl o ↦ rw (o, managed) refl
          | inr (p, o) ↦
              rw (o, managed) (ground (arith, nat_eq_iff p q.next, k.allocated.managed id p))
        ]))
]

pub adopt-IsKeyed :
    (msg : Message) (q : QueueMessage)
    → IsKeyed q
    → find (id_of msg) q.durable_msgs ≡ none
    → IsKeyed (adopt msg q)
unfolding adopt
adopt-IsKeyed msg q k n = record {
  allocated = unfold adopt in adopt-IsAllocated msg q k.allocated;
  keyed = λ id p f. ground (
    arith,
    f,
    n,
    find-emplace (id_of msg) id q.next q.durable_msgs,
    bytes_eq_iff (id_of msg) id,
    k.allocated.managed id p,
    k.keyed id p,
    nat_eq_iff p q.next,
  );
}

-- A managed message takes its new place.
abbrev pub moved_to : Message → Message → Message
moved_to msg m = record m { offset = msg.offset; length = msg.length }

settled : Message → Ptr → QueueMessage → QueueMessage
settled msg p q = record q { heap = store p (moved_to msg (q.heap p)) q.heap }

settle-settled :
    (msg : Message) (p : Ptr) (q : QueueMessage)
    → find (id_of msg) q.durable_msgs ≡ some p
    → settle msg q ≡ settled msg p q
unfolding settle settled
settle-settled msg p q e = rw (e, settle) refl

store-payload :
    (p x : Ptr) (msg : Message) (q : QueueMessage)
    → ((settled msg p q).heap x).payload ≡ (q.heap x).payload
unfolding settled
store-payload p x msg q = elim (Bool-cases (nat_eq x p)) [
  | inl t ↦ rw t (ap (λ y. (q.heap y).payload) (sym ((nat_eq_iff x p).0 t)))
  | inr t ↦ rw t refl
]

pub settle-SameBooks :
    (msg : Message) (p : Ptr) (q : QueueMessage)
    → find (id_of msg) q.durable_msgs ≡ some p
    → SameBooks q (settle msg q)
unfolding settled
settle-SameBooks msg p q e = subst (SameBooks q) (sym (settle-settled msg p q e)) (record {
  same_mapper = refl;
  same_msgs = refl;
  same_durable = refl;
  same_waitack = refl;
  same_next = refl;
  same_payload = λ x. store-payload p x msg q;
})

-- What the containers and the ids make of an invariant.
pub SameBooks-IsKeyed : (q q' : QueueMessage) → SameBooks q q' → IsKeyed q → IsKeyed q'
SameBooks-IsKeyed q q' s k = record {
  allocated = record {
    waiting =
        subst (λ n. All (λ p. p < n) q'.msgs) (sym s.same_next)
          (subst (λ l. All (λ p. p < q.next) l) (sym s.same_msgs) k.allocated.waiting);
    managed = λ id p f.
        omega
          (arith, s.same_next, k.allocated.managed id p (ap (find id) (sym s.same_durable) ∙ f));
    unacked = λ id p f.
        omega
          (arith, s.same_next, k.allocated.unacked id p (ap (find id) (sym s.same_waitack) ∙ f));
  };
  keyed = λ id p f.
      ap (λ x. x.properties.id) (s.same_payload p)
      ∙ k.keyed id p (ap (find id) (sym s.same_durable) ∙ f);
}

pub settle-managed :
    (msg : Message) (p : Ptr) (q : QueueMessage) (id : Bytes)
    → IsKeyed q
    → find (id_of msg) q.durable_msgs ≡ some p
    → managed (settle msg q) id
      ≡ (if bytes_eq (id_of msg) id then some (moved_to msg (q.heap p)) else managed q id)
unfolding settled
settle-managed msg p q id k e =
    ap (λ x. managed x id) (settle-settled msg p q e)
    ∙ elim (Option-cases (find id q.durable_msgs)) [
      | inl o ↦ rw (o, managed) (ground (arith, bytes_eq_iff (id_of msg) id))
      | inr (x, o) ↦
          rw (o, managed)
            (ground (
              arith,
              nat_eq_iff x p,
              bytes_eq_iff (id_of msg) id,
              k.keyed id x o,
              k.keyed (id_of msg) p e,
            ))
    ]
