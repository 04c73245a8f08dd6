-- ===== src/Channel/Consume.antt =====
-- `Channel::consume`, the task that takes a message off its queue.
use native.Mathlib.Nat.{mod-lt}
use bitmq.Base.{
  ℕ, zero, suc, ◌+◌, ◌%◌, ◌<◌, ◌≡◌, ◌⊎◌, refl, sym, ap, ◌∙◌, Option, none, some, List, [], ◌∷◌,
  ◌++◌, Bytes, length, get_elem?, if◌then◌else◌, bytes_key, Option-cases, inl, inr, Bool-cases,
  arith,
}
use bitmq.Dict.{find, assign, find-assign, same_self}
use bitmq.Sql.{Engine}
use bitmq.Message.{Message, Payload, Wire, size_mod}
use bitmq.QueueMessage
use bitmq.QueueMessage.{QueueMessage}
use bitmq.QueueMessage.Fifo.{contents, front-contents}
use bitmq.MessageManager
use bitmq.Host
use bitmq.Host.{VirtualHost}
use bitmq.Consumer
use bitmq.Consumer.{Consumer, QueueConsumer, ConsumerManager, choose_from}
use bitmq.Proto.{push}
use bitmq.Channel.{Shared, Callback, consume, hand_to}

-- The payloads that wait in a queue, none if it has no handle.
abbrev pub waiting_in : Option QueueMessage → List Payload
waiting_in none = []
waiting_in (some q) = contents q

abbrev pub waiting : {Db : Type 0} → Bytes → VirtualHost Db → List Payload
waiting qname h = waiting_in (find qname h.messages.queue_msgs)

-- The consumers of a queue, and the counter of their turns.
abbrev pub listening_in : Option (QueueConsumer Callback) → List (Consumer Callback)
listening_in none = []
listening_in (some q) = q.consumers

abbrev pub listening : Bytes → ConsumerManager Callback → List (Consumer Callback)
listening qname m = listening_in (find qname m)

abbrev pub turn_in : Option (QueueConsumer Callback) → ℕ
turn_in none = 0
turn_in (some q) = q.rr_seq

abbrev pub turn : Bytes → ConsumerManager Callback → ℕ
turn qname m = turn_in (find qname m)

get_elem?-some :
    {A : Type 0} (xs : List A) (i : ℕ) → i < length xs → (x : A) × (get_elem? xs i ≡ some x)
get_elem?-some [] i h = let no : ⊥ = omega (arith, h) in elim no [ ]
get_elem?-some (x ∷ xs) zero h = (x, refl)
get_elem?-some (x ∷ xs) (suc i) h = get_elem?-some xs i (omega (arith, h))

find-assign_here :
    {V : Type 0} (k : Bytes) (v : V) (m : List (Bytes × V)) → find k (assign k v m) ≡ some v
find-assign_here k v m = find-assign k k v m ∙ rw (same_self k) refl

module _ {Db : Type 0} where
  -- Taking a message from a host.
  basic_consume-waiting :
      (qname : Bytes) (h : VirtualHost Db)
      → let r = Host.basic_consume qname h in
        ((waiting qname h ≡ []) × (r.0 ≡ none) × (waiting qname r.1 ≡ []))
        ⊎ ((msg : Message) × (r.0 ≡ some msg) × (waiting qname h ≡ msg.payload ∷ waiting qname r.1))
  unfolding Host.basic_consume MessageManager.front
  basic_consume-waiting qname h = elim (Option-cases (find qname h.messages.queue_msgs)) [
    | inl n ↦ inl (
      ap waiting_in n,
      rw (n, MessageManager.front) refl,
      rw (n, MessageManager.front) (ap waiting_in n),
    )
    | inr (q, f) ↦
        let here = find-assign_here qname (QueueMessage.front q).1 h.messages.queue_msgs in
        elim (front-contents q) [
          | inl (empty, same) ↦ inl (
            ap waiting_in f ∙ empty,
            rw (f, MessageManager.front) (ap (λ r. r.0) same),
            rw (f, MessageManager.front) (ap waiting_in here ∙ ap (λ r. contents r.1) same ∙ empty),
          )
          | inr (msg, q', taken, first) ↦ inr (
            msg,
            rw (f, MessageManager.front) (ap (λ r. r.0) taken),
            ap waiting_in f
                ∙ first
                ∙ ap (λ r. msg.payload ∷ r)
                    (sym (
                      rw (f, MessageManager.front)
                        (ap waiting_in here ∙ ap (λ r. contents r.1) taken))),
          )
        ]
  ]

-- Choosing among the consumers of a queue.
abbrev TakesTurn : QueueConsumer Callback → Type 0
TakesTurn q =
    ((q.consumers ≡ []) × ((choose_from q).0 ≡ none))
    ⊎ ((c : Consumer Callback) × ((choose_from q).0 ≡ some c)
        × (get_elem? q.consumers (q.rr_seq % length q.consumers) ≡ some c)
        × ((choose_from q).1.consumers ≡ q.consumers)
        × ((choose_from q).1.rr_seq ≡ (q.rr_seq + 1) % size_mod))

choose_from-turn : (q : QueueConsumer Callback) → TakesTurn q
unfolding choose_from
choose_from-turn q = of q.consumers refl
  where
    of : (cs : List (Consumer Callback)) → q.consumers ≡ cs → TakesTurn q
    of [] e = inl (e, rw (e, choose_from) refl)
    of (c ∷ cs) e =
        let (x, at) =
          get_elem?-some (c ∷ cs) (q.rr_seq % length (c ∷ cs))
            (mod-lt q.rr_seq {m = length (c ∷ cs)} (omega arith)) in
        inr (x, rw (e, choose_from) at, rw e at, rw (e, choose_from) e, rw (e, choose_from) refl)

choose-turn :
    (qname : Bytes) (m : ConsumerManager Callback)
    → let r = Consumer.choose qname m in
      ((listening qname m ≡ []) × (r.0 ≡ none))
      ⊎ ((c : Consumer Callback) × (r.0 ≡ some c)
          × (get_elem? (listening qname m) (turn qname m % length (listening qname m)) ≡ some c)
          × (listening qname r.1 ≡ listening qname m)
          × (turn qname r.1 ≡ (turn qname m + 1) % size_mod))
unfolding Consumer.choose
choose-turn qname m = elim (Option-cases (find qname m)) [
  | inl n ↦ inl (ap listening_in n, rw (n, Consumer.choose) refl)
  | inr (q, f) ↦
      let here = find-assign_here qname (choose_from q).1 m in
      elim (choose_from-turn q) [
        | inl (empty, nobody) ↦ inl (ap listening_in f ∙ empty, rw (f, Consumer.choose) nobody)
        | inr (c, chosen, at, same, next) ↦ inr (
          c,
          rw (f, Consumer.choose) chosen,
          ap (λ o. get_elem? (listening_in o) (turn_in o % length (listening_in o))) f ∙ at,
          rw (f, Consumer.choose) (ap listening_in here ∙ same),
          rw (f, Consumer.choose) (ap turn_in here ∙ next),
        )
      ]
]

module _ {Db : Type 0} (engine : Engine Db) (wire : Wire) (uuid : ℕ → Bytes) where
  hand_to_lem :
      (qname : Bytes) (msg : Message) (c : Consumer Callback) (s : Shared Db)
      → let s' = hand_to engine wire uuid qname msg c s in
        (s'.sent
          ≡ s.sent
            ++ (c.callback.conn, push c.callback.cid c.tag msg.payload.body msg.payload.properties)
              ∷ [])
        × (s'.consumers ≡ s.consumers)
        × (s'.tasks ≡ s.tasks)
        × (s'.host ≡ (
            if c.auto_ack
            then Host.basic_ack engine wire qname msg.payload.properties.id s.host
            else s.host))
  unfolding hand_to
  hand_to_lem qname msg c s = elim (Bool-cases c.auto_ack) [
    | inl e ↦ rw (e, hand_to) (refl, refl, refl, refl)
    | inr e ↦ rw (e, hand_to) (refl, refl, refl, refl)
  ]

  -- What a task comes to for the consumers, with the payload that it took and the host then.
  abbrev pub Handed : Bytes → Payload → VirtualHost Db → Shared Db → Type 0
  Handed qname p taken s =
      let s' = consume engine wire uuid qname s in
      ((listening qname s.consumers ≡ []) × (s'.sent ≡ s.sent) × (s'.host ≡ taken))
      ⊎ ((c : Consumer Callback) × (get_elem? (listening qname s.consumers)
              (turn qname s.consumers % length (listening qname s.consumers))
            ≡ some c)
          × (s'.sent
              ≡ s.sent ++ (c.callback.conn, push c.callback.cid c.tag p.body p.properties) ∷ [])
          × (listening qname s'.consumers ≡ listening qname s.consumers)
          × (turn qname s'.consumers ≡ (turn qname s.consumers + 1) % size_mod)
          × (s'.host ≡ (
              if c.auto_ack
              then Host.basic_ack engine wire qname p.properties.id taken
              else taken)))

  abbrev pub Consumed : Bytes → Shared Db → Type 0
  Consumed qname s =
      let s' = consume engine wire uuid qname s in
      ((waiting qname s.host ≡ [])
        × (waiting qname s'.host ≡ [])
        × (s'.sent ≡ s.sent)
        × (s'.consumers ≡ s.consumers))
      ⊎ ((p : Payload) × (taken : VirtualHost Db) × (waiting qname s.host ≡ p ∷ waiting qname taken)
          × (taken ≡ record s.host { messages = taken.messages })
          × Handed qname p taken s)

  given_over :
      (qname : Bytes) (msg : Message) (s : Shared Db)
      → (Host.basic_consume qname s.host).0 ≡ some msg
      → Handed qname msg.payload (Host.basic_consume qname s.host).1 s
  unfolding consume
  given_over qname msg s f = elim (choose-turn qname s.consumers) [
    | inl (nobody, n) ↦ inl (nobody, rw (f, n, consume) refl, rw (f, n, consume) refl)
    | inr (c, chosen, at, same, next) ↦
        let s1 = record s {
          host = (Host.basic_consume qname s.host).1;
          consumers = (Consumer.choose qname s.consumers).1;
        } in
        let (se, co, ta, ho) = hand_to_lem qname msg c s1 in
        inr (
          c,
          at,
          rw (f, chosen, consume) se,
          rw (f, chosen, consume) (ap (listening qname) co ∙ same),
          rw (f, chosen, consume) (ap (turn qname) co ∙ next),
          rw (f, chosen, consume) ho,
        )
  ]

  -- A task for a queue in which nothing waits sends nothing and moves no turn. Otherwise the payload that
  -- waited longest leaves the queue, the others stay in their order, and nothing but the messages of the host
  -- changes. If the queue has consumers, it is
  -- sent once, to the connection and under the name of the channel of the consumer whose turn it is, with
  -- this consumer's tag; the turn moves on by one; and with this consumer's `auto_ack` it is acknowledged
  -- on the host from which it was taken. If the queue has no consumer, it is sent to nobody.
  pub consume-delivered : (qname : Bytes) (s : Shared Db) → Consumed qname s
  unfolding consume Host.basic_consume
  consume-delivered qname s = elim (basic_consume-waiting qname s.host) [
    | inl (empty, n, still) ↦
        inl (empty, rw (n, consume) still, rw (n, consume) refl, rw (n, consume) refl)
    | inr (msg, f, first) ↦
        inr
          (msg.payload, (Host.basic_consume qname s.host).1, first, refl, given_over qname msg s f)
  ]
