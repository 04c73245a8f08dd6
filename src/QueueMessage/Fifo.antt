-- ===== src/QueueMessage/Fifo.antt =====
-- `insert` and `front` of `QueueMessage`, over the list of the payloads that wait.
use bitmq.Base.{
  ℕ, suc, ◌<◌, ◌≡◌, refl, sym, ap, ap₂, ◌∙◌, ◌⊎◌, inl, inr, Bool, true, false, Option, none, some,
  List, [], ◌∷◌, ◌++◌, map, append_assoc, append-nil, Bytes, codes, if◌then◌else◌, All, All-append,
  Bool-cases, Option-cases, arith, bytes_key,
}
use bitmq.Dict.{Dict, find, emplace, find-emplace}
use bitmq.File.{Fs}
use bitmq.Message.{Message, Payload, BasicProperties, Wire, new_message}
use bitmq.MessageFile
use bitmq.QueueMessage.{
  QueueMessage, Ptr, store, id_of, is_durable, adopt, adopt_all, properties_for, front, insert,
  settle, settle_all,
}

-- The abstract queue: the payloads of the messages that wait, the next one first.
abbrev pub contents : QueueMessage → List Payload
contents q = map (λ p. (q.heap p).payload) q.msgs

-- Every address in use is below the next one.
pub record IsAllocated (q : QueueMessage) : Type 0 where
  pub waiting : All (λ p. p < q.next) q.msgs
  pub managed : (id : Bytes) (p : Ptr) → find id q.durable_msgs ≡ some p → p < q.next
  pub unacked : (id : Bytes) (p : Ptr) → find id q.waitack_msgs ≡ some p → p < q.next

pub map-store :
    (ps : List Ptr) (next : Ptr) (msg : Message) (heap : Ptr → Message)
    → All (λ p. p < next) ps
    → map (λ p. (store next msg heap p).payload) ps ≡ map (λ p. (heap p).payload) ps
map-store [] next msg heap h = refl
map-store (p ∷ ps) next msg heap h =
    ap₂ (λ (x : Payload) (xs : List Payload). x ∷ xs) (ground arith)
      (map-store ps next msg heap h.1)

map-concat {ℓ κ} :
    {A : Type ℓ} {B : Type κ} (f : A → B) (xs : List A) (y : A)
    → map f (xs ++ y ∷ []) ≡ map f xs ++ f y ∷ []
map-concat f [] y = refl
map-concat f (x ∷ xs) y = ap (λ r. f x ∷ r) (map-concat f xs y)

pub concat-store :
    (ps : List Ptr) (next : Ptr) (msg : Message) (heap : Ptr → Message)
    → All (λ p. p < next) ps
    → map (λ p. (store next msg heap p).payload) (ps ++ next ∷ [])
      ≡ map (λ p. (heap p).payload) ps ++ msg.payload ∷ []
concat-store ps next msg heap h =
    map-concat (λ p. (store next msg heap p).payload) ps next
    ∙ ap₂ (λ (xs : List Payload) (x : Payload). xs ++ x ∷ []) (map-store ps next msg heap h)
        (ground arith)

pub weaken : (ps : List Ptr) (n : ℕ) → All (λ p. p < n) ps → All (λ p. p < suc n) ps
weaken [] n h = tt
weaken (p ∷ ps) n h = (omega arith, weaken ps n h.1)

pub adopt-contents :
    (msg : Message) (q : QueueMessage)
    → IsAllocated q
    → contents (adopt msg q) ≡ contents q ++ msg.payload ∷ []
unfolding adopt
adopt-contents msg q a = concat-store q.msgs q.next msg q.heap a.waiting

pub emplace-below :
    (k id : Bytes) (n p : Ptr) (m : Dict Bytes Ptr)
    → ((id : Bytes) (p : Ptr) → find id m ≡ some p → p < n)
    → find id (emplace k n m) ≡ some p
    → p < suc n
emplace-below k id n p m below h = ground (arith, find-emplace k id n m, below id p, below k p)

pub adopt-IsAllocated :
    (msg : Message) (q : QueueMessage) → IsAllocated q → IsAllocated (adopt msg q)
unfolding adopt
adopt-IsAllocated msg q a = record {
  waiting =
      All-append (λ p. p < suc q.next) q.msgs (q.next ∷ []) (weaken q.msgs q.next a.waiting)
        (omega arith, tt);
  managed = λ id p h. emplace-below (id_of msg) id q.next p q.durable_msgs a.managed h;
  unacked = λ id p h. let below = a.unacked id p h in omega arith;
}

-- Taking in the messages that the file holds puts them behind the others, in their order.
pub adopt_all-contents :
    (found : List Message) (q : QueueMessage)
    → IsAllocated q
    → contents (adopt_all found q) ≡ contents q ++ map (λ msg. msg.payload) found
unfolding adopt_all
adopt_all-contents [] q a = sym (append-nil (contents q))
adopt_all-contents (msg ∷ found) q a =
    adopt_all-contents found (adopt msg q) (adopt-IsAllocated msg q a)
    ∙ ap (λ r. r ++ map (λ m. m.payload) found) (adopt-contents msg q a)
    ∙ append_assoc (contents q) (msg.payload ∷ []) (map (λ m. m.payload) found)

pub adopt_all-IsAllocated :
    (found : List Message) (q : QueueMessage) → IsAllocated q → IsAllocated (adopt_all found q)
unfolding adopt_all
adopt_all-IsAllocated [] q a = a
adopt_all-IsAllocated (msg ∷ found) q a =
    adopt_all-IsAllocated found (adopt msg q) (adopt-IsAllocated msg q a)

settle-IsAllocated : (msg : Message) (q : QueueMessage) → IsAllocated q → IsAllocated (settle msg q)
unfolding settle
settle-IsAllocated msg q a = elim (Option-cases (find (id_of msg) q.durable_msgs)) [
  | inl e ↦ rw (e, settle) (adopt-IsAllocated msg q a)
  | inr (p, e) ↦
      rw (e, settle) (record { waiting = a.waiting; managed = a.managed; unacked = a.unacked })
]

pub settle_all-IsAllocated :
    (found : List Message) (q : QueueMessage) → IsAllocated q → IsAllocated (settle_all found q)
unfolding settle_all
settle_all-IsAllocated [] q a = a
settle_all-IsAllocated (msg ∷ found) q a =
    settle_all-IsAllocated found (settle msg q) (settle-IsAllocated msg q a)

-- What `front` does by the list of those that wait.
pub front-cons :
    (q : QueueMessage) (p : Ptr) (rest : List Ptr)
    → q.msgs ≡ p ∷ rest
    → front q ≡ (
      some (q.heap p),
      record q { msgs = rest; waitack_msgs = emplace (id_of (q.heap p)) p q.waitack_msgs },
    )
unfolding front
front-cons q p rest e = rw (e, front)

pub front-nil : (q : QueueMessage) → q.msgs ≡ [] → front q ≡ (none, q)
unfolding front
front-nil q e = ground arith

front_cases :
    (q : QueueMessage) (ps : List Ptr)
    → q.msgs ≡ ps
    → ((contents q ≡ []) × (front q ≡ (none, q)))
      ⊎ ((msg : Message) × (q' : QueueMessage) × (front q ≡ (some msg, q'))
          × (contents q ≡ msg.payload ∷ contents q'))
front_cases q [] e = inl (ap (map (λ p. (q.heap p).payload)) e, front-nil q e)
front_cases q (p ∷ rest) e = inr (
  q.heap p,
  record q { msgs = rest; waitack_msgs = emplace (id_of (q.heap p)) p q.waitack_msgs },
  front-cons q p rest e,
  ap (map (λ x. (q.heap x).payload)) e,
)

-- `front` takes the payload at the head of the queue and leaves the others in their order; from an
-- empty queue it takes nothing and changes nothing.
pub front-contents :
    (q : QueueMessage)
    → ((contents q ≡ []) × (front q ≡ (none, q)))
      ⊎ ((msg : Message) × (q' : QueueMessage) × (front q ≡ (some msg, q'))
          × (contents q ≡ msg.payload ∷ contents q'))
front-contents q = front_cases q q.msgs refl

-- The mapper leaves the payload of a message as it is.
insert_into-payload :
    (wire : Wire) (path : Bytes) (msg : Message) (fs : Fs)
    → (MessageFile.insert_into wire path msg fs).1.payload ≡ msg.payload
unfolding MessageFile.insert_into
insert_into-payload wire path msg fs = ground arith

insert-payload :
    (wire : Wire) (m : MessageFile.Mapper) (msg : Message) (fs : Fs)
    → (MessageFile.insert wire m msg fs).1.payload ≡ msg.payload
unfolding MessageFile.insert
insert-payload wire m msg fs = insert_into-payload wire m.datafile msg fs

-- The payload that an insertion makes.
abbrev pub payload_for : Option BasicProperties → Bytes → Bool → Bytes → Payload
payload_for bp body queue_is_durable uuid =
    let properties = properties_for bp queue_is_durable uuid in
    record {
      properties = properties;
      body = body;
      valid = if is_durable properties.delivery_mode then codes "1" else [];
    }

-- `insert` puts the payload, with the identifier and the mode that are due, at the end of the queue
-- and answers true; or it answers false and changes nothing in memory. The queue's addresses are in
-- use below the next one.
pub insert-contents :
    (wire : Wire) (bp : Option BasicProperties) (body uuid : Bytes) (queue_is_durable : Bool)
    (q : QueueMessage) (fs : Fs)
    → IsAllocated q
    → let r = insert wire bp body queue_is_durable uuid q fs in
      ((r.0 ≡ false) × (r.1 ≡ q))
      ⊎ ((r.0 ≡ true)
          × (contents r.1 ≡ contents q ++ payload_for bp body queue_is_durable uuid ∷ []))
unfolding insert
insert-contents wire bp body uuid queue_is_durable q fs a =
    let p = payload_for bp body queue_is_durable uuid in
    let kept = record new_message { payload = record p { valid = codes "1" } } in
    let stored = MessageFile.insert wire q.mapper kept fs in
    let grown = adopt-contents stored.1 q a in
    let same = insert-payload wire q.mapper kept fs in
    elim (Bool-cases (is_durable (properties_for bp queue_is_durable uuid).delivery_mode)) [
      | inl e ↦ elim (Bool-cases stored.0) [
        | inl r ↦ rw (e, insert) (rw r (inr (refl, grown ∙ ap (λ x. contents q ++ x ∷ []) same)))
        | inr r ↦ rw (e, insert) (rw r (inl (refl, refl)))
      ]
      | inr e ↦ rw (e, insert) (inr (refl, concat-store q.msgs q.next _ q.heap a.waiting))
    ]
