-- ===== src/QueueMessage/Tied.antt =====
-- What ties the containers of `QueueMessage` and its file to each other.
use bitmq.Base.{
  ℕ, ◌^◌, ◌<◌, ◌≡◌, ◌≢◌, refl, sym, ap, ◌∙◌, true, none, some, List, [], ◌∷◌, Bytes, bytes_eq,
  bytes_eq_iff, bytes_key, length, All, arith, Bool-cases, inl, inr, subst,
}
use bitmq.Dict.{find, emplace, find-emplace}
use bitmq.File.{Fs}
use bitmq.File.Open.{IsOpen}
use bitmq.Message.{Payload, Wire}
use bitmq.MessageFile.Layout.{image, IsStorable, live}
use bitmq.MessageFile.Compact.{HasRoom}
use bitmq.QueueMessage.{QueueMessage, Ptr, id_of, front}
use bitmq.QueueMessage.Fifo.{front-cons, front-nil}
use bitmq.QueueMessage.Placed.{id_in, HasDistinctIds, Has, Placed}
use bitmq.QueueMessage.View.{managed, IsKeyed, SameBooks, SameBooks-IsKeyed}
use bitmq.QueueMessage.Queued.{All-map, lasts, IsQueued, IsQueued-frame, IsQueued-acked}

abbrev pub pay : QueueMessage → Ptr → Payload
pay q p = (q.heap p).payload

-- A message that waits for its acknowledgement stands under its id, and is managed if it is durable.
abbrev pub AreUnacked : QueueMessage → Type 0
AreUnacked q =
    (id : Bytes) (p : Ptr)
    → find id q.waitack_msgs ≡ some p
    → (id_in (pay q p) ≡ id) × (lasts (pay q p) ≡ true → find id q.durable_msgs ≡ some p)

-- The containers alone.
pub record IsSorted (q : QueueMessage) : Type 0 where
  pub keyed : IsKeyed q
  pub acked : AreUnacked q
  pub queued : IsQueued (pay q) q.durable_msgs q.waitack_msgs q.msgs

-- The containers and the file, whose records are those of `ps`.
pub record IsTied (wire : Wire) (q : QueueMessage) (ps : List Payload) (fs : Fs) : Type 0 where
  pub sorted : IsSorted q
  pub file : IsOpen q.mapper.datafile (image wire ps) fs
  pub room : HasRoom q.mapper fs
  pub storable : All (IsStorable wire) ps
  pub placed : Placed wire (managed q) 0 ps
  pub distinct : HasDistinctIds (live ps)
  pub small : length (image wire ps) < 2 ^ 32
  pub recorded : (id : Bytes) (p : Ptr) → find id q.durable_msgs ≡ some p → Has id (live ps)

popped_others :
    (q : QueueMessage) (p : Ptr) (xs : List Ptr)
    → All (λ y. id_in (pay q y) ≢ id_in (pay q p)) xs
    → IsQueued (pay q) q.durable_msgs q.waitack_msgs xs
    → All (λ y. find (id_in (pay q y)) (emplace (id_in (pay q p)) p q.waitack_msgs) ≡ none) xs
popped_others q p [] h i = tt
popped_others q p (y ∷ xs) h i = (
  ground (
    arith,
    find-emplace (id_in (pay q p)) (id_in (pay q y)) p q.waitack_msgs,
    bytes_eq_iff (id_in (pay q p)) (id_in (pay q y)),
    h.0,
    i.1,
  ),
  popped_others q p xs h.1 i.3,
)

-- The head of the list goes to those that wait for their acknowledgement.
abbrev pub popped : Ptr → List Ptr → QueueMessage → QueueMessage
popped p rest q = record q {
  msgs = rest;
  waitack_msgs = emplace (id_of (q.heap p)) p q.waitack_msgs;
}

pub popped-IsSorted :
    (p : Ptr) (rest : List Ptr) (q : QueueMessage)
    → q.msgs ≡ p ∷ rest
    → IsSorted q
    → IsSorted (popped p rest q)
popped-IsSorted p rest q e s =
    let id = id_in (pay q p) in
    let waiting = subst (λ l. All (λ x. x < q.next) l) e s.keyed.allocated.waiting in
    let (lasting, unacked, others, queued) =
      subst (λ l. IsQueued (pay q) q.durable_msgs q.waitack_msgs l) e s.queued in
    record {
      keyed = record {
        allocated = record {
          waiting = waiting.1;
          managed = s.keyed.allocated.managed;
          unacked = λ key x f. ground (
            arith,
            find-emplace id key p q.waitack_msgs,
            unacked,
            f,
            waiting.0,
            s.keyed.allocated.unacked key x,
          );
        };
        keyed = s.keyed.keyed;
      };
      acked = λ key x f. elim (Bool-cases (bytes_eq id key)) [
        | inl t ↦
            let k = (bytes_eq_iff id key).0 t in
            let same : p ≡ x =
              ground (arith, find-emplace id key p q.waitack_msgs, unacked, f, t) in
            subst
              (λ y.
                (id_in (pay q y) ≡ key)
                × (lasts (pay q y) ≡ true → find key q.durable_msgs ≡ some y))
              same (k, λ l. ap (λ z. find z q.durable_msgs) (sym k) ∙ lasting l)
        | inr t ↦ s.acked key x (ground (arith, find-emplace id key p q.waitack_msgs, f, t))
      ];
      queued =
          IsQueued-frame (pay q) (pay q) q.durable_msgs q.durable_msgs q.waitack_msgs
            (emplace id p q.waitack_msgs) q.next rest (λ y l. refl) waiting.1
            (All-map (λ y. y < q.next) _ rest (λ y l. refl) waiting.1)
            (popped_others q p rest others queued) queued;
    }

pub front-IsSorted : (q : QueueMessage) → IsSorted q → IsSorted (front q).1
front-IsSorted q s = front_at q.msgs refl
  where
    front_at : (ps : List Ptr) → q.msgs ≡ ps → IsSorted (front q).1
    front_at [] e = subst (λ r. IsSorted r.1) (sym (front-nil q e)) s
    front_at (p ∷ rest) e =
        subst (λ r. IsSorted r.1) (sym (front-cons q p rest e)) (popped-IsSorted p rest q e s)

-- Places, sizes and counts do not matter to the containers.
pub SameBooks-IsSorted : (q q' : QueueMessage) → SameBooks q q' → IsSorted q → IsSorted q'
SameBooks-IsSorted q q' b s = record {
  keyed = SameBooks-IsKeyed q q' b s.keyed;
  acked = λ id x f.
      let old = s.acked id x (ap (find id) (sym b.same_waitack) ∙ f) in
      (
        ap id_in (b.same_payload x) ∙ old.0,
        λ l. ap (find id) b.same_durable ∙ old.1 (ap lasts (sym (b.same_payload x)) ∙ l),
      );
  queued =
      subst (λ l. IsQueued (pay q') q'.durable_msgs q'.waitack_msgs l) (sym b.same_msgs)
        (IsQueued-frame (pay q) (pay q') q.durable_msgs q'.durable_msgs q.waitack_msgs
          q'.waitack_msgs q.next q.msgs (λ y l. b.same_payload y) s.keyed.allocated.waiting
          (All-map (λ y. y < q.next) _ q.msgs (λ y l. ap (find (id_in (pay q y))) b.same_durable)
            s.keyed.allocated.waiting)
          (All-map (λ y. find (id_in (pay q y)) q.waitack_msgs ≡ none) _ q.msgs
            (λ y n. ap (find (id_in (pay q y))) b.same_waitack ∙ n)
            (IsQueued-acked (pay q) q.durable_msgs q.waitack_msgs q.msgs s.queued))
          s.queued);
}

-- The same queue with other counts.
abbrev pub counted : ℕ → ℕ → QueueMessage → QueueMessage
counted valid total q = record q { valid_count = valid; total_count = total }

pub counted-IsSorted :
    (valid total : ℕ) (q : QueueMessage) → IsSorted q → IsSorted (counted valid total q)
counted-IsSorted valid total q s =
    SameBooks-IsSorted q (counted valid total q)
      (record {
        same_mapper = refl;
        same_msgs = refl;
        same_durable = refl;
        same_waitack = refl;
        same_next = refl;
        same_payload = λ p. refl;
      })
      s
