-- ===== src/QueueMessage/Grow.antt =====
-- The containers of a queue when a message is added by `insert` of `QueueMessage`.
use bitmq.Base.{
  suc, ◌<◌, ◌≡◌, ◌≢◌, refl, sym, ap, ◌∙◌, true, false, none, some, List, [], ◌∷◌, ◌++◌, Bytes,
  bytes_eq_iff, bytes_key, nat_eq_iff, All, All-append, arith, Option-cases, inl, inr,
}
use bitmq.Dict.{Dict, find, emplace, find-emplace}
use bitmq.Message.{Message, Payload}
use bitmq.QueueMessage.{QueueMessage, Ptr, store, id_of, adopt}
use bitmq.QueueMessage.Fifo.{weaken}
use bitmq.QueueMessage.Placed.{id_in}
use bitmq.QueueMessage.View.{managed, IsKeyed, adopt-IsKeyed}
use bitmq.QueueMessage.Queued.{All-map, lasts, IsQueued-frame, IsQueued-append, IsQueued-acked}
use bitmq.QueueMessage.Tied.{pay, IsSorted}

-- No message in memory has the id.
pub record IsUnused (id : Bytes) (q : QueueMessage) : Type 0 where
  pub not_managed : find id q.durable_msgs ≡ none
  pub not_acked : find id q.waitack_msgs ≡ none
  pub not_queued : All (λ x. id_in (pay q x) ≢ id) q.msgs

-- The queue with one more message at the end, and another table of the managed ones.
abbrev pub grown : Message → Dict Bytes Ptr → QueueMessage → QueueMessage
grown msg dm q = record q {
  msgs = q.msgs ++ q.next ∷ [];
  durable_msgs = dm;
  heap = store q.next msg q.heap;
  next = suc q.next;
}

store_below :
    (next x : Ptr) (msg : Message) (heap : Ptr → Message)
    → x < next
    → store next msg heap x ≡ heap x
store_below next x msg heap l = ground (arith, nat_eq_iff x next)

store_here : (next : Ptr) (msg : Message) (heap : Ptr → Message) → store next msg heap next ≡ msg
store_here next msg heap = ground (arith, nat_eq_iff next next)

ids_new :
    (old new : Ptr → Payload) (n : Ptr) (id : Bytes) (xs : List Ptr)
    → ((x : Ptr) → x < n → new x ≡ old x)
    → id_in (new n) ≡ id
    → All (λ x. x < n) xs
    → All (λ x. id_in (old x) ≢ id) xs
    → All (λ x. id_in (new x) ≢ id_in (new n)) xs
ids_new old new n id [] same e l h = tt
ids_new old new n id (x ∷ xs) same e l h =
    (λ i. h.0 (ap id_in (sym (same x l.0)) ∙ i ∙ e), ids_new old new n id xs same e l.1 h.1)

grown-IsSorted :
    (msg : Message) (dm : Dict Bytes Ptr) (q : QueueMessage)
    → IsSorted q
    → IsUnused (id_of msg) q
    → IsKeyed (grown msg dm q)
    → ((id : Bytes) → id ≢ id_of msg → find id dm ≡ find id q.durable_msgs)
    → (lasts msg.payload ≡ true → find (id_of msg) dm ≡ some q.next)
    → IsSorted (grown msg dm q)
grown-IsSorted msg dm q s u k same here =
    let q' = grown msg dm q in
    let below : (x : Ptr) → x < q.next → pay q' x ≡ pay q x =
      λ x l. ap (λ m. m.payload) (store_below q.next x msg q.heap l) in
    let new : pay q' q.next ≡ msg.payload = ap (λ m. m.payload) (store_here q.next msg q.heap) in
    record {
      keyed = k;
      acked = λ id x f.
          let old = s.acked id x f in
          let e = below x (s.keyed.allocated.unacked id x f) in
          let other : id ≢ id_of msg = λ i. ground (arith, f, u.not_acked, i) in
          (ap id_in e ∙ old.0, λ l. same id other ∙ old.1 (ap lasts (sym e) ∙ l));
      queued =
          IsQueued-append (pay q') dm q.waitack_msgs q.msgs q.next
            (λ l. ap (λ p. find (id_in p) dm) new ∙ here (ap lasts (sym new) ∙ l))
            (ap (λ p. find (id_in p) q.waitack_msgs) new ∙ u.not_acked)
            (ids_new (pay q) (pay q') q.next (id_of msg) q.msgs below (ap id_in new)
              s.keyed.allocated.waiting u.not_queued)
            (IsQueued-frame (pay q) (pay q') q.durable_msgs dm q.waitack_msgs q.waitack_msgs q.next
              q.msgs below s.keyed.allocated.waiting
              (All-map _ _ q.msgs (λ x n. same (id_in (pay q x)) n) u.not_queued)
              (IsQueued-acked (pay q) q.durable_msgs q.waitack_msgs q.msgs s.queued) s.queued);
    }

-- A durable message and its record at the end of the file.
pub adopted-IsSorted :
    (msg : Message) (q : QueueMessage)
    → IsSorted q
    → IsUnused (id_of msg) q
    → IsSorted (adopt msg q)
unfolding adopt
adopted-IsSorted msg q s u =
    grown-IsSorted msg (emplace (id_of msg) q.next q.durable_msgs) q s u
      (unfold adopt in adopt-IsKeyed msg q s.keyed u.not_managed)
      (λ id n.
        ground
          (arith, find-emplace (id_of msg) id q.next q.durable_msgs, bytes_eq_iff (id_of msg) id))
      (λ l. ground (
        arith,
        find-emplace (id_of msg) (id_of msg) q.next q.durable_msgs,
        bytes_eq_iff (id_of msg) (id_of msg),
        u.not_managed,
      ))

-- A message that is not durable.
pub light-IsSorted :
    (msg : Message) (q : QueueMessage)
    → IsSorted q
    → IsUnused (id_of msg) q
    → lasts msg.payload ≡ false
    → IsSorted (grown msg q.durable_msgs q)
light-IsSorted msg q s u light =
    grown-IsSorted msg q.durable_msgs q s u
      (record {
        allocated = record {
          waiting =
              All-append (λ p. p < suc q.next) q.msgs (q.next ∷ [])
                (weaken q.msgs q.next s.keyed.allocated.waiting) (omega arith, tt);
          managed = λ id p f. let l = s.keyed.allocated.managed id p f in omega (arith, l);
          unacked = λ id p f. let l = s.keyed.allocated.unacked id p f in omega (arith, l);
        };
        keyed = λ id p f.
            ap id_of (store_below q.next p msg q.heap (s.keyed.allocated.managed id p f))
            ∙ s.keyed.keyed id p f;
      })
      (λ id n. refl) (λ l. ground arith)

pub light-managed :
    (msg : Message) (q : QueueMessage) (id : Bytes)
    → IsKeyed q
    → managed (grown msg q.durable_msgs q) id ≡ managed q id
light-managed msg q id k = elim (Option-cases (find id q.durable_msgs)) [
  | inl e ↦ rw (e, managed) refl
  | inr (p, e) ↦
      rw (e, managed) (ap some (store_below q.next p msg q.heap (k.allocated.managed id p e)))
]
