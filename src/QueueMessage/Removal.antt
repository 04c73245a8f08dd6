-- ===== src/QueueMessage/Removal.antt =====
-- `remove` of `QueueMessage` for a durable message, up to the collection that may follow.
use bitmq.Base.{
  ℕ, ◌≡◌, ◌≢◌, refl, sym, ap, ◌∙◌, some, List, Bytes, bytes_eq_iff, bytes_key, nat_eq, nat_eq_iff,
  All, arith, Bool-cases, Option-cases, inl, inr,
}
use bitmq.Dict.{find, erase, find-erase}
use bitmq.Message.{Message}
use bitmq.QueueMessage.{QueueMessage, Ptr, store, id_of}
use bitmq.QueueMessage.Placed.{id_in}
use bitmq.QueueMessage.View.{managed, IsKeyed}
use bitmq.QueueMessage.Queued.{All-map, lasts, IsQueued, IsQueued-acked, IsQueued-same}
use bitmq.QueueMessage.Tied.{pay, IsSorted}

-- The queue with a message marked and no longer managed.
abbrev pub unmanaged : Bytes → Ptr → Message → ℕ → QueueMessage → QueueMessage
unmanaged id p msg valid q = record q {
  heap = store p msg q.heap;
  durable_msgs = erase id q.durable_msgs;
  valid_count = valid;
}

abbrev pub forgotten : Bytes → QueueMessage → QueueMessage
forgotten id q = record q { waitack_msgs = erase id q.waitack_msgs }

pub store_other :
    (p x : Ptr) (msg : Message) (heap : Ptr → Message) → x ≢ p → store p msg heap x ≡ heap x
store_other p x msg heap n = ground (arith, nat_eq_iff x p)

-- The marked message has the id that it had.
store-id :
    (p x : Ptr) (msg : Message) (heap : Ptr → Message)
    → id_of msg ≡ id_of (heap p)
    → id_of (store p msg heap x) ≡ id_of (heap x)
store-id p x msg heap e = elim (Bool-cases (nat_eq x p)) [
  | inl t ↦ rw (t, store) (e ∙ ap (λ y. id_of (heap y)) (sym ((nat_eq_iff x p).0 t)))
  | inr t ↦ rw (t, store) refl
]

pub unmanaged-IsKeyed :
    (id : Bytes) (p : Ptr) (msg : Message) (valid : ℕ) (q : QueueMessage)
    → id_of msg ≡ id_of (q.heap p)
    → IsKeyed q
    → IsKeyed (unmanaged id p msg valid q)
unmanaged-IsKeyed id p msg valid q e k = record {
  allocated = record {
    waiting = k.allocated.waiting;
    managed =
        λ key x f. k.allocated.managed key x (ground (arith, f, find-erase id key q.durable_msgs));
    unacked = k.allocated.unacked;
  };
  keyed = λ key x f.
      store-id p x msg q.heap e
      ∙ k.keyed key x (ground (arith, f, find-erase id key q.durable_msgs));
}

pub unmanaged-managed :
    (id key : Bytes) (p : Ptr) (msg : Message) (valid : ℕ) (q : QueueMessage)
    → IsKeyed q
    → find id q.durable_msgs ≡ some p
    → key ≢ id
    → managed (unmanaged id p msg valid q) key ≡ managed q key
unmanaged-managed id key p msg valid q k f n =
    let e : find key (erase id q.durable_msgs) ≡ find key q.durable_msgs =
      ground (arith, find-erase id key q.durable_msgs, bytes_eq_iff id key) in
    rw (e, managed)
      (elim (Option-cases (find key q.durable_msgs)) [
        | inl o ↦ rw (o, managed) refl
        | inr (x, o) ↦
            rw (o, managed)
              (ap some (
                store_other p x msg q.heap
                  (λ i. n (sym (k.keyed key x o) ∙ ap (λ y. id_of (q.heap y)) i ∙ k.keyed id p f))))
      ])

-- What waits in the list does not have the id of a message that waits for its acknowledgement.
pub others_queued :
    (q : QueueMessage) (id : Bytes) (p : Ptr) (xs : List Ptr)
    → find id q.waitack_msgs ≡ some p
    → IsQueued (pay q) q.durable_msgs q.waitack_msgs xs
    → All (λ x. id_in (pay q x) ≢ id) xs
others_queued q id p xs f h =
    All-map _ _ xs (λ x n e. ground (arith, f, n, e))
      (IsQueued-acked (pay q) q.durable_msgs q.waitack_msgs xs h)

-- A message that waits for its acknowledgement is acknowledged: it is marked, no longer managed, and
-- waits no more.
pub removed-IsSorted :
    (id : Bytes) (p : Ptr) (msg : Message) (valid : ℕ) (q : QueueMessage)
    → id_of msg ≡ id_of (q.heap p)
    → find id q.waitack_msgs ≡ some p
    → IsSorted q
    → IsSorted (forgotten id (unmanaged id p msg valid q))
removed-IsSorted id p msg valid q e f s =
    let q' = forgotten id (unmanaged id p msg valid q) in
    let k = unmanaged-IsKeyed id p msg valid q e s.keyed in
    let named = (s.acked id p f).0 in
    let others = others_queued q id p q.msgs f s.queued in
    let other : (x : Ptr) → id_in (pay q x) ≢ id → x ≢ p =
      λ x n i. n (ap (λ y. id_in (pay q y)) i ∙ named) in
    record {
      keyed = record {
        allocated = record {
          waiting = k.allocated.waiting;
          managed = k.allocated.managed;
          unacked = λ key x g.
              k.allocated.unacked key x (ground (arith, g, find-erase id key q.waitack_msgs));
        };
        keyed = k.keyed;
      };
      acked = λ key x g.
          let old : find key q.waitack_msgs ≡ some x =
            ground (arith, g, find-erase id key q.waitack_msgs) in
          let n : key ≢ id =
            ground (arith, g, find-erase id key q.waitack_msgs, bytes_eq_iff id key) in
          let was = s.acked key x old in
          let same : pay q' x ≡ pay q x =
            ap (λ m. m.payload) (store_other p x msg q.heap (other x (λ i. n (sym was.0 ∙ i)))) in
          (
            ap id_in same ∙ was.0,
            λ l. ground (
              arith,
              find-erase id key q.durable_msgs,
              bytes_eq_iff id key,
              was.1 (ap lasts (sym same) ∙ l),
              n,
            ),
          );
      queued =
          IsQueued-same (pay q) (pay q') q.durable_msgs q'.durable_msgs q.waitack_msgs
            q'.waitack_msgs q.msgs
            (All-map _ _ q.msgs
              (λ x n. ap (λ m. m.payload) (store_other p x msg q.heap (other x n))) others)
            (All-map _ _ q.msgs
              (λ x n. ground (
                arith,
                find-erase id (id_in (pay q x)) q.durable_msgs,
                bytes_eq_iff id (id_in (pay q x)),
                n,
              ))
              others)
            (All-map _ _ q.msgs
              (λ x n. ground (arith, find-erase id (id_in (pay q x)) q.waitack_msgs, n))
              (IsQueued-acked (pay q) q.durable_msgs q.waitack_msgs q.msgs s.queued))
            s.queued;
    }

pub forgotten-IsSorted : (id : Bytes) (q : QueueMessage) → IsSorted q → IsSorted (forgotten id q)
forgotten-IsSorted id q s =
    let unacked = IsQueued-acked (pay q) q.durable_msgs q.waitack_msgs q.msgs s.queued in
    record {
      keyed = record {
        allocated = record {
          waiting = s.keyed.allocated.waiting;
          managed = s.keyed.allocated.managed;
          unacked = λ key x g.
              s.keyed.allocated.unacked key x (ground (arith, g, find-erase id key q.waitack_msgs));
        };
        keyed = s.keyed.keyed;
      };
      acked = λ key x g. s.acked key x (ground (arith, g, find-erase id key q.waitack_msgs));
      queued =
          IsQueued-same (pay q) (pay q) q.durable_msgs q.durable_msgs q.waitack_msgs
            (erase id q.waitack_msgs) q.msgs (All-map _ _ q.msgs (λ x n. refl) unacked)
            (All-map _ _ q.msgs (λ x n. refl) unacked)
            (All-map _ _ q.msgs
              (λ x n. ground (arith, find-erase id (id_in (pay q x)) q.waitack_msgs, n)) unacked)
            s.queued;
    }
