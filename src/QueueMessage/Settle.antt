-- ===== src/QueueMessage/Settle.antt =====
-- The containers of a queue under the loop of `gc` of `QueueMessage`.
use bitmq.Base.{
  ℕ, ◌+◌, ◌^◌, ◌<◌, ◌≡◌, ◌≢◌, refl, ap, ap₂, ◌∙◌, Option, some, List, [], ◌∷◌, Bytes, bytes_eq_iff,
  bytes_key, length, length-append, All, arith,
}
use bitmq.Dict.{find}
use bitmq.Message.{Message, Payload, Wire, uint32}
use bitmq.MessageFile.Layout.{record_of, image, fresh}
use bitmq.MessageFile.Update.{place}
use bitmq.MessageFile.Compact.{placed}
use bitmq.QueueMessage.{QueueMessage, Ptr, settle, settle_all}
use bitmq.QueueMessage.Placed.{id_in, HasDistinctIds, exact}
use bitmq.QueueMessage.View.{
  managed, IsKeyed, SameBooks, moved_to, settle-SameBooks, SameBooks-IsKeyed, settle-managed,
}

SameBooks-trans : (q q' q'' : QueueMessage) → SameBooks q q' → SameBooks q' q'' → SameBooks q q''
SameBooks-trans q q' q'' s t = record {
  same_mapper = t.same_mapper ∙ s.same_mapper;
  same_msgs = t.same_msgs ∙ s.same_msgs;
  same_durable = t.same_durable ∙ s.same_durable;
  same_waitack = t.same_waitack ∙ s.same_waitack;
  same_next = t.same_next ∙ s.same_next;
  same_payload = λ p. t.same_payload p ∙ s.same_payload p;
}

-- Every payload is that of the message that is managed under its id.
abbrev pub AreManaged : QueueMessage → List Payload → Type 0
AreManaged q =
    All (λ p. (x : Ptr) × (find (id_in p) q.durable_msgs ≡ some x) × ((q.heap x).payload ≡ p))

SameBooks-AreManaged :
    (q q' : QueueMessage) (ps : List Payload) → SameBooks q q' → AreManaged q ps → AreManaged q' ps
SameBooks-AreManaged q q' [] s h = tt
SameBooks-AreManaged q q' (p ∷ ps) s ((x, e, v), h) = (
  (x, ap (find (id_in p)) s.same_durable ∙ e, s.same_payload x ∙ v),
  SameBooks-AreManaged q q' ps s h,
)

module _ (wire : Wire) where
  open wire use {serialize}

  -- The messages under the ids of the payloads have the places of records behind `before` bytes.
  abbrev pub AreExact : (Bytes → Option Message) → ℕ → List Payload → Type 0
  AreExact at before [] = Unit
  AreExact at before (p ∷ ps) =
      (at (id_in p) ≡ some (exact wire before p))
      × AreExact at (before + length (record_of wire p)) ps

  -- What the loop comes to.
  pub record IsSettled (q q' : QueueMessage) (before : ℕ) (ps : List Payload) : Type 0 where
    pub books : SameBooks q q'
    pub places : AreExact (managed q') before ps
    pub others : (id : Bytes) → All (λ p. id_in p ≢ id) ps → managed q' id ≡ managed q id

  pub exact-moved :
      (before : ℕ) (p : Payload) (m : Message)
      → m.payload ≡ p
      → before + 8 < 2 ^ 32
      → length (serialize p) < 2 ^ 32
      → ◌≡◌ {A = Option Message}
          (some (moved_to (place wire before (fresh p)) m))
          (some (exact wire before p))
  exact-moved before p m e l k =
      let a : uint32 (before + 8) ≡ before + 8 = omega (arith, l) in
      let b : uint32 (length (serialize p)) ≡ length (serialize p) = omega (arith, k) in
      let message : Payload → ℕ → ℕ → Message =
        λ v o n. record { payload = v; offset = o; length = n } in
      ap (λ v. some (message v (uint32 (before + 8)) (uint32 (length (serialize p))))) e
      ∙ ap₂ (λ o n. some (message p o n)) a b

  pub settle_all-IsSettled :
      (before : ℕ) (ps : List Payload) (q : QueueMessage)
      → IsKeyed q
      → AreManaged q ps
      → HasDistinctIds ps
      → before + length (image wire ps) < 2 ^ 32
      → IsSettled q (settle_all (placed wire before ps) q) before ps
  unfolding settle_all
  settle_all-IsSettled before [] q k h d l = record {
    books = record {
      same_mapper = refl;
      same_msgs = refl;
      same_durable = refl;
      same_waitack = refl;
      same_next = refl;
      same_payload = λ p. refl;
    };
    places = tt;
    others = λ id h. refl;
  }
  settle_all-IsSettled before (p ∷ ps) q k ((x, e, v), h) (fresh_id, d) l =
      let msg = place wire before (fresh p) in
      let q1 = settle msg q in
      let books1 = settle-SameBooks msg x q e in
      let size = length-append (record_of wire p) (image wire ps) in
      let rest =
        settle_all-IsSettled (before + length (record_of wire p)) ps q1
          (SameBooks-IsKeyed q q1 books1 k) (SameBooks-AreManaged q q1 ps books1 h) d
          (omega (arith, l, size)) in
      record {
        books = SameBooks-trans q q1 _ books1 rest.books;
        places = (
          rest.others (id_in p) fresh_id
              ∙ settle-managed msg x q (id_in p) k e
              ∙ rw ((bytes_eq_iff (id_in p) (id_in p)).1 refl) (
                  exact-moved before p (q.heap x) v (omega (arith, l, size))
                    (omega (arith, l, size))),
          rest.places,
        );
        others = λ id (n, ns).
            rest.others id ns
            ∙ settle-managed msg x q id k e
            ∙ ground (arith, bytes_eq_iff (id_in p) id, n);
      }
