-- ===== src/QueueMessage/Placed.antt =====
-- The records of a queue's file beside the messages that are managed in memory, each under its id.
use bitmq.Base.{
  ℕ, ◌+◌, ◌≡◌, ◌≢◌, ◌⊎◌, refl, sym, ap, ◌∙◌, Bool, true, false, Option, some, List, [], ◌∷◌, ◌++◌,
  Bytes, codes, bytes_eq, bytes_eq_iff, if◌then◌else◌, length, length-append, All, arith,
  Bool-cases, inl, inr, subst,
}
use bitmq.Message.{Message, Payload, Wire}
use bitmq.MessageFile.Layout.{record_of, image, IsStorable, live}
use bitmq.MessageFile.Update.{marked}

abbrev pub id_in : Payload → Bytes
id_in p = p.properties.id

abbrev pub is_marked : Payload → Bool
is_marked p = bytes_eq p.valid (codes "0")

-- The payloads without the one of an id.
abbrev pub without : Bytes → List Payload → List Payload
without id [] = []
without id (p ∷ ps) = if bytes_eq (id_in p) id then without id ps else p ∷ without id ps

abbrev pub HasDistinctIds : List Payload → Type 0
HasDistinctIds [] = Unit
HasDistinctIds (p ∷ ps) = All (λ q. id_in q ≢ id_in p) ps × HasDistinctIds ps

abbrev pub Has : Bytes → List Payload → Type 0
Has id [] = ⊥
Has id (p ∷ ps) = (id_in p ≡ id) ⊎ Has id ps

pub without-none :
    (id : Bytes) (ps : List Payload) → All (λ q. id_in q ≢ id) ps → without id ps ≡ ps
without-none id [] h = refl
without-none id (p ∷ ps) h = ground (arith, bytes_eq_iff (id_in p) id, without-none id ps h.1)

pub without-append :
    (id : Bytes) (ps qs : List Payload) → without id (ps ++ qs) ≡ without id ps ++ without id qs
without-append id [] qs = refl
without-append id (p ∷ ps) qs = ground (arith, without-append id ps qs)

pub live-gone : (p : Payload) (ps : List Payload) → is_marked p ≡ true → live (p ∷ ps) ≡ live ps
live-gone p ps m = rw m refl

pub live-kept :
    (p : Payload) (ps : List Payload) → is_marked p ≡ false → live (p ∷ ps) ≡ p ∷ live ps
live-kept p ps m = rw m refl

module _ (wire : Wire) where
  open wire use {serialize}

  -- The payload can be marked in its place and read back then.
  pub record IsMarkable (p : Payload) : Type 0 where
    pub storable : IsStorable wire (marked wire p)
    pub same_size : length (serialize (marked wire p)) ≡ length (serialize p)

  -- The message of a payload whose record stands behind `before` bytes.
  abbrev pub exact : ℕ → Payload → Message
  exact before p = record { payload = p; offset = before + 8; length = length (serialize p) }

  -- A record behind `before` bytes is marked, or the message under its id has its place.
  abbrev pub IsPlaced : (Bytes → Option Message) → ℕ → Payload → Type 0
  IsPlaced managed before p =
      (is_marked p ≡ true)
      ⊎ ((managed (id_in p) ≡ some (exact before p)) × IsMarkable p × (is_marked p ≡ false))

  abbrev pub Placed : (Bytes → Option Message) → ℕ → List Payload → Type 0
  Placed managed before [] = Unit
  Placed managed before (p ∷ ps) =
      IsPlaced managed before p × Placed managed (before + length (record_of wire p)) ps

  moved :
      (managed managed' : Bytes → Option Message) (before : ℕ) (p : Payload)
      → managed' (id_in p) ≡ managed (id_in p)
      → IsPlaced managed before p
      → IsPlaced managed' before p
  moved managed managed' before p same (inl m) = inl m
  moved managed managed' before p same (inr (e, k, m)) = inr (same ∙ e, k, m)

  pub Placed-same :
      (managed managed' : Bytes → Option Message) (before : ℕ) (ps : List Payload)
      → All (λ p. managed' (id_in p) ≡ managed (id_in p)) (live ps)
      → Placed managed before ps
      → Placed managed' before ps
  Placed-same managed managed' before [] same h = tt
  Placed-same managed managed' before (p ∷ ps) same h = elim (Bool-cases (is_marked p)) [
    | inl m ↦ (
      inl m,
      Placed-same managed managed' (before + length (record_of wire p)) ps
          (subst (All (λ q. managed' (id_in q) ≡ managed (id_in q))) (live-gone p ps m) same) h.1,
    )
    | inr m ↦
        let same' =
          subst (All (λ q. managed' (id_in q) ≡ managed (id_in q))) (live-kept p ps m) same in
        (
          moved managed managed' before p same'.0 h.0,
          Placed-same managed managed' (before + length (record_of wire p)) ps same'.1 h.1,
        )
  ]

  pub Placed-append :
      (managed : Bytes → Option Message) (before : ℕ) (ps : List Payload) (p : Payload)
      → Placed managed before ps
      → IsPlaced managed (before + length (image wire ps)) p
      → Placed managed before (ps ++ p ∷ [])
  Placed-append managed before [] p h i = (subst (λ n. IsPlaced managed n p) (omega arith) i, tt)
  Placed-append managed before (q ∷ ps) p h i = (
    h.0,
    Placed-append managed (before + length (record_of wire q)) ps p h.1 (
        subst (λ n. IsPlaced managed n p)
          (omega (arith, length-append (record_of wire q) (image wire ps))) i),
  )

  -- The payloads that are not marked are managed.
  pub Placed-managed :
      (managed : Bytes → Option Message) (before : ℕ) (ps : List Payload)
      → Placed managed before ps
      → All (λ p. (m : Message) × (managed (id_in p) ≡ some m) × (m.payload ≡ p)) (live ps)
  Placed-managed managed before [] h = tt
  Placed-managed managed before (p ∷ ps) (inl m, h) =
      rw m (Placed-managed managed (before + length (record_of wire p)) ps h)
  Placed-managed managed before (p ∷ ps) (inr (e, k, m), h) =
      rw m (
        (exact before p, e, refl),
        Placed-managed managed (before + length (record_of wire p)) ps h,
      )

  -- The record of an id that is not marked.
  pub record Located (managed : Bytes → Option Message) (start : ℕ) (id : Bytes) (ps : List Payload)
      : Type 0 where
    pub before : List Payload
    pub payload : Payload
    pub after : List Payload
    pub splits : ps ≡ before ++ payload ∷ after
    pub named : id_in payload ≡ id
    pub exactly : managed id ≡ some (exact (start + length (image wire before)) payload)
    pub markable : IsMarkable payload
    pub kept : is_marked payload ≡ false

  Located-later :
      (managed : Bytes → Option Message) (start : ℕ) (id : Bytes) (p : Payload) (ps : List Payload)
      → Located managed (start + length (record_of wire p)) id ps
      → Located managed start id (p ∷ ps)
  Located-later managed start id p ps l = record {
    before = p ∷ l.before;
    payload = l.payload;
    after = l.after;
    splits = ap (λ r. p ∷ r) l.splits;
    named = l.named;
    exactly =
        l.exactly
        ∙ ap (λ n. some (exact n l.payload))
            (omega (arith, length-append (record_of wire p) (image wire l.before)));
    markable = l.markable;
    kept = l.kept;
  }

  pub Placed-Located :
      (managed : Bytes → Option Message) (start : ℕ) (id : Bytes) (ps : List Payload)
      → Placed managed start ps
      → Has id (live ps)
      → Located managed start id ps
  Placed-Located managed start id [] h here = elim here [ ]
  Placed-Located managed start id (p ∷ ps) (inl m, h) here = Located-later managed start id p ps (
      Placed-Located managed (start + length (record_of wire p)) id ps h
        (subst (Has id) (live-gone p ps m) here))
  Placed-Located managed start id (p ∷ ps) (inr (e, k, m), h) here =
      elim (subst (Has id) (live-kept p ps m) here) [
        | inl n ↦ record {
          before = [];
          payload = p;
          after = ps;
          splits = refl;
          named = n;
          exactly = ap managed (sym n) ∙ e ∙ ap (λ x. some (exact x p)) (omega arith);
          markable = k;
          kept = m;
        }
        | inr later ↦
            Located-later managed start id p ps
              (Placed-Located managed (start + length (record_of wire p)) id ps h later)
      ]

  -- Marking a record in its place.
  pub Placed-marked :
      (managed : Bytes → Option Message) (start : ℕ) (before after : List Payload) (p : Payload)
      → length (serialize (marked wire p)) ≡ length (serialize p)
      → Placed managed start (before ++ p ∷ after)
      → Placed managed start (before ++ marked wire p ∷ after)
  unfolding bytes_eq
  Placed-marked managed start [] after p same h =
      (inl refl, subst (λ n. Placed managed n after) (omega (arith, same)) h.1)
  Placed-marked managed start (q ∷ before) after p same h =
      (h.0, Placed-marked managed (start + length (record_of wire q)) before after p same h.1)
