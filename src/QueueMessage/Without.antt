-- ===== src/QueueMessage/Without.antt =====
-- The payloads of a file without the one that was marked.
use bitmq.Base.{
  ◌≤◌, ◌≡◌, ◌≢◌, refl, sym, ap, ◌∙◌, false, List, [], ◌∷◌, ◌++◌, Bytes, bytes_eq, bytes_eq_iff,
  length, length-append, All, arith, Bool-cases, inl, inr, subst,
}
use bitmq.Message.{Payload, Wire}
use bitmq.MessageFile.Layout.{record_of, image, live}
use bitmq.MessageFile.Update.{marked}
use bitmq.QueueMessage.Durable.{live-append}
use bitmq.QueueMessage.Placed.{
  id_in, is_marked, without, without-none, HasDistinctIds, Has, live-kept,
}

pub All-replace :
    {A : Type 0} (P : A → Type 0) (before after : List A) (x y : A)
    → P y
    → All P (before ++ x ∷ after)
    → All P (before ++ y ∷ after)
All-replace P [] after x y p h = (p, h.1)
All-replace P (b ∷ before) after x y p h = (h.0, All-replace P before after x y p h.1)

pub All-live : (P : Payload → Type 0) (ps : List Payload) → All P ps → All P (live ps)
All-live P [] h = tt
All-live P (p ∷ ps) h = elim (Bool-cases (is_marked p)) [
  | inl m ↦ rw m (All-live P ps h.1)
  | inr m ↦ rw m (h.0, All-live P ps h.1)
]

All-drop :
    {A : Type 0} (P : A → Type 0) (before after : List A) (x : A)
    → All P (before ++ x ∷ after)
    → P x × All P (before ++ after)
All-drop P [] after x h = h
All-drop P (b ∷ before) after x h =
    let (p, rest) = All-drop P before after x h.1 in (p, (h.0, rest))

pub distinct_others :
    (before after : List Payload) (p : Payload)
    → HasDistinctIds (before ++ p ∷ after)
    → HasDistinctIds (before ++ after) × All (λ q. id_in q ≢ id_in p) (before ++ after)
distinct_others [] after p d = (d.1, d.0)
distinct_others (b ∷ before) after p d =
    let (others, all) = distinct_others before after p d.1 in
    let (here, rest) = All-drop (λ q. id_in q ≢ id_in b) before after p d.0 in
    ((rest, others), (λ e. here (sym e), all))

pub Has-without :
    (id other : Bytes) (ps : List Payload) → other ≢ id → Has other ps → Has other (without id ps)
Has-without id other [] n h = elim h [ ]
Has-without id other (p ∷ ps) n h = elim (Bool-cases (bytes_eq (id_in p) id)) [
  | inl t ↦ rw t (elim h [
    | inl e ↦ elim (n (sym e ∙ (bytes_eq_iff (id_in p) id).0 t)) [ ]
    | inr later ↦ Has-without id other ps n later
  ])
  | inr t ↦ rw t (elim h [ inl e ↦ inl e | inr later ↦ inr (Has-without id other ps n later) ])
]

-- Leaving out the payload of an id, where no other one has it.
without_middle :
    (before after : List Payload) (p : Payload)
    → All (λ q. id_in q ≢ id_in p) (before ++ after)
    → without (id_in p) (before ++ p ∷ after) ≡ before ++ after
without_middle [] after p h =
    rw ((bytes_eq_iff (id_in p) (id_in p)).1 refl) (without-none (id_in p) after h)
without_middle (b ∷ before) after p h =
    ground (arith, bytes_eq_iff (id_in b) (id_in p), h.0, without_middle before after p h.1)

module _ (wire : Wire) where
  open wire use {serialize}

  -- Marking a record that is not marked takes its payload from those that are not.
  pub live-without :
      (before after : List Payload) (p : Payload)
      → is_marked p ≡ false
      → HasDistinctIds (live (before ++ p ∷ after))
      → live (before ++ marked wire p ∷ after) ≡ without (id_in p) (live (before ++ p ∷ after))
  unfolding bytes_eq
  live-without before after p m d =
      let whole : live (before ++ p ∷ after) ≡ live before ++ p ∷ live after =
        live-append before (p ∷ after) ∙ ap (λ r. live before ++ r) (live-kept p after m) in
      let others =
        (distinct_others (live before) (live after) p (subst HasDistinctIds whole d)).1 in
      live-append before (marked wire p ∷ after)
      ∙ sym (without_middle (live before) (live after) p others)
      ∙ ap (without (id_in p)) (sym whole)

  pub length-image-marked :
      (before after : List Payload) (p : Payload)
      → length (serialize (marked wire p)) ≡ length (serialize p)
      → length (image wire (before ++ marked wire p ∷ after))
        ≡ length (image wire (before ++ p ∷ after))
  length-image-marked [] after p same = omega (
    arith,
    same,
    length-append (record_of wire (marked wire p)) (image wire after),
    length-append (record_of wire p) (image wire after),
  )
  length-image-marked (b ∷ before) after p same = omega (
    arith,
    length-image-marked before after p same,
    length-append (record_of wire b) (image wire (before ++ marked wire p ∷ after)),
    length-append (record_of wire b) (image wire (before ++ p ∷ after)),
  )

  pub length-image-live :
      (ps : List Payload) → length (image wire (live ps)) ≤ length (image wire ps)
  length-image-live [] = omega arith
  length-image-live (p ∷ ps) =
      let rest = length-image-live ps in
      elim (Bool-cases (is_marked p)) [
        | inl m ↦ rw m (omega (arith, rest, length-append (record_of wire p) (image wire ps)))
        | inr m ↦ rw m (
            omega (
              arith,
              rest,
              length-append (record_of wire p) (image wire ps),
              length-append (record_of wire p) (image wire (live ps)),
            ))
      ]
