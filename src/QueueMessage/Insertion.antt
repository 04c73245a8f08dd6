-- ===== src/QueueMessage/Insertion.antt =====
-- The containers and the file of a queue when a message is added by `insert` of `QueueMessage`.
use bitmq.Base.{
  ℕ, ◌+◌, ◌^◌, ◌<◌, ◌≡◌, ◌≢◌, ◌⊎◌, refl, sym, ap, ◌∙◌, false, none, some, List, [], ◌∷◌, ◌++◌,
  Bytes, bytes_eq, bytes_eq_iff, bytes_key, length, length-append, All, All-append, arith,
  Bool-cases, inl, inr, subst,
}
use bitmq.Dict.{find, find-emplace}
use bitmq.Message.{Message, Payload, Wire, new_message}
use bitmq.QueueMessage.{QueueMessage, id_of, adopt}
use bitmq.File.{Fs}
use bitmq.MessageFile.Layout.{image, live, IsStorable, record_of}
use bitmq.MessageFile.Update.{appended, place, appended-IsOpen}
use bitmq.MessageFile.Compact.{HasRoom}
use bitmq.QueueMessage.Placed.{
  id_in, Has, HasDistinctIds, Placed, Placed-managed, Placed-append, Placed-same, IsMarkable,
  is_marked, live-kept, exact,
}
use bitmq.QueueMessage.View.{managed, IsKeyed}
use bitmq.QueueMessage.Queued.{All-map, lasts}
use bitmq.File.Open.{IsOpen}
use bitmq.QueueMessage.Durable.{live-append, image-last}
use bitmq.QueueMessage.View.{adopt-managed}
use bitmq.QueueMessage.Settle.{exact-moved}
use bitmq.QueueMessage.Tied.{IsTied, counted, counted-IsSorted}
use bitmq.QueueMessage.Grow.{IsUnused, grown, adopted-IsSorted, light-IsSorted, light-managed}

module _ (wire : Wire) where
  open wire use {serialize}

  Has-last :
      (id : Bytes) (ps : List Payload) (p : Payload)
      → Has id ps ⊎ (id_in p ≡ id)
      → Has id (ps ++ p ∷ [])
  Has-last id [] p (inl h) = elim h [ ]
  Has-last id [] p (inr e) = inl e
  Has-last id (x ∷ ps) p (inl (inl e)) = inl e
  Has-last id (x ∷ ps) p (inl (inr h)) = inr (Has-last id ps p (inl h))
  Has-last id (x ∷ ps) p (inr e) = inr (Has-last id ps p (inr e))

  distinct_last :
      (ps : List Payload) (p : Payload)
      → HasDistinctIds ps
      → All (λ x. id_in x ≢ id_in p) ps
      → HasDistinctIds (ps ++ p ∷ [])
  distinct_last [] p d n = (tt, tt)
  distinct_last (x ∷ ps) p d n = (
    All-append (λ y. id_in y ≢ id_in x) ps (p ∷ []) d.0 (λ e. n.0 (sym e), tt),
    distinct_last ps p d.1 n.1,
  )

  -- The payload that is stored is not under the id of another record that is not marked.
  unused_records :
      (q : QueueMessage) (ps : List Payload) (id : Bytes)
      → Placed wire (managed q) 0 ps
      → find id q.durable_msgs ≡ none
      → All (λ p. id_in p ≢ id) (live ps)
  unused_records q ps id h n =
      All-map _ _ (live ps) (λ p m e. ground (arith, m.1, ap (managed q) e, n))
        (Placed-managed wire (managed q) 0 ps h)

  -- The file system differs in the contents of files alone.
  room_after :
      (q : QueueMessage) (p : Payload) (content : Bytes) (fs : Fs)
      → HasRoom q.mapper fs
      → HasRoom q.mapper (appended wire q.mapper.datafile content p fs)
  room_after q p content fs r = record {
    apart = r.apart;
    may_read = r.may_read;
    may_write = r.may_write;
    no_dir = r.no_dir;
    no_data_dir = r.no_data_dir;
  }

  -- A durable message and its record at the end of the file.
  abbrev pub stored_at : ℕ → Payload → Message
  stored_at before p = place wire before (record new_message { payload = p })

  adopted-managed :
      (p : Payload) (before : ℕ) (q : QueueMessage)
      → IsKeyed q
      → find (id_in p) q.durable_msgs ≡ none
      → before + length (record_of wire p) < 2 ^ 32
      → managed (adopt (stored_at before p) q) (id_in p) ≡ some (exact wire before p)
  adopted-managed p before q k n l =
      adopt-managed (stored_at before p) q (id_in p) k n
      ∙ rw ((bytes_eq_iff (id_in p) (id_in p)).1 refl) (
          exact-moved wire before p (stored_at before p) refl (omega (arith, l)) (omega (arith, l)))

  appended-Placed :
      (p : Payload) (ps : List Payload) (q : QueueMessage) (fs : Fs)
      → IsTied wire q ps fs
      → find (id_in p) q.durable_msgs ≡ none
      → IsMarkable wire p
      → is_marked p ≡ false
      → length (image wire ps) + length (record_of wire p) < 2 ^ 32
      → Placed wire (managed (adopt (stored_at (length (image wire ps)) p) q)) 0 (ps ++ p ∷ [])
  appended-Placed p ps q fs t n k m l =
      let msg = stored_at (length (image wire ps)) p in
      Placed-append wire (managed (adopt msg q)) 0 ps p
        (Placed-same wire (managed q) (managed (adopt msg q)) 0 ps
          (All-map _ _ (live ps)
            (λ x other.
              adopt-managed msg q (id_in x) t.sorted.keyed n
              ∙ ground (arith, other, bytes_eq_iff (id_in p) (id_in x)))
            (unused_records q ps (id_in p) t.placed n))
          t.placed)
        (inr (
          adopted-managed p (length (image wire ps)) q t.sorted.keyed n l
              ∙ ap (λ b. some (exact wire b p)) (omega arith),
          k,
          m,
        ))

  -- What an insertion needs of its payload.
  pub record IsFit (p : Payload) (q : QueueMessage) (ps : List Payload) : Type 0 where
    pub unused : IsUnused (id_in p) q
    pub storable : IsStorable wire p
    pub markable : IsMarkable wire p
    pub unmarked : is_marked p ≡ false
    pub fits : length (image wire ps) + length (record_of wire p) < 2 ^ 32

  pub appended-IsTied :
      (p : Payload) (ps : List Payload) (q : QueueMessage) (fs : Fs) (valid total : ℕ)
      → IsTied wire q ps fs
      → IsFit p q ps
      → IsTied wire
          (counted valid total (adopt (stored_at (length (image wire ps)) p) q))
          (ps ++ p ∷ [])
          (appended wire q.mapper.datafile (image wire ps) p fs)
  unfolding adopt
  appended-IsTied p ps q fs valid total t f =
      let msg = stored_at (length (image wire ps)) p in
      let grows : live (ps ++ p ∷ []) ≡ live ps ++ p ∷ [] =
        live-append ps (p ∷ []) ∙ ap (λ r. live ps ++ r) (live-kept p [] f.unmarked) in
      record {
        sorted =
            counted-IsSorted valid total (adopt msg q) (adopted-IsSorted msg q t.sorted f.unused);
        file =
            subst
              (λ c.
                IsOpen q.mapper.datafile c (appended wire q.mapper.datafile (image wire ps) p fs))
              (image-last wire ps p) (appended-IsOpen wire p t.file);
        room = room_after q p (image wire ps) fs t.room;
        storable = All-append (IsStorable wire) ps (p ∷ []) t.storable (f.storable, tt);
        placed = appended-Placed p ps q fs t f.unused.not_managed f.markable f.unmarked f.fits;
        distinct = subst HasDistinctIds (sym grows) (
            distinct_last (live ps) p t.distinct
              (unused_records q ps (id_in p) t.placed f.unused.not_managed));
        small =
            subst (λ c. length c < 2 ^ 32) (image-last wire ps p)
              (omega (arith, f.fits, length-append (image wire ps) (record_of wire p)));
        recorded = λ id x e. subst (Has id) (sym grows) (
            Has-last id (live ps) p (elim (Bool-cases (bytes_eq (id_in p) id)) [
              | inl b ↦ inr ((bytes_eq_iff (id_in p) id).0 b)
              | inr b ↦ inl (
                  t.recorded id x
                    (ground (arith, find-emplace (id_in p) id q.next q.durable_msgs, e, b)))
            ]));
      }

  -- A message that is not durable leaves the file.
  pub light-IsTied :
      (msg : Message) (ps : List Payload) (q : QueueMessage) (fs : Fs)
      → IsTied wire q ps fs
      → IsUnused (id_of msg) q
      → lasts msg.payload ≡ false
      → IsTied wire (grown msg q.durable_msgs q) ps fs
  light-IsTied msg ps q fs t u l = record {
    sorted = light-IsSorted msg q t.sorted u l;
    file = t.file;
    room = t.room;
    storable = t.storable;
    placed =
        Placed-same wire (managed q) (managed (grown msg q.durable_msgs q)) 0 ps
          (All-map _ _ (live ps) (λ x m. light-managed msg q (id_in x) t.sorted.keyed)
            (Placed-managed wire (managed q) 0 ps t.placed))
          t.placed;
    distinct = t.distinct;
    small = t.small;
    recorded = t.recorded;
  }
