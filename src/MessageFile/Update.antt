-- ===== src/MessageFile/Update.antt =====
-- Appending a record, and marking one in its place.
use bitmq.Base.{
  ℕ, ◌+◌, ◌^◌, ◌<◌, ◌≡◌, ◌↔◌, sym, ap, ap₂, ◌∙◌, true, List, [], ◌∷◌, ◌++◌, append_assoc,
  append-nil, Bytes, codes, nat_eq_iff, length, length-append, arith, subst,
}
use bitmq.File.{Fs, size, write, write_content}
use bitmq.File.Content.{write_content_end, write_content_middle}
use bitmq.File.Open.{IsOpen, set_file, set_file-IsOpen, write-IsOpen, size-IsOpen}
use bitmq.Message.{Message, Payload, Wire, uint32, size_bytes, set_valid}
use bitmq.MessageFile.{Mapper, insert_into, insert, remove}
use bitmq.MessageFile.Layout.{record_of, image, image-append}

module _ (wire : Wire) where
  open wire use {serialize}

  -- A message with the place that it takes behind `before` bytes.
  abbrev pub place : ℕ → Message → Message
  place before msg = record msg {
    offset = uint32 (before + 8);
    length = uint32 (length (serialize msg.payload));
  }

  -- The file system after the two writes of an insertion.
  abbrev pub appended : Bytes → Bytes → Payload → Fs → Fs
  appended path content p fs =
      set_file path ((content ++ size_bytes (length (serialize p))) ++ serialize p)
        (set_file path (content ++ size_bytes (length (serialize p))) fs)

  pub insert_into-appended :
      {path content : Bytes} {fs : Fs} (msg : Message)
      → IsOpen path content fs
      → insert_into wire path msg fs
        ≡ (true, place (length content) msg, appended path content msg.payload fs)
  unfolding insert_into
  insert_into-appended {path} {content} {fs} msg o =
      let header = size_bytes (length (serialize msg.payload)) in
      let body = serialize msg.payload in
      let first : write path header (length content) fs
          ≡ (true, set_file path (content ++ header) fs) =
        write-IsOpen o header (length content)
        ∙ ap (λ c. (true, set_file path c fs)) (write_content_end content header) in
      let o1 = set_file-IsOpen (content ++ header) o in
      let e : length content + 8 ≡ length (content ++ header) =
        omega (arith, length-append content header) in
      let second : write path body (length content + 8) (set_file path (content ++ header) fs)
          ≡ (true, appended path content msg.payload fs) =
        ap (λ n. write path body n (set_file path (content ++ header) fs)) e
        ∙ write-IsOpen o1 body (length (content ++ header))
        ∙ ap (λ c. (true, set_file path c (set_file path (content ++ header) fs)))
            (write_content_end (content ++ header) body) in
      rw (size-IsOpen o, insert_into) (rw first (rw second))

  pub appended-IsOpen :
      {path content : Bytes} {fs : Fs} (p : Payload)
      → IsOpen path content fs
      → IsOpen path (content ++ record_of wire p) (appended path content p fs)
  appended-IsOpen {path} {content} {fs} p o =
      let header = size_bytes (length (serialize p)) in
      subst (λ c. IsOpen path c (appended path content p fs))
        (append_assoc content header (serialize p))
        (set_file-IsOpen ((content ++ header) ++ serialize p)
          (set_file-IsOpen (content ++ header) o))

  -- Inserting a message into a file of whole records succeeds; it adds one record at the end, and
  -- the message holds that record's place and size, each modulo 2 ^ 32.
  pub insert-image :
      (m : Mapper) (msg : Message) (ps : List Payload) (fs : Fs)
      → IsOpen m.datafile (image wire ps) fs
      → (fs' : Fs) × (insert wire m msg fs ≡ (true, place (length (image wire ps)) msg, fs'))
        × IsOpen m.datafile (image wire (ps ++ msg.payload ∷ [])) fs'
  unfolding insert
  insert-image m msg ps fs o = (
    appended m.datafile (image wire ps) msg.payload fs,
    insert_into-appended msg o,
    subst (λ c. IsOpen m.datafile c (appended m.datafile (image wire ps) msg.payload fs))
        (ap (λ r. image wire ps ++ r) (sym (append-nil (record_of wire msg.payload)))
          ∙ sym (image-append wire ps (msg.payload ∷ [])))
        (appended-IsOpen msg.payload o),
  )

  -- Inserting a message into a file of whole records: the place that the message then holds fits its
  -- 32 bits, and it is the place of the new record's payload exactly where that is below 4 GiB; its size
  -- is the payload's exactly where that is below 4 GiB.
  pub insert-offset :
      (m : Mapper) (msg : Message) (ps : List Payload) (fs : Fs)
      → IsOpen m.datafile (image wire ps) fs
      → let placed = (insert wire m msg fs).1 in
        (placed.offset < 2 ^ 32)
        × (placed.length < 2 ^ 32)
        × ((placed.offset ≡ length (image wire ps) + 8) ↔ (length (image wire ps) + 8 < 2 ^ 32))
        × ((placed.length ≡ length (serialize msg.payload))
            ↔ (length (serialize msg.payload) < 2 ^ 32))
  insert-offset m msg ps fs o =
      let (fs', e, o') = insert-image m msg ps fs o in
      rw e (
        omega arith,
        omega arith,
        (λ h. omega (arith, h), λ h. omega (arith, h)),
        (λ h. omega (arith, h), λ h. omega (arith, h)),
      )

  abbrev pub marked : Payload → Payload
  marked = set_valid (codes "0")

  pub remove-write :
      {content : Bytes} {fs : Fs} (m : Mapper) (msg : Message)
      → IsOpen m.datafile content fs
      → length (serialize (marked msg.payload)) ≡ msg.length
      → remove wire m msg fs ≡ (
        true,
        record msg { payload = marked msg.payload },
        set_file m.datafile (write_content content msg.offset (serialize (marked msg.payload))) fs,
      )
  unfolding remove
  remove-write m msg o e =
      rw (e, remove)
        (ground (
          arith,
          write-IsOpen o (serialize (marked msg.payload)) msg.offset,
          nat_eq_iff msg.length msg.length,
        ))

  -- The payload of one record between what stands before its bytes and behind them.
  image_split :
      (before after : List Payload) (p : Payload)
      → image wire (before ++ p ∷ after)
        ≡ (image wire before ++ size_bytes (length (serialize p)))
          ++ (serialize p ++ image wire after)
  image_split before after p =
      let header = size_bytes (length (serialize p)) in
      image-append wire before (p ∷ after)
      ∙ ap (λ r. image wire before ++ r) (append_assoc header (serialize p) (image wire after))
      ∙ sym (append_assoc (image wire before) header (serialize p ++ image wire after))

  -- Writing other bytes of the same number over them.
  image_rewrite :
      (before after : List Payload) (p q : Payload)
      → length (serialize q) ≡ length (serialize p)
      → write_content
          (image wire (before ++ p ∷ after))
          (length (image wire before) + 8)
          (serialize q)
        ≡ image wire (before ++ q ∷ after)
  image_rewrite before after p q same =
      let header = size_bytes (length (serialize p)) in
      let e : length (image wire before) + 8 ≡ length (image wire before ++ header) =
        omega (arith, length-append (image wire before) header) in
      ap₂ (λ c n. write_content c n (serialize q)) (image_split before after p) e
      ∙ write_content_middle (image wire before ++ header) (serialize p) (serialize q)
          (image wire after) same
      ∙ ap (λ n. (image wire before ++ size_bytes n) ++ (serialize q ++ image wire after))
          (sym same)
      ∙ sym (image_split before after q)

  -- Where the message's place and size are those of its record, and marking keeps the size of the
  -- payload's bytes, removing it succeeds: that record is marked, and no other one changes.
  pub remove-image :
      (m : Mapper) (msg : Message) (before after : List Payload) (fs : Fs)
      → IsOpen m.datafile (image wire (before ++ msg.payload ∷ after)) fs
      → msg.offset ≡ length (image wire before) + 8
      → msg.length ≡ length (serialize msg.payload)
      → length (serialize (marked msg.payload)) ≡ length (serialize msg.payload)
      → (fs' : Fs) × (remove wire m msg fs
          ≡ (true, record msg { payload = marked msg.payload }, fs'))
        × IsOpen m.datafile (image wire (before ++ marked msg.payload ∷ after)) fs'
  remove-image m msg before after fs o place size same =
      let p' = marked msg.payload in
      let content = image wire (before ++ msg.payload ∷ after) in
      (
        set_file m.datafile (write_content content msg.offset (serialize p')) fs,
        remove-write m msg o (same ∙ sym size),
        subst
            (λ c.
              IsOpen m.datafile c
                (set_file m.datafile (write_content content msg.offset (serialize p')) fs))
            (ap (λ n. write_content content n (serialize p')) place
              ∙ image_rewrite before after msg.payload p' same)
            (set_file-IsOpen (write_content content msg.offset (serialize p')) o),
      )
