-- ===== src/MessageFile/Layout.antt =====
-- The contents of a queue's file: one record for each payload.
use bitmq.Base.{
  ℕ, ◌+◌, ◌<◌, ◌^◌, ◌≡◌, refl, sym, ap, ◌∙◌, List, [], ◌∷◌, ◌++◌, append_assoc, Bytes, codes,
  bytes_eq, if◌then◌else◌, length, arith,
}
use bitmq.Message.{Message, Payload, Wire, new_message, size_bytes, read_size}

pub read-size_bytes : (n : ℕ) → n < 2 ^ 64 → read_size (size_bytes n) ≡ n
read-size_bytes n h = omega arith

module _ (wire : Wire) where
  open wire use {serialize, parse}

  abbrev pub record_of : Payload → Bytes
  record_of p = size_bytes (length (serialize p)) ++ serialize p

  abbrev pub image : List Payload → Bytes
  image [] = []
  image (p ∷ ps) = record_of p ++ image ps

  pub image-append : (ps qs : List Payload) → image (ps ++ qs) ≡ image ps ++ image qs
  image-append [] qs = refl
  image-append (p ∷ ps) qs =
      ap (λ r. record_of p ++ r) (image-append ps qs)
      ∙ sym (append_assoc (record_of p) (image ps) (image qs))

  pub length-record_of : (p : Payload) → length (record_of p) ≡ 8 + length (serialize p)
  length-record_of p = omega arith

  -- The payload is read back from its bytes, and its size fits a `size_t`.
  pub record IsStorable (p : Payload) : Type 0 where
    pub reads_back : parse (serialize p) ≡ p
    pub fits : length (serialize p) < 2 ^ 64

-- The payloads that are not marked.
abbrev pub live : List Payload → List Payload
live [] = []
live (p ∷ ps) = if bytes_eq p.valid (codes "0") then live ps else p ∷ live ps

abbrev pub fresh : Payload → Message
fresh p = record new_message { payload = p }
