-- ===== src/MessageFile/Load.antt =====
-- `load` of `MessageMapper`, over the contents of the file.
use bitmq.Base.{
  ℕ, zero, suc, ◌+◌, ◌<◌, ◌≡◌, sym, ap, ◌∙◌, true, some, List, [], ◌∷◌, ◌++◌, map, append_assoc,
  append-nil, Bytes, codes, bytes_eq, ltb, length, length-append, All, arith, Bool-cases, inl, inr,
}
use bitmq.File.{Fs, read, read_content}
use bitmq.File.Content.{read_content_middle}
use bitmq.File.Open.{IsOpen, read-IsOpen, size-IsOpen}
use bitmq.Message.{Message, Payload, Wire, size_bytes, read_size}
use bitmq.MessageFile.{Mapper, load_loop, load, keep}
use bitmq.MessageFile.Layout.{record_of, image, IsStorable, live, fresh, read-size_bytes}

module _ (wire : Wire) where
  open wire use {serialize, parse}

  read_header :
      (pre : Bytes) (p : Payload) (post : Bytes)
      → read_content (pre ++ (record_of wire p ++ post)) (length pre) 8
        ≡ some (size_bytes (length (serialize p)))
  read_header pre p post =
      ap (λ r. read_content (pre ++ r) (length pre) 8)
        (append_assoc (size_bytes (length (serialize p))) (serialize p) post)
      ∙ read_content_middle pre (size_bytes (length (serialize p))) (serialize p ++ post)

  read_body :
      (pre : Bytes) (p : Payload) (post : Bytes)
      → read_content (pre ++ (record_of wire p ++ post)) (length pre + 8) (length (serialize p))
        ≡ some (serialize p)
  read_body pre p post =
      let header = size_bytes (length (serialize p)) in
      let e : length (pre ++ header) ≡ length pre + 8 = length-append pre header in
      ap (λ n. read_content (pre ++ (record_of wire p ++ post)) n (length (serialize p))) (sym e)
      ∙ ap (λ r. read_content r (length (pre ++ header)) (length (serialize p)))
          (ap (λ r. pre ++ r) (append_assoc header (serialize p) post)
            ∙ sym (append_assoc pre header (serialize p ++ post)))
      ∙ read_content_middle (pre ++ header) (serialize p) post

  -- One round of the loop, where both reads succeed.
  load_step :
      (f : ℕ) (path : Bytes) (fsize offset : ℕ) (result : List Message) (fs : Fs)
      (header body : Bytes)
      → ltb offset fsize ≡ true
      → read path offset 8 fs ≡ some header
      → read path (offset + 8) (read_size header) fs ≡ some body
      → load_loop wire (suc f) path fsize offset result fs
        ≡ load_loop wire f path fsize
            (offset + 8 + read_size header)
            (keep wire (parse body) result)
            fs
  unfolding load_loop
  load_step f path fsize offset result fs header body within h b =
      rw (within, load_loop) (rw h (rw b))

  load_end :
      (f : ℕ) (path content : Bytes) (result : List Message) (fs : Fs)
      → load_loop wire (suc f) path (length content) (length content) result fs ≡ (true, result)
  unfolding load_loop
  load_end f path content result fs = ground arith

  keep-live :
      (p : Payload) (ps : List Payload) (result : List Message)
      → keep wire p result ++ map fresh (live ps) ≡ result ++ map fresh (live (p ∷ ps))
  keep-live p ps result = elim (Bool-cases (bytes_eq p.valid (codes "0"))) [
    | inl e ↦ rw e
    | inr e ↦ rw e (append_assoc result (fresh p ∷ []) (map fresh (live ps)))
  ]

  module _ {path : Bytes} {fs : Fs} where
    -- One round at the beginning of a record.
    load_round :
        (f : ℕ) (pre : Bytes) (p : Payload) (post : Bytes) (result : List Message)
        → IsOpen path (pre ++ (record_of wire p ++ post)) fs
        → IsStorable wire p
        → let fsize = length (pre ++ (record_of wire p ++ post)) in
          load_loop wire (suc f) path fsize (length pre) result fs
          ≡ load_loop wire f path fsize (length (pre ++ record_of wire p)) (keep wire p result) fs
    load_round f pre p post result o s =
        let fsize = length (pre ++ (record_of wire p ++ post)) in
        let n = length (serialize p) in
        let sized : read_size (size_bytes n) ≡ n = read-size_bytes n s.fits in
        let next : length pre + 8 + n ≡ length (pre ++ record_of wire p) =
          omega (arith, length-append pre (record_of wire p)) in
        load_step f path fsize (length pre) result fs (size_bytes n) (serialize p)
          (ground (arith, length-append pre (record_of wire p ++ post)))
          (read-IsOpen o (length pre) 8 ∙ read_header pre p post)
          (ap (λ k. read path (length pre + 8) k fs) sized
            ∙ read-IsOpen o (length pre + 8) n
            ∙ read_body pre p post)
        ∙ ap (λ k. load_loop wire f path fsize k (keep wire (parse (serialize p)) result) fs)
            (ap (λ k. length pre + 8 + k) sized ∙ next)
        ∙ ap
            (λ q.
              load_loop wire f path fsize (length (pre ++ record_of wire p)) (keep wire q result)
                fs)
            s.reads_back

    load_loop-live :
        (f : ℕ) (pre : Bytes) (ps : List Payload) (result : List Message)
        → length (image wire ps) < f
        → IsOpen path (pre ++ image wire ps) fs
        → All (IsStorable wire) ps
        → load_loop wire f path (length (pre ++ image wire ps)) (length pre) result fs
          ≡ (true, result ++ map fresh (live ps))
    load_loop-live zero pre ps result h o s = absurd (omega arith)
    load_loop-live (suc f) pre [] result h o s =
        rw (append-nil pre, append-nil result) (load_end f path pre result fs)
    load_loop-live (suc f) pre (p ∷ ps) result h o s =
        let e = append_assoc pre (record_of wire p) (image wire ps) in
        load_round f pre p (image wire ps) result o s.0
        ∙ ap
            (λ c.
              load_loop wire f path (length c) (length (pre ++ record_of wire p))
                (keep wire p result) fs)
            (sym e)
        ∙ load_loop-live f (pre ++ record_of wire p) ps (keep wire p result)
            (omega (arith, length-append (record_of wire p) (image wire ps))) (rw e o) s.1
        ∙ ap (λ r. (true, r)) (keep-live p ps result)

  -- `load` succeeds on a file of whole records that read back, with exactly the payloads that are
  -- not marked, in their order.
  pub load-live :
      (m : Mapper) (fs : Fs) (ps : List Payload)
      → IsOpen m.datafile (image wire ps) fs
      → All (IsStorable wire) ps
      → load wire m fs ≡ (true, map fresh (live ps))
  unfolding load
  load-live m fs ps o s =
      ap (λ n. load_loop wire (suc n) m.datafile n 0 [] fs) (size-IsOpen o)
      ∙ load_loop-live (suc (length (image wire ps))) [] ps [] (omega arith) o s
