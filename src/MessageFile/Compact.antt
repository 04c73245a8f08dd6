-- ===== src/MessageFile/Compact.antt =====
-- `gc` of `MessageMapper`, over the contents of the file.
use bitmq.Base.{
  ℕ, ◌+◌, ◌≡◌, ◌≢◌, refl, sym, ap, true, false, List, [], ◌∷◌, ◌++◌, map, append_assoc, append-nil,
  Bytes, bytes_eq_iff, length, length-append, All, arith, subst, bytes_key,
}
use bitmq.Dict.{erase, find-assign}
use bitmq.File.{Fs, is_dir, create_file}
use bitmq.File.Open.{IsOpen, set_file, set_file-other, remove-IsOpen, rename-IsOpen, erase-other}
use bitmq.Message.{Message, Payload, Wire}
use bitmq.MessageFile.{Mapper, copy_all, replace, gc}
use bitmq.MessageFile.Layout.{record_of, image, IsStorable, live, fresh}
use bitmq.MessageFile.Load.{load-live}
use bitmq.MessageFile.Update.{place, appended, insert_into-appended, appended-IsOpen}

-- The temporary file may be made beside the data file.
pub record HasRoom (m : Mapper) (fs : Fs) : Type 0 where
  pub apart : m.tmpfile ≢ m.datafile
  pub may_read : fs.readable m.tmpfile ≡ true
  pub may_write : fs.writable m.tmpfile ≡ true
  pub no_dir : is_dir m.tmpfile fs.dirs ≡ false
  pub no_data_dir : is_dir m.datafile fs.dirs ≡ false

module _ (wire : Wire) where
  open wire use {serialize}

  -- The messages of the records, each with its place, the first one behind `before` bytes.
  abbrev pub placed : ℕ → List Payload → List Message
  placed before [] = []
  placed before (p ∷ ps) =
      place wire before (fresh p) ∷ placed (before + length (record_of wire p)) ps

  -- The two files in the course of the copy.
  record IsCopying (m : Mapper) (data_content tmp_content : Bytes) (fs : Fs) : Type 0 where
    data_open : IsOpen m.datafile data_content fs
    tmp_open : IsOpen m.tmpfile tmp_content fs
    no_data_dir : is_dir m.datafile fs.dirs ≡ false

  create-IsCopying :
      (m : Mapper) (content : Bytes) (fs : Fs)
      → IsOpen m.datafile content fs
      → HasRoom m fs
      → (create_file m.tmpfile fs ≡ (true, set_file m.tmpfile [] fs))
        × IsCopying m content [] (set_file m.tmpfile [] fs)
  unfolding create_file
  create-IsCopying m content fs o r = (
    ground (arith, r.may_write, r.no_dir),
    record {
      data_open = set_file-other m.tmpfile [] r.apart o;
      tmp_open = record {
        found =
            ground (
              arith,
              find-assign m.tmpfile m.tmpfile [] fs.files,
              bytes_eq_iff m.tmpfile m.tmpfile,
            );
        may_read = r.may_read;
        may_write = r.may_write;
      };
      no_data_dir = r.no_data_dir;
    },
  )

  copy-IsCopying :
      (m : Mapper) (content done : Bytes) (p : Payload) (fs : Fs)
      → m.tmpfile ≢ m.datafile
      → IsCopying m content done fs
      → IsCopying m content (done ++ record_of wire p) (appended wire m.tmpfile done p fs)
  copy-IsCopying m content done p fs apart c = record {
    data_open = set_file-other m.tmpfile _ apart (set_file-other m.tmpfile _ apart c.data_open);
    tmp_open = appended-IsOpen wire p c.tmp_open;
    no_data_dir = c.no_data_dir;
  }

  copy_all-image :
      (m : Mapper) (content done : Bytes) (ps : List Payload) (fs : Fs)
      → m.tmpfile ≢ m.datafile
      → IsCopying m content done fs
      → (fs' : Fs) × (copy_all wire m.tmpfile (map fresh ps) fs
          ≡ (true, placed (length done) ps, fs'))
        × IsCopying m content (done ++ image wire ps) fs'
  unfolding copy_all
  copy_all-image m content done [] fs apart c =
      (fs, refl, subst (λ t. IsCopying m content t fs) (sym (append-nil done)) c)
  copy_all-image m content done (p ∷ ps) fs apart c =
      let fs1 = appended wire m.tmpfile done p fs in
      let ih =
        copy_all-image m content (done ++ record_of wire p) ps fs1 apart
          (copy-IsCopying m content done p fs apart c) in
      (
        ih.0,
        rw (insert_into-appended wire (fresh p) c.tmp_open, copy_all)
            (rw (ih.1) (
              ap (λ n. (true, place wire (length done) (fresh p) ∷ placed n ps, ih.0))
                (length-append done (record_of wire p)))),
        subst (λ t. IsCopying m content t ih.0)
            (append_assoc done (record_of wire p) (image wire ps)) ih.2,
      )

  replace-IsOpen :
      (m : Mapper) (content done : Bytes) (fs : Fs)
      → m.tmpfile ≢ m.datafile
      → IsCopying m content done fs
      → IsOpen m.datafile done (replace wire m fs)
  unfolding replace
  replace-IsOpen m content done fs apart c =
      let removed = remove-IsOpen c.data_open in
      let left = erase-other m.datafile apart c.tmp_open in
      let renamed = rename-IsOpen m.datafile left c.data_open.may_write c.no_data_dir in
      rw (removed, replace)
        (rw renamed (record {
          found = ground (
            arith,
            find-assign m.datafile m.datafile done (erase m.tmpfile (erase m.datafile fs.files)),
            bytes_eq_iff m.datafile m.datafile,
          );
          may_read = c.data_open.may_read;
          may_write = c.data_open.may_write;
        }))

  -- On a file of whole records that read back, with room beside it, the collection leaves exactly
  -- the records that are not marked, in their order, and returns their messages with the places
  -- that they have now.
  pub gc-image :
      (m : Mapper) (ps : List Payload) (fs : Fs)
      → IsOpen m.datafile (image wire ps) fs
      → HasRoom m fs
      → All (IsStorable wire) ps
      → (fs' : Fs) × (gc wire m fs ≡ (placed 0 (live ps), fs'))
        × IsOpen m.datafile (image wire (live ps)) fs'
  unfolding gc
  gc-image m ps fs o r s =
      let (made, c) = create-IsCopying m (image wire ps) fs o r in
      let (fs2, copied, c2) =
        copy_all-image m (image wire ps) [] (live ps) (set_file m.tmpfile [] fs) r.apart c in
      (
        replace wire m fs2,
        rw (load-live wire m fs ps o s, gc) (rw made (rw copied)),
        replace-IsOpen m (image wire ps) (image wire (live ps)) fs2 r.apart c2,
      )
