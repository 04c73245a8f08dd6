-- ===== src/MessageFile/Rights.antt =====
-- The directories and the permissions under the operations of `MessageMapper`.
use bitmq.Base.{◌+◌, length, ◌≡◌, refl, ◌∙◌, ℕ, List, [], ◌∷◌, Bytes, Bool-cases, inl, inr, arith}
use bitmq.File
use bitmq.File.{Fs, create_file, write, write_open, rename, remove_file, exists}
use bitmq.Message.{Message, Wire, size_bytes}
use bitmq.MessageFile.{Mapper, load, insert_into, copy_all, replace, remove, gc}
use bitmq.MessageFile.Update.{marked}
use bitmq.MessageFile.Compact.{HasRoom}

pub record SameRights (fs fs' : Fs) : Type 0 where
  pub same_readable : fs'.readable ≡ fs.readable
  pub same_writable : fs'.writable ≡ fs.writable
  pub same_dirs : fs'.dirs ≡ fs.dirs

same_rights : (fs : Fs) → SameRights fs fs
same_rights fs = record { same_readable = refl; same_writable = refl; same_dirs = refl }

SameRights-trans : (a b c : Fs) → SameRights a b → SameRights b c → SameRights a c
SameRights-trans a b c s t = record {
  same_readable = t.same_readable ∙ s.same_readable;
  same_writable = t.same_writable ∙ s.same_writable;
  same_dirs = t.same_dirs ∙ s.same_dirs;
}

create_file-SameRights : (path : Bytes) (fs : Fs) → SameRights fs (create_file path fs).1
unfolding create_file
create_file-SameRights path fs = ground arith

rename-SameRights : (path nname : Bytes) (fs : Fs) → SameRights fs (rename path nname fs).1
unfolding rename
rename-SameRights path nname fs = ground arith

remove_file-SameRights : (path : Bytes) (fs : Fs) → SameRights fs (remove_file path fs).1
unfolding remove_file
remove_file-SameRights path fs = ground arith

write-SameRights :
    (path body : Bytes) (offset : ℕ) (fs : Fs) → SameRights fs (write path body offset fs).1
unfolding write write_open create_file
write-SameRights path body offset fs = ground arith

module _ (wire : Wire) where
  insert_into-SameRights :
      (path : Bytes) (msg : Message) (fs : Fs) → SameRights fs (insert_into wire path msg fs).2
  unfolding insert_into
  insert_into-SameRights path msg fs =
      let header = size_bytes (length (wire.serialize msg.payload)) in
      let w1 = write path header (File.size path fs) fs in
      let w2 = write path (wire.serialize msg.payload) (File.size path fs + 8) w1.1 in
      let s1 = write-SameRights path header (File.size path fs) fs in
      let s2 = write-SameRights path (wire.serialize msg.payload) (File.size path fs + 8) w1.1 in
      elim (Bool-cases w1.0) [
        | inl t ↦
            rw (t, insert_into)
              (elim (Bool-cases w2.0) [
                | inl u ↦ rw u (SameRights-trans fs w1.1 w2.1 s1 s2)
                | inr u ↦ rw u (SameRights-trans fs w1.1 w2.1 s1 s2)
              ])
        | inr t ↦ rw (t, insert_into) s1
      ]

  copy_all-SameRights :
      (path : Bytes) (msgs : List Message) (fs : Fs) → SameRights fs (copy_all wire path msgs fs).2
  unfolding copy_all
  copy_all-SameRights path [] fs = same_rights fs
  copy_all-SameRights path (msg ∷ msgs) fs =
      let here = insert_into-SameRights path msg fs in
      let fs1 = (insert_into wire path msg fs).2 in
      elim (Bool-cases (insert_into wire path msg fs).0) [
        | inl t ↦ rw t (SameRights-trans fs fs1 _ here (copy_all-SameRights path msgs fs1))
        | inr t ↦ rw t here
      ]

  pub remove-SameRights :
      (m : Mapper) (msg : Message) (fs : Fs) → SameRights fs (remove wire m msg fs).2
  unfolding remove
  remove-SameRights m msg fs =
      let body = wire.serialize (marked wire msg.payload) in
      let s = write-SameRights m.datafile body msg.offset fs in
      ground (arith, s.same_readable, s.same_writable, s.same_dirs)

  replace-SameRights : (m : Mapper) (fs : Fs) → SameRights fs (replace wire m fs)
  unfolding replace
  replace-SameRights m fs =
      let fs1 = (remove_file m.datafile fs).1 in
      let s = remove_file-SameRights m.datafile fs in
      elim (Bool-cases (remove_file m.datafile fs).0) [
        | inl t ↦
            rw (t, replace)
              (SameRights-trans fs fs1 _ s (rename-SameRights m.tmpfile m.datafile fs1))
        | inr t ↦ rw (t, replace) s
      ]

  pub gc-SameRights : (m : Mapper) (fs : Fs) → SameRights fs (gc wire m fs).1
  unfolding gc replace
  gc-SameRights m fs =
      let (loaded, result) = load wire m fs in
      let fs1 = (create_file m.tmpfile fs).1 in
      let fs2 = (copy_all wire m.tmpfile result fs1).2 in
      let s =
        SameRights-trans fs fs1 fs2 (create_file-SameRights m.tmpfile fs)
          (copy_all-SameRights m.tmpfile result fs1) in
      elim (Bool-cases loaded) [
        | inl l ↦
            rw (l, gc)
              (elim (Bool-cases (copy_all wire m.tmpfile result fs1).0) [
                | inl c ↦ rw c (SameRights-trans fs fs2 _ s (replace-SameRights m fs2))
                | inr c ↦ rw c s
              ])
        | inr l ↦ rw (l, gc) (same_rights fs)
      ]

pub SameRights-HasRoom :
    (m : Mapper) (fs fs' : Fs) → SameRights fs fs' → HasRoom m fs → HasRoom m fs'
SameRights-HasRoom m fs fs' s r = ground (arith, r.apart)
