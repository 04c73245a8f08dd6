-- ===== src/MessageFile.antt =====
-- `MessageMapper` of mqserver/mq_message.hpp: the file of one queue, a sequence of records, each
-- eight bytes of length and then the payload.
pub mod Layout
pub mod Load
pub mod Update
pub mod Compact
pub mod Rights
use bitmq.Base.{
  ℕ, zero, suc, ◌+◌, Bool, true, false, not, Option, none, some, List, [], ◌∷◌, ◌++◌, Bytes, codes,
  bytes_eq, nat_eq, ltb, if◌then◌else◌, length,
}
use bitmq.File
use bitmq.File.{Fs, ends_in_slash}
use bitmq.Message.{Message, Payload, Wire, new_message, uint32, set_valid, size_bytes, read_size}

pub record Mapper : Type 0 where
  pub qname : Bytes
  pub datafile : Bytes
  pub tmpfile : Bytes

-- `basedir` is a reference: the slash stays on it.
abbrev pub with_slash : Bytes → Bytes
with_slash basedir = if ends_in_slash basedir then basedir else basedir ++ codes "/"

unfoldable pub mapper_at : Bytes → Bytes → Mapper
mapper_at basedir qname = record {
  qname = qname;
  datafile = (with_slash basedir ++ qname) ++ codes ".mqd";
  tmpfile = (with_slash basedir ++ qname) ++ codes ".mqd.tmp";
}

unfoldable pub create_msg_file : Mapper → Fs → Bool × Fs
create_msg_file m fs =
    if File.exists m.datafile fs
    then (true, fs)
    else (let (ret, fs') = File.create_file m.datafile fs in
        if ret then (true, fs') else (false, fs'))

-- The constructor. `none` is the failed assertion that the directory can be made.
unfoldable pub open_mapper : Bytes → Bytes → Fs → Option (Mapper × Fs)
unfolding mapper_at create_msg_file
open_mapper basedir qname fs =
    let m = mapper_at basedir qname in
    let (made, fs1) = File.create_directory (with_slash basedir) fs in
    if File.exists (with_slash basedir) fs
    then some (m, (create_msg_file m fs).1)
    else (if made then some (m, (create_msg_file m fs1).1) else none)

unfoldable pub remove_msg_file : Mapper → Fs → Fs
remove_msg_file m fs = (File.remove_file m.tmpfile (File.remove_file m.datafile fs).1).1

module _ (wire : Wire) where
  open wire use {serialize, parse}

  -- `insert(filename, msg)`: the result, the message with its place, the file system.
  unfoldable pub insert_into : Bytes → Message → Fs → Bool × Message × Fs
  insert_into filename msg fs =
      let body = serialize msg.payload in
      let fsize = File.size filename fs in
      let msg_size = length body in
      let (ret1, fs1) = File.write filename (size_bytes msg_size) fsize fs in
      let (ret2, fs2) = File.write filename body (fsize + 8) fs1 in
      if ret1
      then (if ret2
          then (
            true,
            record msg { offset = uint32 (fsize + 8); length = uint32 (length body) },
            fs2,
          )
          else (false, msg, fs2))
      else (false, msg, fs1)

  unfoldable pub insert : Mapper → Message → Fs → Bool × Message × Fs
  unfolding insert_into
  insert m msg fs = insert_into m.datafile msg fs

  -- The message is marked, also where the file is not.
  unfoldable pub remove : Mapper → Message → Fs → Bool × Message × Fs
  remove m msg fs =
      let marked = record msg { payload = set_valid (codes "0") msg.payload } in
      let body = serialize marked.payload in
      if not (nat_eq (length body) msg.length)
      then (false, marked, fs)
      else (let (ret, fs') = File.write m.datafile body msg.offset fs in
          if ret then (true, marked, fs') else (false, marked, fs'))

  -- One round of `load`: the next message, if it is valid, and the offset behind it.
  abbrev pub keep : Payload → List Message → List Message
  keep p result =
      if bytes_eq p.valid (codes "0")
      then result
      else result ++ record new_message { payload = p } ∷ []

  -- The loop; a round moves the offset on by eight at least, so the size is fuel enough.
  unfoldable pub load_loop : ℕ → Bytes → ℕ → ℕ → List Message → Fs → Bool × List Message
  load_loop zero datafile fsize offset result fs = (true, result)
  load_loop (suc f) datafile fsize offset result fs =
      let next : Bool × List Message = elim (File.read datafile offset 8 fs) [
        | none ↦ (false, result)
        | some header ↦ elim (File.read datafile (offset + 8) (read_size header) fs) [
          | none ↦ (false, result)
          | some msg_body ↦
              load_loop f datafile fsize (offset + 8 + read_size header)
                (keep (parse msg_body) result) fs
        ]
      ] in
      if ltb offset fsize then next else (true, result)

  unfoldable pub load : Mapper → Fs → Bool × List Message
  unfolding load_loop
  load m fs = let fsize = File.size m.datafile fs in load_loop (suc fsize) m.datafile fsize 0 [] fs

  -- The loop of `gc`: the messages go to the other file until one cannot be written.
  unfoldable pub copy_all : Bytes → List Message → Fs → Bool × List Message × Fs
  copy_all tmpfile [] fs = (true, [], fs)
  copy_all tmpfile (msg ∷ result) fs =
      let (ret, msg', fs1) = insert_into tmpfile msg fs in
      let rest = copy_all tmpfile result fs1 in
      if ret then (rest.0, msg' ∷ rest.1, rest.2) else (false, msg' ∷ result, fs1)

  replace : Mapper → Fs → Fs
  replace m fs =
      let (removed, fs1) = File.remove_file m.datafile fs in
      let (renamed, fs2) = File.rename m.tmpfile m.datafile fs1 in if removed then fs2 else fs1

  unfoldable pub gc : Mapper → Fs → List Message × Fs
  unfolding load copy_all replace
  gc m fs =
      let (loaded, result) = load m fs in
      let (made, fs1) = File.create_file m.tmpfile fs in
      let (copied, result', fs2) = copy_all m.tmpfile result fs1 in
      if loaded then (if copied then (result', replace m fs2) else (result', fs2)) else (result, fs)
