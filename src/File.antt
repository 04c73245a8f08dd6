-- ===== src/File.antt =====
-- `FileHelper` of mqcommon/mq_helper.hpp over a file system: the files with their contents, the
-- directories, and the paths that may be opened for reading and for writing. A call that fails leaves
-- the files as they are.
pub mod Content
pub mod Open
use bitmq.Base.{
  ℕ, zero, suc, ◌+◌, ◌-◌, Bool, true, false, not, ◌&&◌, ◌||◌, Option, none, some, List, [], ◌∷◌,
  ◌++◌, Bytes, codes, bytes_eq, nat_eq, leb, ltb, if◌then◌else◌, length, take, drop, replicate,
  bytes_key,
}
use bitmq.Dict.{Dict, find, assign, erase}
use bitmq.Str.{find_text}

pub record Fs : Type 0 where
  pub files : Dict Bytes Bytes
  pub dirs : List Bytes
  pub readable : Bytes → Bool
  pub writable : Bytes → Bool

abbrev pub is_dir : Bytes → List Bytes → Bool
is_dir path [] = false
is_dir path (d ∷ dirs) = bytes_eq d path || is_dir path dirs

abbrev is_some {ℓ} : {A : Type ℓ} → Option A → Bool
is_some none = false
is_some (some a) = true

unfoldable pub exists : Bytes → Fs → Bool
exists filename fs = is_some (find filename fs.files) || is_dir filename fs.dirs

unfoldable pub size : Bytes → Fs → ℕ
size filename fs = elim (find filename fs.files) [ none ↦ 0 | some content ↦ length content ]

-- `len` bytes from `offset` on; `none` where fewer are there.
unfoldable pub read_content : Bytes → ℕ → ℕ → Option Bytes
read_content content offset len =
    let body = take len (drop offset content) in
    if nat_eq (length body) len then some body else none

unfoldable pub read : Bytes → ℕ → ℕ → Fs → Option Bytes
unfolding read_content
read filename offset len fs =
    if fs.readable filename
    then (elim (find filename fs.files) [
      | none ↦ none
      | some content ↦ read_content content offset len
    ])
    else none

-- `read(std::string &body)`
unfoldable pub read_all : Bytes → Fs → Option Bytes
unfolding read
read_all filename fs = read filename 0 (size filename fs) fs

unfoldable pub create_file : Bytes → Fs → Bool × Fs
create_file filename fs =
    if fs.writable filename && not (is_dir filename fs.dirs)
    then (true, record fs { files = assign filename [] fs.files })
    else (false, fs)

-- Writing nothing leaves the file; a gap before the offset is filled with zeros.
unfoldable pub write_content : Bytes → ℕ → Bytes → Bytes
write_content content offset [] = content
write_content content offset (x ∷ body) =
    take offset content
    ++ (replicate (offset - length content) 0
        ++ ((x ∷ body) ++ drop (offset + length (x ∷ body)) content))

unfoldable pub write_open : Bytes → ℕ → Bytes → Fs → Bool × Fs
unfolding write_content
write_open filename offset body fs =
    if fs.readable filename && fs.writable filename
    then (elim (find filename fs.files) [
      | none ↦ (false, fs)
      | some content ↦
          (true, record fs { files = assign filename (write_content content offset body) fs.files })
    ])
    else (false, fs)

-- The `body` of the callers is never null.
unfoldable pub write : Bytes → Bytes → ℕ → Fs → Bool × Fs
unfolding write_open create_file exists
write filename body offset fs =
    if not (exists filename fs)
    then (let (made, fs1) = create_file filename fs in
        if made then write_open filename offset body fs1 else (false, fs1))
    else write_open filename offset body fs

unfoldable pub rename : Bytes → Bytes → Fs → Bool × Fs
rename filename nname fs = elim (find filename fs.files) [
  | none ↦ (false, fs)
  | some content ↦
      if fs.writable filename && fs.writable nname && not (is_dir nname fs.dirs)
      then (true, record fs { files = assign nname content (erase filename fs.files) })
      else (false, fs)
]

unfoldable pub remove_file : Bytes → Fs → Bool × Fs
remove_file filename fs = elim (find filename fs.files) [
  | none ↦ (false, fs)
  | some content ↦
      if fs.writable filename
      then (true, record fs { files = erase filename fs.files })
      else (false, fs)
]

abbrev slash : Bytes
slash = codes "/"

-- `find_last_of("/")`
last_slash : Bytes → Option ℕ
last_slash [] = none
last_slash (x ∷ s) = elim (last_slash s) [
  | some pos ↦ some (suc pos)
  | none ↦ if nat_eq x b'/' then some 0 else none
]

unfoldable pub parent_directory : Bytes → Bytes
unfolding last_slash
parent_directory filename = elim (last_slash filename) [
  | none ↦ codes "./"
  | some pos ↦ take pos filename
]

abbrev pub ends_in_slash : Bytes → Bool
ends_in_slash [] = false
ends_in_slash (x ∷ []) = nat_eq x b'/'
ends_in_slash (x ∷ y ∷ s) = ends_in_slash (y ∷ s)

-- The loop that takes slashes off the end, all but a lone one; `rounds` is the length of the text.
strip_slashes : ℕ → Bytes → Bytes
strip_slashes zero target = target
strip_slashes (suc rounds) target =
    let shorter = strip_slashes rounds (take (length target - 1) target) in
    if ltb 1 (length target) && ends_in_slash target then shorter else target

pub data MadeDir : Type 0 where
  made there failed : MadeDir

-- `mkdir`: the path may be there already, stand below a file, or be refused.
unfoldable pub make_dir : Bytes → Fs → MadeDir × Fs
unfolding exists parent_directory
make_dir path fs =
    if exists path fs
    then (there, fs)
    else if is_some (find (parent_directory path) fs.files) || not (fs.writable path)
    then (failed, fs)
    else (made, record fs { dirs = path ∷ fs.dirs })

-- The loop over the parts of the path. The text is what is left from `idx` on; each round takes a
-- slash off it, so its length is fuel enough.
make_dirs : ℕ → Bytes → Bytes → Fs → Bool × Fs
unfolding make_dir
make_dirs zero current text fs = (true, fs)
make_dirs (suc f) current text fs =
    let pos = find_text slash text in
    let part : Bytes = elim pos [ none ↦ text | some p ↦ take p text ] in
    let joined =
      if not (bytes_eq current []) && not (ends_in_slash current)
      then current ++ slash
      else current in
    let current' = if bytes_eq part [] then current else joined ++ part in
    let (outcome, fs') = if bytes_eq part [] then (there, fs) else make_dir current' fs in
    elim outcome [
      | failed ↦ (false, fs')
      | _ ↦ elim pos [ none ↦ (true, fs') | some p ↦ make_dirs f current' (drop (p + 1) text) fs' ]
    ]

-- An absolute path starts behind its slash.
start_dirs : Bytes → Fs → Bool × Fs
start_dirs [] fs = make_dirs 1 [] [] fs
start_dirs (x ∷ rest) fs =
    if nat_eq x b'/'
    then make_dirs (suc (length rest)) slash rest fs
    else make_dirs (suc (length (x ∷ rest))) [] (x ∷ rest) fs

unfoldable pub create_directory : Bytes → Fs → Bool × Fs
unfolding strip_slashes make_dirs start_dirs exists find_text
create_directory [] fs = (false, fs)
create_directory path fs =
    let target = strip_slashes (length path) path in
    if exists target fs then (is_dir target fs.dirs, fs) else start_dirs target fs
