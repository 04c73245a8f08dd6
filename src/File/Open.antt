-- ===== src/File/Open.antt =====
-- What the operations of `FileHelper` do to a file that is there and may be read and written.
use bitmq.Base.{ℕ, ◌≡◌, ◌≢◌, true, false, some, Bytes, bytes_eq_iff, length, arith, bytes_key}
use bitmq.Dict.{find, assign, erase, find-assign, find-erase}
use bitmq.File.{
  Fs, is_dir, exists, size, read_content, read, write_content, write_open, write, rename,
  remove_file,
}

pub record IsOpen (path content : Bytes) (fs : Fs) : Type 0 where
  pub found : find path fs.files ≡ some content
  pub may_read : fs.readable path ≡ true
  pub may_write : fs.writable path ≡ true

-- The file system with one file's contents replaced.
abbrev pub set_file : Bytes → Bytes → Fs → Fs
set_file path content fs = record fs { files = assign path content fs.files }

module _ {path content : Bytes} {fs : Fs} (o : IsOpen path content fs) where
  pub read-IsOpen : (offset len : ℕ) → read path offset len fs ≡ read_content content offset len
  unfolding read
  read-IsOpen offset len = rw (o.may_read, read) (rw (o.found))

  pub size-IsOpen : size path fs ≡ length content
  unfolding size
  size-IsOpen = rw (o.found, size)

  pub write-IsOpen :
      (body : Bytes) (offset : ℕ)
      → write path body offset fs ≡ (true, set_file path (write_content content offset body) fs)
  unfolding write exists write_open
  write-IsOpen body offset = ground (arith, o.found, o.may_read, o.may_write)

pub set_file-IsOpen :
    {path content : Bytes} {fs : Fs} (next : Bytes)
    → IsOpen path content fs
    → IsOpen path next (set_file path next fs)
set_file-IsOpen {path} {content} {fs} next o = record {
  found = ground (arith, find-assign path path next fs.files, bytes_eq_iff path path);
  may_read = o.may_read;
  may_write = o.may_write;
}

pub set_file-other :
    {path content : Bytes} {fs : Fs} (other next : Bytes)
    → other ≢ path
    → IsOpen path content fs
    → IsOpen path content (set_file other next fs)
set_file-other {path} {content} {fs} other next h o = record {
  found = ground (arith, o.found, find-assign other path next fs.files, bytes_eq_iff other path);
  may_read = o.may_read;
  may_write = o.may_write;
}

pub remove-IsOpen :
    {path content : Bytes} {fs : Fs}
    → IsOpen path content fs
    → remove_file path fs ≡ (true, record fs { files = erase path fs.files })
unfolding remove_file
remove-IsOpen o = rw (o.found, remove_file) (rw o.may_write)

pub rename-IsOpen :
    {path content : Bytes} {fs : Fs} (nname : Bytes)
    → IsOpen path content fs
    → fs.writable nname ≡ true
    → is_dir nname fs.dirs ≡ false
    → rename path nname fs
      ≡ (true, record fs { files = assign nname content (erase path fs.files) })
unfolding rename
rename-IsOpen nname o w d = rw (o.found, rename) (rw (o.may_write, w, d))

-- The file that another one is erased beside.
pub erase-other :
    {path content : Bytes} {fs : Fs} (other : Bytes)
    → path ≢ other
    → IsOpen path content fs
    → IsOpen path content (record fs { files = erase other fs.files })
erase-other {path} {content} {fs} other h o = record {
  found = ground (arith, o.found, find-erase other path fs.files, bytes_eq_iff other path);
  may_read = o.may_read;
  may_write = o.may_write;
}
