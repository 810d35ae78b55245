-- ===== src/KeyValFs/KeyVal.antt =====
-- The map of evobench-tools/src/key_val_fs/key_val.rs: one file in a directory for each key.
-- A value is written to a temporary file `.name`, which is then renamed to `name`.
pub mod Insert
pub mod Reads
use evobench.Prelude.{Bool, true, false, Option, none, some, List, [], ◌∷◌, ◌==◌, if◌then◌else◌}
use Prim.Native.String.{String}
use evobench.Prelude.Bytes.{Bytes}
use evobench.Prelude.Outcome.{
  Outcome, ok, err, panic, Act, pure, fail, crash, gets, or_fail, or_crash, map_err, ◌>>=◌, ◌>>◌,
}
use evobench.KeyValFs.AsKey.{AsKey, Json, verified_as_filename_str}
use evobench.KeyValFs.Disk
use evobench.KeyValFs.Disk.{
  Disk, IoErrorKind, not_found, already_exists, other, view, call, send_signal,
}

-- The errors, with the text that says at which call they arose; the paths are left out.
pub data KeyValError : Type 0 where
  create_dir : KeyValError
  io : String → KeyValError
  serialization deserialization key_exists : KeyValError
  invalid_file_name_in_storage : String → KeyValError
  file_taken lock_taken already_locked : KeyValError

pub data KeyValSync : Type 0 where
  no_sync files all : KeyValSync

unfoldable pub do_sync_files : KeyValSync → Bool
do_sync_files no_sync = false
do_sync_files files = true
do_sync_files all = true

unfoldable pub do_sync_dirs : KeyValSync → Bool
do_sync_dirs no_sync = false
do_sync_dirs files = false
do_sync_dirs all = true

abbrev pub Db : Type 0 → Type 0
Db A = Act Disk KeyValError A

-- `.map_err(|error| KeyValError::IO { ctx, .. })`
abbrev pub in_ctx : {A : Type 0} → Act Disk IoErrorKind A → String → Db A
in_ctx m ctx = map_err m (λ _. io ctx)

flush_and_perhaps_sync_file : KeyValSync → String → String → Db (Unit {0})
unfolding do_sync_files
flush_and_perhaps_sync_file sync flush_ctx sync_ctx = do
  in_ctx call flush_ctx
  if do_sync_files sync then in_ctx call sync_ctx else pure tt

perhaps_sync_dir : KeyValSync → Db (Unit {0})
unfolding do_sync_dirs
perhaps_sync_dir sync = if do_sync_dirs sync then in_ctx call "sync of the directory" else pure tt

pub record KeyVal : Type 0 where
  pub sync : KeyValSync
  pub base_dir : Bytes
  -- whether a signalling handle was given
  pub signal_change : Bool

-- The directory may exist already; one that is made here is synced.
dir_made : Outcome IoErrorKind (Unit {0}) → Db Bool
dir_made (ok u) = pure true
dir_made (err not_found) = fail create_dir
dir_made (err already_exists) = pure false
dir_made (err other) = fail create_dir
dir_made panic = crash

perhaps_create_dir : Bool → Bytes → Db Bool
unfolding dir_made
perhaps_create_dir false base_dir w = (ok false, w)
perhaps_create_dir true base_dir w = let r = Disk.create_dir base_dir w in dir_made r.0 r.1

-- Opening needs the directory, and clones its handle for the lock.
unfoldable pub open_db : Bytes → KeyValSync → Bool → Bool → Db KeyVal
unfolding perhaps_create_dir perhaps_sync_dir
open_db base_dir sync create_dir_if_not_exists signal_change = do
  dir_needs_sync ← perhaps_create_dir create_dir_if_not_exists base_dir
  in_ctx (Disk.open_dir base_dir) "opening directory as file"
  in_ctx call "cloning directory filehandle"
  if dir_needs_sync then perhaps_sync_dir sync else pure tt
  pure (record { sync = sync; base_dir = base_dir; signal_change = signal_change })

pub lock_exclusive : KeyVal → Db (Unit {0})
lock_exclusive kv = in_ctx call "getting lock on dir"

unfoldable pub perhaps_signal : KeyVal → Db (Unit {0})
unfolding send_signal
perhaps_signal kv w = (ok tt, if kv.signal_change then (send_signal w).1 else w)

unfoldable pub tmp_name : Bytes → Bytes
tmp_name name = b'.' ∷ name

-- The part of `insert` that writes.
pub store : KeyVal → Bytes → Bytes → Db (Unit {0})
unfolding tmp_name flush_and_perhaps_sync_file perhaps_sync_dir perhaps_signal
store kv name valstr = do
  in_ctx (Disk.create kv.base_dir (tmp_name name)) "creating file"
  in_ctx (Disk.write_all kv.base_dir (tmp_name name) valstr) "writing to file"
  flush_and_perhaps_sync_file kv.sync "flush of the file" "sync of the file"
  in_ctx (Disk.rename kv.base_dir (tmp_name name) name) "renaming to file"
  perhaps_sync_dir kv.sync
  perhaps_signal kv

unfoldable pub is_taken : Bool → Option Bytes → Bool
is_taken exclusive none = false
is_taken exclusive (some content) = exclusive

unfoldable pub deleted : KeyVal → String → Outcome IoErrorKind (Unit {0}) → Db Bool
unfolding perhaps_signal
deleted kv ctx (ok u) = do perhaps_signal kv; pure true
deleted kv ctx (err not_found) = pure false
deleted kv ctx (err already_exists) = fail (io ctx)
deleted kv ctx (err other) = fail (io ctx)
deleted kv ctx panic = crash

-- `Entry::delete`, and the end of `KeyVal::delete`.
unfoldable pub delete_file : KeyVal → String → Bytes → Db Bool
unfolding deleted
delete_file kv ctx name w = let r = Disk.remove_file kv.base_dir name w in deleted kv ctx r.0 r.1

pub opened : Outcome IoErrorKind Bytes → Db (Option Bytes)
opened (ok content) = pure (some content)
opened (err not_found) = pure none
opened (err already_exists) = fail (io "opening value file")
opened (err other) = fail (io "opening value file")
opened panic = crash

-- An entry is the name of its file, and what the open file holds.
pub record Entry : Type 0 where
  pub file_name : Bytes
  pub content : Bytes

pub entry_of : Bytes → Option Bytes → Option Entry
entry_of name none = none
entry_of name (some content) = some (record { file_name = name; content = content })

module _ {K V : Type 0} (as_key : AsKey K) (json : Json V) where
  -- With `exclusive`, an error if the key is there.
  unfoldable pub insert : KeyVal → K → V → Bool → Db (Unit {0})
  unfolding verified_as_filename_str lock_exclusive is_taken view
  insert kv key val exclusive = do
    valstr ← or_fail (json.to_string val) serialization
    name ← or_crash (verified_as_filename_str as_key key)
    lock_exclusive kv
    present ← gets (λ w. view w kv.base_dir name)
    if is_taken exclusive present then fail key_exists else store kv name valstr

  pub delete : KeyVal → K → Db Bool
  delete kv key = do
    name ← or_crash (verified_as_filename_str as_key key)
    delete_file kv "delete" name

  pub entry_opt : KeyVal → K → Db (Option Entry)
  unfolding opened entry_of
  entry_opt kv key = do
    name ← or_crash (verified_as_filename_str as_key key)
    content ← λ w. let r = Disk.open_file kv.base_dir name w in opened r.0 r.1
    pure (entry_of name content)

  -- Reads the open file, which the entry still has.
  pub entry_get : Entry → Db V
  entry_get entry = do
    in_ctx call "reading/UTF-decoding value file"
    or_fail (json.from_str entry.content) deserialization

  got : Option Entry → Db (Option V)
  unfolding entry_get
  got none = pure none
  got (some entry) = do val ← entry_get entry; pure (some val)

  pub get : KeyVal → K → Db (Option V)
  unfolding got
  get kv key = do entry ← entry_opt kv key; got entry

-- `none` for the name of a temporary file.
module _ {K : Type 0} (as_key : AsKey K) where
  named : Option K → Db (Option K)
  named none = fail (invalid_file_name_in_storage "can't be parsed back into key")
  named (some key) = pure (some key)

  pub key_from_file_name : Bytes → Db (Option K)
  unfolding named
  key_from_file_name [] = named (as_key.try_from_filename_str [])
  key_from_file_name (b ∷ bs) =
      if b == b'.' then pure none else named (as_key.try_from_filename_str (b ∷ bs))

  -- `collect::<Result<_, _>>` over the keys of the directory; reading an entry may fail too.
  collect_keys : List Bytes → Db (List K)
  collect_keys [] = pure []
  collect_keys (name ∷ names) = do
    in_ctx call "reading directory entry"
    key ← key_from_file_name name
    keys ← collect_keys names
    pure (elim key [ none ↦ keys | some k ↦ k ∷ keys ])

  pub keys : KeyVal → Db (List K)
  unfolding collect_keys
  keys kv = do names ← in_ctx (Disk.read_dir kv.base_dir) "opening directory"; collect_keys names
