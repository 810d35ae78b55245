-- ===== src/KeyValFs/Queue.antt =====
-- The queue of evobench-tools/src/key_val_fs/queue.rs: a `KeyVal` with `TimeKey`s, read in the order
-- of the keys. Waiting for entries (`wait: true`) is not used by the runner and not modelled.
pub mod Push
pub mod Adds
use Prim.Native.Nat.{Ordering}
use evobench.Prelude.{Bool, true, false, Option, none, some, List, [], ◌∷◌, if◌then◌else◌}
use mathlib.Core.List.{reverse}
use evobench.Prelude.Bytes.{Bytes}
use evobench.Prelude.Outcome.{Act, ok, pure, fail, gets, or_crash, map_err, ◌>>=◌, ◌>>◌}
use evobench.KeyValFs.AsKey.{AsKey, Json}
use evobench.KeyValFs.Disk.{Disk, view, call}
use evobench.KeyValFs.TimeKey
use evobench.KeyValFs.TimeKey.{TimeKey}
use evobench.KeyValFs.TimeKey.RoundTrip.{InRange, try_from-as_filename}
use evobench.KeyValFs.KeyVal
use evobench.KeyValFs.KeyVal.{
  KeyVal, KeyValError, Db, Entry, in_ctx, lock_taken, already_locked, delete_file,
}

abbrev pub time_key : AsKey TimeKey
time_key = record {
  as_filename_str = TimeKey.as_filename_str;
  try_from_filename_str = TimeKey.try_from_filename_str;
  InType = InRange;
  round_trip = try_from-as_filename;
}

pub record QueueGetItemOptions : Type 0 where
  pub no_lock : Bool
  pub error_when_locked : Bool
  pub delete_first : Bool

-- What `run_queue.rs` and `run_queues.rs` ask for.
abbrev pub unlocked : QueueGetItemOptions
unlocked = record { no_lock = true; error_when_locked = false; delete_first = false }

pub data PerhapsLock : Type 0 where
  not_locked entry_gone locked : PerhapsLock

pub record QueueItem : Type 0 where
  pub file_name : Bytes
  pub perhaps_lock : PerhapsLock

is_gone : PerhapsLock → Bool
is_gone not_locked = false
is_gone entry_gone = true
is_gone locked = false

delete_if : Bool → KeyVal → Bytes → Db (Unit {0})
delete_if false kv file_name = pure tt
delete_if true kv file_name = do delete_file kv "deleting the value file" file_name; pure tt

-- `try_lock_exclusive` says that the lock is taken; `lock_exclusive` waits for it.
take_lock : Bool → KeyVal → Bytes → Db (Unit {0})
take_lock error_when_locked kv file_name = do
  in_ctx call "getting lock on file"
  held ← gets (λ w. w.held kv.base_dir file_name)
  if error_when_locked then (if held then fail lock_taken else pure tt) else pure tt

item_if : Option Bytes → QueueGetItemOptions → KeyVal → Bytes → Db QueueItem
item_if none opts kv file_name = pure (record { file_name = file_name; perhaps_lock = entry_gone })
item_if (some content) opts kv file_name = do
  delete_if opts.delete_first kv file_name
  pure (record { file_name = file_name; perhaps_lock = locked })

locked_item : QueueGetItemOptions → KeyVal → Bytes → Db QueueItem
locked_item opts kv file_name = do
  take_lock opts.error_when_locked kv file_name
  present ← gets (λ w. view w kv.base_dir file_name)
  item_if present opts kv file_name

pub from_entry : KeyVal → QueueGetItemOptions → Entry → Db QueueItem
unfolding locked_item delete_if take_lock item_if
from_entry kv opts entry =
    if opts.no_lock
    then (do
      delete_if opts.delete_first kv entry.file_name
      pure (record { file_name = entry.file_name; perhaps_lock = not_locked }))
    else locked_item opts kv entry.file_name

-- `QueueItem::lock_exclusive`, for an item that was got unlocked
unfoldable pub lock_as : PerhapsLock → Db (Unit {0})
lock_as not_locked = in_ctx call "QueueItem.lock_exclusive"
lock_as entry_gone = fail already_locked
lock_as locked = fail already_locked

unfoldable pub lock_item : QueueItem → Db (Unit {0})
unfolding lock_as
lock_item item = lock_as item.perhaps_lock

-- `QueueItem::delete`
unfoldable pub delete_item : KeyVal → QueueItem → Db (Unit {0})
delete_item kv item = do delete_file kv "deleting the value file" item.file_name; pure tt

-- `QueueItem::key`: an entry is never made from a temporary file.
pub item_key : QueueItem → Db TimeKey
item_key item = do key ← KeyVal.key_from_file_name time_key item.file_name; or_crash key

before : TimeKey → TimeKey → Bool
unfolding TimeKey.cmp
before a b = elim (TimeKey.cmp a b) [ Ordering.gt ↦ false | _ ↦ true ]

put_in_order : TimeKey → List TimeKey → List TimeKey
put_in_order key [] = key ∷ []
put_in_order key (k ∷ ks) = if before key k then key ∷ k ∷ ks else k ∷ put_in_order key ks

-- `keys.sort()`, a stable sort
unfoldable pub sort : List TimeKey → List TimeKey
unfolding put_in_order before
sort [] = []
sort (k ∷ ks) = put_in_order k (sort ks)

pub sorted_keys : KeyVal → Bool → Db (List TimeKey)
sorted_keys kv reversed = do
  keys ← KeyVal.keys time_key kv
  pure (if reversed then reverse (sort keys) else sort keys)

unfoldable pub now : Db TimeKey
unfolding TimeKey.now
now w = let (key, w') = TimeKey.now w in (ok key, w')

module _ {V : Type 0} (json : Json V) where
  unfoldable pub push_front : KeyVal → V → Db (Unit {0})
  unfolding now
  push_front kv val = do key ← now; KeyVal.insert time_key json kv key val true

  item_of : KeyVal → QueueGetItemOptions → Option Entry → Db (Option QueueItem)
  unfolding from_entry
  item_of kv opts none = pure none
  item_of kv opts (some entry) = do item ← from_entry kv opts entry; pure (some item)

  pub get_item : KeyVal → TimeKey → QueueGetItemOptions → Db (Option QueueItem)
  unfolding item_of
  get_item kv key opts = do entry ← KeyVal.entry_opt time_key json kv key; item_of kv opts entry

  module _ {E B : Type 0} (into : KeyValError → E) (kv : KeyVal) (opts : QueueGetItemOptions)
      (each : QueueItem → V → Act Disk E B) where
    -- One round of the loop of `items`; an entry that has vanished is skipped.
    item_round : Option Entry → Act Disk E (List B) → Act Disk E (List B)
    unfolding from_entry is_gone
    item_round none others = others
    item_round (some entry) others = do
      value ← map_err (KeyVal.entry_get time_key json entry) into
      item ← map_err (from_entry kv opts entry) into
      if is_gone item.perhaps_lock
          then others
          else (do b ← each item value; bs ← others; pure (b ∷ bs))

    pub over_keys : List TimeKey → Act Disk E (List B)
    unfolding item_round
    over_keys [] = pure []
    over_keys (key ∷ keys) = do
      entry ← map_err (KeyVal.entry_opt time_key json kv key) into
      item_round entry (over_keys keys)

    -- `items(..).map(each).collect::<Result<_, _>>()`
    pub over_items : Bool → Act Disk E (List B)
    unfolding sorted_keys
    over_items reversed = do keys ← map_err (sorted_keys kv reversed) into; over_keys keys
