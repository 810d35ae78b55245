-- ===== src/Run/WorkingDirectoryPool/Scan.antt =====
-- The names in the base directory of a pool: which are working directories, and what the next identifier
-- is; the first part of `WorkingDirectoryPool::open` of evobench-tools/src/run/working_directory_pool.rs.
pub mod Bounds
use evobench.Prelude.{ℕ, ◌+◌, ◌^◌, Option, none, some, List, [], ◌∷◌, ltb, leb, if◌then◌else◌}
use evobench.Prelude.Bytes.{Bytes}
use evobench.Prelude.Chain.{◌>>=◌}
use evobench.KeyValFs.TimeKey.{split_once}
use evobench.Run.WorkingDirectory.{DirEntry}
use evobench.Run.WorkingDirectoryPool.Id.{from_prefixless_str}

-- Whatever identifier is taken, the next one is greater. An overflow panics.
abbrev pub raise_next : ℕ → ℕ → Option ℕ
raise_next id next_id =
    if ltb id next_id then some next_id else (if leb (2 ^ 64) (id + 1) then none else some (id + 1))

found_at : Bytes → ℕ → Option ℕ → Option (Option (ℕ × Bytes) × ℕ)
found_at path id none = none
found_at path id (some next_id) = some (some (id, path), next_id)

passed_over : Option ℕ → Option (Option (ℕ × Bytes) × ℕ)
passed_over none = none
passed_over (some next_id) = some (none, next_id)

scan_found : Bytes → Option ℕ → ℕ → Option (Option (ℕ × Bytes) × ℕ)
unfolding found_at
scan_found path none next_id = some (none, next_id)
scan_found path (some id) next_id = found_at path id (raise_next id next_id)

scan_passed : Option ℕ → ℕ → Option (Option (ℕ × Bytes) × ℕ)
unfolding passed_over
scan_passed none next_id = some (none, next_id)
scan_passed (some id) next_id = passed_over (raise_next id next_id)

-- A name of a number is a working directory. A directory with a number before a dot is none, but its
-- number is taken.
scan_name : Bytes → Bytes → Option (Bytes × Bytes) → ℕ → Option (Option (ℕ × Bytes) × ℕ)
unfolding scan_found scan_passed
scan_name path fname (some (id_str, rest)) next_id =
    scan_passed (from_prefixless_str id_str) next_id
scan_name path fname none next_id = scan_found path (from_prefixless_str fname) next_id

scan_dir : Bytes → Option Bytes → ℕ → Option (Option (ℕ × Bytes) × ℕ)
unfolding scan_name
scan_dir path none next_id = some (none, next_id)
scan_dir path (some fname) next_id = scan_name path fname (split_once b'.' fname) next_id

unfoldable pub scan_entry : DirEntry → ℕ → Option (Option (ℕ × Bytes) × ℕ)
unfolding scan_dir
scan_entry entry next_id =
    if entry.is_dir then scan_dir entry.entry_path entry.file_name next_id else some (none, next_id)

put_found : Option (ℕ × Bytes) → List (ℕ × Bytes) → List (ℕ × Bytes)
put_found none found = found
put_found (some e) found = e ∷ found

-- The directories that were found, and the next identifier; none where it overflows.
unfoldable pub scan_entries : List DirEntry → ℕ → Option (List (ℕ × Bytes) × ℕ)
unfolding put_found
scan_entries [] next_id = some ([], next_id)
scan_entries (entry ∷ entries) next_id = do
  (found, next_id') ← scan_entry entry next_id
  (rest, last) ← scan_entries entries next_id'
  some (put_found found rest, last)
