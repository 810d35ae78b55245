-- ===== src/Run/WorkingDirectoryPool/Open.antt =====
-- Opening a pool from its directory: `WorkingDirectoryPool::open` of
-- evobench-tools/src/run/working_directory_pool.rs and `open` of evobench-tools/src/run/working_directory.rs.
pub mod Fresh
use evobench.Prelude.{
  ℕ, ◌+◌, ◌^◌, ◌≡◌, refl, Bool, true, false, Option, none, some, List, [], ◌∷◌, ltb, leb,
  if◌then◌else◌,
}
use evobench.Prelude.Bytes.{Bytes, codes, same}
use evobench.Prelude.Outcome.{
  Outcome, ok, err, panic, Act, pure, fail, crash, or_fail, lift, map_err, ◌>>=◌, ◌>>◌,
}
use evobench.Prelude.Local.{outside, get, zoom}
use evobench.Run.WorkingDirectory
use evobench.Run.WorkingDirectory.{
  WorkingDirectoryAutoCleanOpts, WorkingDirectoryStatus, Host, DirEntry, PoolError, host, call,
  now_status, status_path, save_new,
}
use evobench.Run.WorkingDirectoryPool.{WorkingDirectoryPool}
use evobench.Run.WorkingDirectoryPool.Entries
use evobench.Run.WorkingDirectoryPool.Entries.{Entry}
use evobench.Run.WorkingDirectoryPool.Scan.{scan_entries}

module _ {W E : Type 0} (on : Host W E) where
  abbrev pub Opening : Type 0 → Type 0
  Opening A = Act (Unit {0} × W) (PoolError E) A

  -- The status file, or else a status from now that is to be saved.
  read_status : Bytes → Option ℕ → Opening (ℕ × WorkingDirectoryStatus × Bool)
  read_status path (some mtime) = do
    status ← call on (on.load_ron_file path)
    pure (mtime, status, false)
  read_status path none = do
    mtime ← call on on.now
    status ← now_status on
    pure (mtime, status, true)

  check_url : Bytes → Bytes → Bool → Opening (Unit {0})
  check_url path url omit_check = if omit_check then pure tt else (do
    current_url ← call on (on.get_url path)
    (if same current_url url then pure tt else call on (on.set_url path url)))

  -- `WorkingDirectory::open`; the status is saved only if there was none.
  unfoldable pub open_working_directory :
      Bytes → Bytes → Bool → Bool → Opening WorkingDirectory.WorkingDirectory
  unfolding read_status check_url
  open_working_directory path url omit_check signal_change = do
    status_file ← status_path on path
    found ← call on (on.metadata status_file)
    (mtime, status, needs_saving) ← read_status status_file found
    check_url path url omit_check
    zoom
        (record {
          path = path;
          commit = none;
          working_directory_status = status;
          needs_saving = needs_saving;
          last_use = mtime;
          signal_change = signal_change;
        })
        (λ _ u. u) (save_new on status.status)

  -- The directories that were found are opened, and collected by identifier.
  open_all : Bytes → Bool → Bool → List (ℕ × Bytes) → List Entry → Opening (List Entry)
  unfolding open_working_directory
  open_all url omit_check signal_change [] entries = pure entries
  open_all url omit_check signal_change ((id, path) ∷ found) entries = do
    wd ← open_working_directory path url omit_check signal_change
    open_all url omit_check signal_change found (Entries.insert id wd entries)

  scanned : Option (List (ℕ × Bytes) × ℕ) → Opening (List (ℕ × Bytes) × ℕ)
  scanned none = crash
  scanned (some r) = pure r

  -- The context is given: its fields, and the directory created if asked for.
  unfoldable pub open_pool :
      ℕ
      → Option WorkingDirectoryAutoCleanOpts
      → Bytes
      → Bytes
      → Bool
      → Opening (Unit {0})
      → Bool
      → Opening WorkingDirectoryPool
  unfolding scanned open_all
  open_pool capacity auto_clean git_url base_dir signal_change create_dir omit_check = do
    create_dir
    call on on.lock_exclusive
    entries ← call on (on.read_dir base_dir)
    (found, next_id) ← scanned (scan_entries entries 0)
    all_entries ← open_all git_url omit_check signal_change found []
    pure (record {
      capacity = capacity;
      auto_clean = auto_clean;
      git_url = git_url;
      base_dir = base_dir;
      signal_change = signal_change;
      next_id = next_id;
      all_entries = all_entries;
    })
