-- ===== src/KeyValFs/Disk.antt =====
-- The calls of `std::fs` that the database makes, over directories that hold files. A call may fail
-- at any time: the state holds the faults to come, so that every error path can be followed.
pub mod Files
pub mod Effects
pub mod Reads
use evobench.Prelude.{
  ℕ, ◌+◌, Option, none, some, List, [], ◌∷◌, Bool, true, false, take, if◌then◌else◌,
}
use evobench.Prelude.Bytes.{Bytes, same}
use evobench.Prelude.Outcome.{Outcome, ok, err, Act, pure, fail, gets, ◌>>=◌, ◌>>◌}
use Files.{Dir, lookup, insert, remove}

-- `std::io::ErrorKind`, as far as the code tells kinds apart
pub data IoErrorKind : Type 0 where
  not_found already_exists other : IoErrorKind

pub record Disk : Type 0 where
  -- the directories, by path
  pub dirs : Bytes → Option Dir
  -- for each system call to come whether it fails, and how much a failing write has written;
  -- calls behind the end of the list succeed
  pub faults : List (Option ℕ)
  -- the files on which another process holds a lock
  pub held : Bytes → Bytes → Bool
  -- the change signals that were sent
  pub signals : ℕ
  -- the system time, in nanoseconds since the epoch, when the n-th `TimeKey` is made
  pub clock : ℕ → ℕ
  pub pid : ℕ
  -- `IDS` of `next_id`
  pub ids : ℕ

abbrev pub Io : Type 0 → Type 0
Io A = Act Disk IoErrorKind A

faulty : List (Option ℕ) → Disk → Outcome IoErrorKind (Unit {0}) × Disk
faulty [] w = (ok tt, w)
faulty (none ∷ r) w = (ok tt, record w { faults = r })
faulty (some n ∷ r) w = (err other, record w { faults = r })

-- A call that changes no file: opening a directory, `flush`, `sync_all`, taking a lock.
unfoldable pub call : Io (Unit {0})
unfolding faulty
call w = faulty w.faults w

unfoldable pub put_dir : Bytes → Dir → Io (Unit {0})
put_dir d fs w = (ok tt, record w { dirs = λ e. if same d e then some fs else w.dirs e })

files_at : Option Dir → Io Dir
files_at none = fail not_found
files_at (some fs) = pure fs

unfoldable pub files_in : Bytes → Io Dir
unfolding files_at
files_in d w = files_at (w.dirs d) w

made : Option Dir → Bytes → Io (Unit {0})
made none d = put_dir d []
made (some fs) d = fail already_exists

unfoldable pub create_dir : Bytes → Io (Unit {0})
unfolding made put_dir call
create_dir d = do call; old ← gets (λ w. w.dirs d); made old d

-- `File::create` truncates the file if it is there.
unfoldable pub create : Bytes → Bytes → Io (Unit {0})
unfolding put_dir call files_in
create d f = do call; fs ← files_in d; put_dir d (insert f [] fs)

written : List (Option ℕ) → Bytes → Bytes → Bytes → Dir → Io (Unit {0})
written [] d f content fs w = put_dir d (insert f content fs) w
written (none ∷ r) d f content fs w = put_dir d (insert f content fs) (record w { faults = r })
written (some n ∷ r) d f content fs w =
    (err other, (put_dir d (insert f (take n content) fs) (record w { faults = r })).1)

-- `write_all` to the file that was just created; a failing write leaves a part of the content.
unfoldable pub write_all : Bytes → Bytes → Bytes → Io (Unit {0})
unfolding put_dir files_in written
write_all d f content = do
  fs ← files_in d
  faults ← gets (λ w. w.faults)
  written faults d f content fs

found : Option Bytes → Io Bytes
found none = fail not_found
found (some content) = pure content

moved : Option Bytes → Bytes → Bytes → Bytes → Dir → Io (Unit {0})
moved none d f g fs = fail not_found
moved (some content) d f g fs = put_dir d (insert g content (remove f fs))

unfoldable pub rename : Bytes → Bytes → Bytes → Io (Unit {0})
unfolding put_dir call files_in moved
rename d f g = do call; fs ← files_in d; moved (lookup f fs) d f g fs

removed : Option Bytes → Bytes → Bytes → Dir → Io (Unit {0})
removed none d f fs = fail not_found
removed (some content) d f fs = put_dir d (remove f fs)

unfoldable pub remove_file : Bytes → Bytes → Io (Unit {0})
unfolding put_dir call files_in removed
remove_file d f = do call; fs ← files_in d; removed (lookup f fs) d f fs

-- `File::open`; the content is what the open file holds.
unfoldable pub open_file : Bytes → Bytes → Io Bytes
unfolding call files_in found
open_file d f = do call; fs ← files_in d; found (lookup f fs)

-- `File::open` of a directory
unfoldable pub open_dir : Bytes → Io (Unit {0})
unfolding call files_in
open_dir d = do call; _ ← files_in d; pure tt

-- The names of the entries of a directory.
unfoldable pub read_dir : Bytes → Io (List Bytes)
unfolding call files_in
read_dir d = do call; fs ← files_in d; pure (Files.names fs)

-- `PollingSignalsSender::send_signal`
unfoldable pub send_signal : Io (Unit {0})
send_signal w = (ok tt, record w { signals = w.signals + 1 })

-- The content of a file, as a reader finds it.
unfoldable pub view : Disk → Bytes → Bytes → Option Bytes
view w d f = elim (w.dirs d) [ none ↦ none | some fs ↦ lookup f fs ]
