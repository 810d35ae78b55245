-- ===== src/Tests/Pool.antt =====
-- The theorems on the working directories at concrete inputs.
use evobench.Prelude.{
  ℕ, ◌+◌, ◌≡◌, ◌↔◌, ◌⊎◌, inr, refl, Bool, true, false, none, some, [], ◌∷◌, ◌++◌, length, arith,
}
use evobench.Prelude.Bytes.{Bytes, codes}
use evobench.Prelude.Outcome.{ok, pure}
use evobench.Prelude.Hoare.{Ends}
use evobench.Run.Job.{RunParameters}
use evobench.Run.RunQueues.Data.{RunQueuesData}
use evobench.SerdeTypes.GitHash
use evobench.SerdeTypes.GitHash.{from_str-to_string, from_str-IsHash, IsHash}
use evobench.Run.WorkingDirectory.{
  WorkingDirectory, WorkingDirectoryStatus, WorkingDirectoryAutoCleanOpts, Status, checked_out,
  processing, finished, error, Host, always, status_of, set_and_save_status, checkout,
}
use evobench.Run.WorkingDirectory.Saving.{saved, set_to, WrittenIfNeeded, set_and_save_status_lem}
use evobench.Run.WorkingDirectory.Cleanup.{needs_cleanup, needs_cleanup_lem, IsDue}
use evobench.Run.WorkingDirectory.Checkout.{IsOn, checkout_lem}
use evobench.Run.WorkingDirectoryPool.{WorkingDirectoryPool, get_a_working_directory_for}
use evobench.Run.WorkingDirectoryPool.Id
use evobench.Run.WorkingDirectoryPool.Id.{
  u64_max, from_prefixless_str, to_directory_file_name, from_str-to_directory_file_name,
}
use evobench.Run.WorkingDirectoryPool.Entries
use evobench.Run.WorkingDirectoryPool.Invariant.{IsValid}
use evobench.Run.WorkingDirectoryPool.Choice.{IsGood, get_a_working_directory_for_lem}
use evobench.Run.WorkingDirectoryPool.Open.{open_pool}
use evobench.Run.WorkingDirectoryPool.Open.Fresh.{InOrder, open_pool-InOrder}
use evobench.Run.WorkingDirectoryPool.Process.{
  set_status_of, process_in_working_directory, working_directory_cleanup,
  WorkingDirectoryCleanupToken,
}
use evobench.Run.WorkingDirectoryPool.Process.States.{HasStatus}
use evobench.Run.WorkingDirectoryPool.Process.Results.{process_in_working_directory_lem}
use evobench.Run.WorkingDirectoryPool.Process.Errors.{Refused, process-IsRefused}
use evobench.Run.StopStartStatus.{be}
use evobench.Run.StopStartStatus.Protocol.{replay, logged, be_lem}
use evobench.Run.WorkingDirectoryPool.Reach.{here, next, mark, cleanup, Fits, Reach-IsValid}

abbrev pub hash : Bytes
hash =
    171 ∷ 1 ∷ 2 ∷ 3 ∷ 4 ∷ 5 ∷ 6 ∷ 7 ∷ 8 ∷ 9 ∷ 10 ∷ 11 ∷ 12 ∷ 13 ∷ 14 ∷ 15 ∷ 16 ∷ 17 ∷ 18 ∷ 19 ∷ []

hash-IsHash : IsHash hash
hash-IsHash = (refl, omega arith)

from_str-to_string_example :
    (length (GitHash.to_string hash) ≡ 40) × (GitHash.from_str (GitHash.to_string hash) ≡ some hash)
from_str-to_string_example = from_str-to_string hash hash-IsHash

from_str-IsHash_example : (length (GitHash.to_string hash) ≡ 40) × IsHash hash
from_str-IsHash_example = from_str-IsHash (GitHash.to_string hash) hash from_str-to_string_example.1

from_str-to_directory_file_name_example :
    (Id.from_str false (Id.to_string 120) ≡ some 120)
    × ((Id.from_str false (to_directory_file_name 120) ≡ none)
        × (from_prefixless_str (to_directory_file_name 120) ≡ some 120))
from_str-to_directory_file_name_example = from_str-to_directory_file_name false 120 (omega arith)

-- A host on which all calls succeed; the state counts the calls that change something.
abbrev pub host : Host ℕ Bool
host = record {
  lock_exclusive = λ w. (ok tt, w);
  now = λ w. (ok 900_000_000_000_000, w);
  now_with_offset = λ w. (ok (codes "2026"), w);
  to_systemtime = λ s. some 5;
  add_extension = λ path e. some (path ++ e);
  append = λ path name. path ++ name;
  metadata = λ path w. (ok (some 7), w);
  load_ron_file = λ path w. (ok stored, w);
  ron_to_file_pretty = λ s path w. (ok tt, w + 1);
  set_executable = λ path w. (ok tt, w + 1);
  send_signal = λ w. (ok tt, w);
  git_clone = λ base url name w. (ok (base ++ name), w + 1);
  get_head_commit_id = λ path w. (ok (codes "none"), w);
  get_url = λ path w. (ok [], w);
  set_url = λ path url w. (ok tt, w + 1);
  fetch_references = λ path tags refs w. (ok tt, w + 1);
  contains_reference = λ path r w. (ok true, w);
  git_reset_hard = λ path r w. (ok tt, w + 1);
  read_link = λ path w. (ok none, w);
  symlink = λ target path w. (ok tt, w + 1);
  remove_file = λ path w. (ok true, w + 1);
  remove_dir_all = λ path w. (ok tt, w + 1);
  read_dir = λ path w. (ok [], w);
  to_yaml = λ e w. (ok [], w);
  write = λ path text w. (ok tt, w + 1);
}
  where
    stored : WorkingDirectoryStatus
    stored = record { creation_timestamp = codes "2026"; num_runs = 3; status = finished }

abbrev directory : Status → WorkingDirectory
directory status = record {
  path = codes "0";
  commit = some hash;
  working_directory_status = record {
    creation_timestamp = codes "2026";
    num_runs = 3;
    status = status;
  };
  needs_saving = false;
  last_use = 7;
  signal_change = true;
}

set_and_save_status_lem_example :
    Ends
      (λ _ sw.
        (sw.0 ≡ saved (set_to processing (directory checked_out)))
        × WrittenIfNeeded host processing (directory checked_out) 0)
      (λ sw. status_of sw.0 ≡ processing)
      (set_and_save_status host processing (directory checked_out, 0))
set_and_save_status_lem_example = set_and_save_status_lem host processing (directory checked_out) 0

checkout_lem_example :
    Ends
      (λ _ sw. IsOn host hash (directory finished) 0 sw.0)
      (λ _. Unit)
      (checkout host hash always (directory finished, 0))
checkout_lem_example = checkout_lem host hash always (directory finished) 0

abbrev clean_opts : WorkingDirectoryAutoCleanOpts
clean_opts = record { min_age_days = 3; min_num_runs = 3; wait_until_commit_done = true }

needs_cleanup_lem_example :
    (due : Bool) × ((needs_cleanup host (directory finished) (some clean_opts) (some false) 0
        ≡ (ok due, 0))
      × ((due ≡ true) ↔ IsDue (directory finished) clean_opts (some false) 899_999_999_999_995))
needs_cleanup_lem_example =
    needs_cleanup_lem host (directory finished) clean_opts (some false) 900_000_000_000_000 5 0 0
      refl refl (omega arith)

abbrev pub pool : WorkingDirectoryPool
pool = record {
  capacity = 2;
  auto_clean = some clean_opts;
  git_url = codes "url";
  base_dir = codes "pool/";
  signal_change = true;
  next_id = 6;
  all_entries = (0, directory finished) ∷ (5, directory error) ∷ [];
}

pub pool-IsValid : IsValid pool
pool-IsValid = ((((omega arith), tt), (tt, tt)), ((omega arith, (omega arith, tt)), omega arith))

abbrev run_parameters : RunParameters
run_parameters = record { commit_id = hash; custom_parameters = [] }

abbrev no_jobs : RunQueuesData Bool
no_jobs = record {
  run_queues = record { pipeline = []; erroneous_jobs_queue = none; done_jobs_queue = none };
  pipeline_data = [];
  commit_index = [];
}

get_a_working_directory_for_lem_example :
    Ends
      (λ id sw. IsGood host no_jobs hash id sw.0)
      (λ sw. IsValid sw.0)
      (get_a_working_directory_for host no_jobs run_parameters (pool, 0))
get_a_working_directory_for_lem_example =
    get_a_working_directory_for_lem host no_jobs run_parameters pool 0 pool-IsValid

-- An action that does nothing.
process_in_working_directory_lem_example :
    Ends
      (λ r sw. IsValid sw.0 × (HasStatus 0 finished sw.0 × (r.1.working_directory_id ≡ 0)))
      (λ sw. IsValid sw.0)
      (process_in_working_directory host 0
        (codes "2026")
        (pure true)
        none
        (codes "test")
        none
        (pool, 0))
process_in_working_directory_lem_example =
    process_in_working_directory_lem host 0 (codes "2026") (pure true) none (codes "test") none pool
      0 pool-IsValid (λ p w v u. (v, u))

process-IsRefused_example : Refused host 5 pool 0 (
    process_in_working_directory host 5
      (codes "2026")
      (pure true)
      none
      (codes "test")
      none
      (pool, 0))
unfolding Entries.get
process-IsRefused_example =
    process-IsRefused host 5 (codes "2026") (pure true) none (codes "test") none pool 0 refl

abbrev token : WorkingDirectoryCleanupToken
token = record { working_directory_id = 5; needs_cleanup = true }

open_pool-InOrder_example :
    Ends
      (λ p _. InOrder p.next_id p.all_entries)
      (λ _. Unit)
      (open_pool host 2 none (codes "url") (codes "pool/") true (pure tt) false (tt, 0))
open_pool-InOrder_example =
    open_pool-InOrder host 2 none (codes "url") (codes "pool/") true (pure tt) false (tt, 0)

-- The directory that was set aside is put back into use: there is room for one more.
recycled-Fits : Fits host 5 checked_out pool
recycled-Fits usable = inr (omega arith)

Reach-IsValid_example :
    IsValid
      (working_directory_cleanup host token
        ((set_status_of host 5 checked_out (pure tt) (pool, 0)).1.0, 1)).1.0
Reach-IsValid_example =
    Reach-IsValid host {F = Bool}
      (next (next here (mark 5 checked_out pool 0 recycled-Fits)) (cleanup token _ 1)) pool-IsValid

-- Nothing is stopped; the command is.
be_lem_example :
    Ends
      (λ _ sw.
        (sw.0.current_stop_start ≡ some (codes "screen" ∷ []))
        × (replay sw.1.0 ≡ some (some (codes "screen" ∷ []))))
      (λ sw.
        (sw.0 ≡ record { current_stop_start = none })
        × ((replay sw.1.0 ≡ some none) ⊎ (replay sw.1.0 ≡ some none)))
      (be
        (logged {W = ℕ} {E = Bool} (λ c word w. (ok true, w)))
        (some (codes "screen" ∷ []))
        (record { current_stop_start = none }, ([], 0)))
unfolding replay
be_lem_example =
    be_lem {W = ℕ} {E = Bool} (λ c word w. (ok true, w)) (some (codes "screen" ∷ []))
      (record { current_stop_start = none }) [] 0 refl
