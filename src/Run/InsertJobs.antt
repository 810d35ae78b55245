-- ===== src/Run/InsertJobs.antt =====
-- Insertion of jobs, evobench-tools/src/run/insert_jobs.rs, with the key of the table of inserted jobs from key.rs. The
-- polling pool is an interface on a state `P` of its own; `crypto_hash` and the system time are third-party. The report
-- of a dry run and the texts of errors are left out.
pub mod Checks
pub mod Inserting
use evobench.Prelude.{
  ℕ, zero, suc, ◌+◌, ◌≡◌, refl, Bool, true, false, Option, none, some, List, [], ◌∷◌, ◌++◌,
  if◌then◌else◌,
}
use evobench.Prelude.Bytes.{Bytes}
use evobench.Prelude.Outcome.{ok, Act, pure, fail, map_err, or_crash, ◌>>=◌, ◌>>◌}
use evobench.Prelude.Local.{outside}
use evobench.KeyValFs.AsKey.{AsKey, Json}
use evobench.KeyValFs.Disk.{Disk}
use evobench.KeyValFs.KeyVal
use evobench.KeyValFs.KeyVal.{KeyVal, KeyValSync, KeyValError, Db, Entry}
use evobench.KeyValFs.Queue
use evobench.Run.Float.{Float64}
use evobench.Run.Job.{BenchmarkingJob, BenchmarkingJobParameters, benchmarking_job_parameters}
use evobench.Run.RunQueue.{RunQueue}
use evobench.Run.RunQueues.{RunQueues}

-- `AsKey for BenchmarkingJobParametersHash`
abbrev pub hash_key : AsKey Bytes
hash_key = record {
  as_filename_str = λ hash. hash;
  try_from_filename_str = λ file_name. some file_name;
  InType = λ hash. Unit;
  round_trip = λ hash h. refl;
}

-- What the table has for a job: its parameters, and the times at which it was inserted.
abbrev pub Inserted : Type 0
Inserted = BenchmarkingJobParameters × List ℕ

pub record Opts : Type 0 where
  pub dry_run : Bool
  pub force : Bool
  pub quiet : Bool

pub data InsertError (E : Type 0) : Type 0 where
  key_val : KeyValError → InsertError E
  polling : E → InsertError E
  -- "commit does not exist in the repository"
  commit_missing : Bytes → InsertError E
  -- "there are jobs that were already inserted"
  already_inserted : List Inserted → InsertError E

pub record PollingPool (P E : Type 0) : Type 0 where
  pub open_polling_pool : Act P E (Unit {0})
  pub commit_is_valid : Bytes → Act P E Bool
  -- `SystemTime::now`
  pub system_time : Act P E ℕ

-- What becomes of a job: it is to be inserted, with the times before, or it was inserted already, or it is skipped.
pub data Checked : Type 0 where
  to_insert : List ℕ → Checked
  known : Inserted → Checked
  skipped : Checked

unfoldable pub open_already_inserted : Bytes → Db KeyVal
open_already_inserted base_dir = KeyVal.open_db base_dir KeyValSync.all false false

-- A job that is to be inserted, and the times at which it was before.
abbrev pub ToInsert : Type 0 → Type 0
ToInsert F = BenchmarkingJob F × List ℕ

unfoldable pub delete_entry : KeyVal → Option Entry → Db (Unit {0})
delete_entry table none = pure tt
delete_entry table (some entry) = do
  KeyVal.delete_file table "deleting the value file" entry.file_name
  pure tt

module _ {F : Type 0} where
  -- `BenchmarkingJobParametersHash::from`
  abbrev pub hash_of : (BenchmarkingJobParameters → Bytes) → BenchmarkingJob F → Bytes
  hash_of crypto_hash job = crypto_hash (benchmarking_job_parameters job)

  abbrev pub add_checked :
      Checked
      → BenchmarkingJob F
      → List (ToInsert F) × List Inserted
      → List (ToInsert F) × List Inserted
  add_checked (Checked.to_insert times) job (jobs, already) = ((job, times) ∷ jobs, already)
  add_checked (Checked.known inserted) job (jobs, already) = (jobs, inserted ∷ already)
  add_checked Checked.skipped job (jobs, already) = (jobs, already)

  abbrev pub first : List (RunQueue F) → Option (RunQueue F)
  first [] = none
  first (rq ∷ rqs) = some rq

module _ (f64 : Float64) (job_json : Json (BenchmarkingJob f64.F)) (json : Json Inserted)
    (crypto_hash : BenchmarkingJobParameters → Bytes) {P E : Type 0} (pool : PollingPool P E) where
  open f64 use {F}

  abbrev pub Do : Type 0 → Type 0
  Do A = Act (P × Disk) (InsertError E) A

  abbrev pub on_disk : {A : Type 0} → Db A → Do A
  on_disk m = outside (map_err m key_val)

  abbrev pub on_pool : {A : Type 0} → Act P E A → Do A
  on_pool m (p, w) = let r = map_err m InsertError.polling p in (r.0, (r.1, w))

  unfoldable pub valid_commit : BenchmarkingJob F → List ℕ → Do Checked
  valid_commit job times = do
    exists ← on_pool (pool.commit_is_valid job.public.run_parameters.commit_id)
    if exists
        then pure (Checked.to_insert times)
        else fail (commit_missing job.public.run_parameters.commit_id)

  unfoldable pub check_entry : Opts → BenchmarkingJob F → Option Entry → Do Checked
  unfolding valid_commit
  check_entry opts job none = valid_commit job []
  check_entry opts job (some entry) = do
    inserted ← on_disk (KeyVal.entry_get hash_key json entry)
    if opts.force
        then valid_commit job inserted.1
        else pure (if opts.quiet then Checked.skipped else Checked.known inserted)

  -- The loop over the jobs: `jobs_to_insert` and `jobs_already_inserted`.
  unfoldable pub check_jobs :
      KeyVal → Opts → List (BenchmarkingJob F) → Do (List (ToInsert F) × List Inserted)
  unfolding check_entry
  check_jobs table opts [] = pure ([], [])
  check_jobs table opts (job ∷ jobs) = do
    entry ← on_disk (KeyVal.entry_opt hash_key json table (hash_of crypto_hash job))
    checked ← check_entry opts job entry
    rest ← check_jobs table opts jobs
    pure (add_checked checked job rest)

  unfoldable pub insert_job : KeyVal → RunQueues F → ToInsert F → Do (Unit {0})
  unfolding delete_entry
  insert_job table queues (job, times) = do
    rq ← or_crash (first queues.pipeline)
    on_disk (Queue.push_front job_json rq.queue job)
    entry ← on_disk (KeyVal.entry_opt hash_key json table (hash_of crypto_hash job))
    on_disk (delete_entry table entry)
    now ← on_pool pool.system_time
    on_disk (
        KeyVal.insert hash_key json table (hash_of crypto_hash job)
          (benchmarking_job_parameters job, times ++ now ∷ []) true)

  -- The number of jobs inserted.
  unfoldable pub insert_all : KeyVal → RunQueues F → List (ToInsert F) → Do ℕ
  unfolding insert_job
  insert_all table queues [] = pure 0
  insert_all table queues (job ∷ jobs) = do
    insert_job table queues job
    num_inserted ← insert_all table queues jobs
    pure (suc num_inserted)

  unfoldable pub after_checks :
      KeyVal → RunQueues F → Opts → List (ToInsert F) × List Inserted → Do ℕ
  unfolding insert_all
  after_checks table queues opts (jobs, inserted ∷ already) =
      fail (already_inserted (inserted ∷ already))
  after_checks table queues opts (jobs, []) =
      if opts.dry_run then pure 0 else insert_all table queues jobs

  unfoldable pub insert_jobs : Bytes → RunQueues F → Opts → List (BenchmarkingJob F) → Do ℕ
  unfolding open_already_inserted check_jobs after_checks
  insert_jobs base_dir queues opts jobs = do
    table ← on_disk (open_already_inserted base_dir)
    on_disk (KeyVal.lock_exclusive table)
    on_pool pool.open_polling_pool
    checks ← check_jobs table opts jobs
    after_checks table queues opts checks
