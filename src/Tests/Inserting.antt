-- ===== src/Tests/Inserting.antt =====
-- The theorem on the insertion of jobs at a concrete input.
use evobench.Prelude.{ℕ, suc, ◌≡◌, refl, Bool, true, false, none, some, [], ◌∷◌}
use evobench.Prelude.Bytes.{Bytes, codes, same}
use evobench.Prelude.Outcome.{ok}
use evobench.Prelude.Hoare.{Ends}
use evobench.KeyValFs.AsKey.{Json}
use evobench.KeyValFs.Disk.{Disk}
use evobench.Run.Job.{BenchmarkingJob, BenchmarkingJobParameters}
use evobench.Run.Schedule.{ScheduleCondition}
use evobench.Run.RunQueue.{RunQueue}
use evobench.Run.RunQueues.{RunQueues}
use evobench.Run.InsertJobs.{Inserted, Opts, PollingPool, insert_jobs}
use evobench.Run.InsertJobs.Inserting.{Done, Failed, insert_jobs_lem}
use evobench.Tests.Instances.{two_priorities, files_on, queue_kv}

abbrev job_json : Json (BenchmarkingJob Bool)
job_json = record { to_string = λ j. none; from_str = λ s. none; reads_back = λ j s e. cc }

abbrev table_json : Json Inserted
table_json = record { to_string = λ j. none; from_str = λ s. none; reads_back = λ j s e. cc }

abbrev job : BenchmarkingJob Bool
job = record {
  public = record {
    reason = none;
    run_parameters = record { commit_id = codes "abc"; custom_parameters = [] };
    command = record {
      target_name = codes "t";
      subdir = codes "s";
      command = codes "make";
      arguments = [];
      pre_exec_bash_code = none;
    };
  };
  state = record { remaining_count = 1; remaining_error_budget = 3; last_working_directory = none };
  priority = true;
  current_boost = false;
}

-- Every commit is there; the state counts the questions.
abbrev polling_pool : PollingPool ℕ ℕ
polling_pool = record {
  open_polling_pool = λ n. (ok tt, n);
  commit_is_valid = λ commit n. (ok true, suc n);
  system_time = λ n. (ok 7, n);
}

abbrev queues : RunQueues Bool
queues = record {
  pipeline =
      record {
        file_name = codes "first";
        schedule_condition = ScheduleCondition.inactive;
        queue = queue_kv;
      }
      ∷ [];
  erroneous_jobs_queue = none;
  done_jobs_queue = none;
}

abbrev first_queue : RunQueue Bool
first_queue = record {
  file_name = codes "first";
  schedule_condition = ScheduleCondition.inactive;
  queue = queue_kv;
}

-- All directories are there and empty.
abbrev both_dirs : Disk
both_dirs = record (files_on []) { dirs = λ d. some [] }

-- A dry run finds one job to insert.
abbrev opts : Opts
opts = record { dry_run = true; force = false; quiet = true }

abbrev hash : BenchmarkingJobParameters → Bytes
hash p = codes "h1"

table_apart : same (codes "table") first_queue.queue.base_dir ≡ false
unfolding same
table_apart = refl

insert_jobs_lem_example :
    Ends
      (Done two_priorities job_json table_json hash polling_pool queues first_queue refl
        (codes "table")
        opts
        both_dirs
        table_apart
        (job ∷ []))
      (Failed two_priorities job_json table_json hash polling_pool queues first_queue refl
        (codes "table")
        opts
        both_dirs
        table_apart
        (job ∷ []))
      (insert_jobs two_priorities job_json table_json hash polling_pool
        (codes "table")
        queues
        opts
        (job ∷ [])
        (0, both_dirs))
insert_jobs_lem_example =
    insert_jobs_lem two_priorities job_json table_json hash polling_pool queues first_queue refl
      (codes "table") opts both_dirs table_apart (job ∷ []) 0
