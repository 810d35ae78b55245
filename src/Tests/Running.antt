-- ===== src/Tests/Running.antt =====
-- The theorems on the database and on the queues at concrete inputs.
use evobench.Prelude.{
  arith, ℕ, ◌≡◌, ◌↔◌, ◌⊎◌, refl, Bool, true, false, Option, none, some, List, [], ◌∷◌,
}
use Prim.Native.Nat.{Ordering}
use evobench.Prelude.Bytes.{Bytes, codes, same}
use evobench.Prelude.Outcome.{ok}
use evobench.Prelude.Hoare.{Ends}
use evobench.KeyValFs.AsKey.{verified_as_filename_str, is_filename, Json}
use evobench.KeyValFs.Disk.{Disk, view}
use evobench.KeyValFs.Disk.Files
use evobench.KeyValFs.TimeKey.{TimeKey, as_filename_str}
use evobench.KeyValFs.KeyVal
use evobench.KeyValFs.KeyVal.Insert.{Stored, Fresh, Kept, insert_atomic}
use evobench.KeyValFs.Queue.{time_key, QueueItem, not_locked}
use evobench.KeyValFs.Queue.Push.{IsVisible}
use evobench.Run.Schedule.{ScheduleCondition, local_naive_time_window, TimeWindow, is_runnable_at}
use evobench.Run.Schedule.Window.{
  LocalNaiveTime, after_datetime, starting_on, unambiguous_local, crosses_day_boundary, contains,
}
use evobench.Run.Schedule.Window.After.{Sound, after_datetime-Sound}
use evobench.Run.Schedule.Window.Runnable.{is_runnable_at_lem}
use evobench.Run.Job.{BenchmarkingJob}
use evobench.Run.RunQueue.{RunQueue, RunQueueWithNext, RunQueueData, Run, run_job}
use evobench.Run.RunQueue.Keeps.{Present, Gone, Fate, run_job_keeps}
use evobench.Run.RunQueues.{RunQueues, check_run_queues}
use evobench.Run.RunQueues.Check.{check_run_queues-Valid}
use evobench.Run.RunQueues.Check.Steps.{Valid}
use evobench.Run.RunQueues.Data.Index.{positions, load-jobs_by_commit_id}
use evobench.Run.CustomParameter.{CustomParameterType}
use evobench.Run.Job.{Targets, InsertBenchmarkingJobOpts, check_and_init}
use evobench.Run.Job.Init.{Initialized, Configured, check_and_init_lem}
use evobench.Run.RunQueues.Data.{jobs_by_commit_id, load, run_queue_with_nexts, choose}
use evobench.Run.RunQueues.Data.Choice.{Chosen, Same, choose_lem}
use evobench.Prelude.Decimal.{decimal}
use evobench.Tests.Instances.{
  text_json, two_priorities, two_priorities-IsOrdered, utc, utc-IsCalendar, files_on, queue_kv,
}

-- From 22:00 to 6:00.
abbrev ten_pm : LocalNaiveTime
ten_pm = record { hour = 22; minute = 0; second = 0 }

abbrev six_am : LocalNaiveTime
six_am = record { hour = 6; minute = 0; second = 0 }

abbrev nightly : TimeWindow Bool
nightly = record {
  priority = none;
  situation = codes "night";
  stop_start = none;
  repeatedly = true;
  moves = false;
  from = ten_pm;
  to = six_am;
}

-- 1:00 on the third day is in the window of the second.
after_datetime-Sound_example :
    Sound utc utc-IsCalendar
      (record { from = ten_pm; to = six_am })
      176400
      ℕ
      true
      (after_datetime utc (record { from = ten_pm; to = six_am }) 176400 true)
after_datetime-Sound_example =
    after_datetime-Sound utc utc-IsCalendar (record { from = ten_pm; to = six_am }) 176400 ℕ true
      (omega arith, (omega arith, omega arith)) (omega arith, (omega arith, omega arith))

is_runnable_at_lem_example :
    is_runnable_at utc {E = ℕ} (local_naive_time_window nightly) 176400
    ≡ ok (some (some (record { from = 165600; to = 194400 })))
unfolding starting_on unambiguous_local is_runnable_at crosses_day_boundary contains
is_runnable_at_lem_example =
    is_runnable_at_lem utc utc-IsCalendar nightly 176400 (record { from = 252000; to = 280800 })
      (record { from = 165600; to = 194400 }) {nd = 1} refl refl refl

abbrev new_key : TimeKey
new_key = record { nanos = 5; pid = 7; id = 0 }

abbrev new_name : Bytes
new_name = codes "5-7-0"

-- One item is there; the value of another key is added.
abbrev one_item : Disk
one_item = files_on ((codes "3-7-0", codes "old") ∷ [])

insert_atomic_example :
    Ends
      (λ _ w'.
        Stored queue_kv new_name (codes "value") one_item w'
        × Fresh queue_kv new_name (codes "value") one_item true)
      (Kept queue_kv new_name (codes "value") one_item true)
      (KeyVal.insert time_key text_json queue_kv new_key (codes "value") true one_item)
unfolding verified_as_filename_str is_filename as_filename_str decimal
insert_atomic_example =
    insert_atomic time_key text_json queue_kv new_key (codes "value") true new_name (codes "value")
      one_item refl refl

abbrev job : BenchmarkingJob Bool
job = record {
  public = record {
    reason = none;
    run_parameters = record { commit_id = codes "abc"; custom_parameters = [] };
    command = record {
      target_name = codes "t";
      subdir = codes "s";
      command = codes "make";
      arguments = [];
      pre_exec_bash_code = none;
    };
  };
  state = record { remaining_count = 1; remaining_error_budget = 3; last_working_directory = none };
  priority = true;
  current_boost = false;
}

-- The last run of a job that nothing retains: no job is serialized.
abbrev some_json : Json (BenchmarkingJob Bool)
some_json = record { to_string = λ j. none; from_str = λ s. none; reads_back = λ j s e. cc }

abbrev queue : RunQueue Bool
queue = record {
  file_name = codes "queue";
  schedule_condition = local_naive_time_window nightly;
  queue = queue_kv;
}

abbrev rq : RunQueueWithNext Bool
rq = record { current = queue; next = none }

abbrev item : QueueItem
item = record { file_name = codes "3-7-0"; perhaps_lock = not_locked }

abbrev runner : ℕ → Option Bytes → ScheduleCondition Bool → Run (Unit {0}) (Unit {0})
runner wd reason condition s = (ok tt, s)

item-IsVisible : IsVisible item.file_name
unfolding same KeyVal.tmp_name
item-IsVisible name = refl

run_job_keeps_example :
    Ends
      (λ status s'.
        Gone two_priorities some_json runner rq job none none 1 item (codes "old") item-IsVisible s'
        × Fate two_priorities some_json runner rq job none none 1 item
            (codes "old")
            item-IsVisible
            status
            s'.0)
      (Present two_priorities some_json runner rq job none none 1 item (codes "old") item-IsVisible)
      (run_job two_priorities some_json runner rq job none none 1 item (one_item, tt))
unfolding view Files.lookup same
run_job_keeps_example =
    run_job_keeps two_priorities some_json runner rq job none none 1 item (codes "old")
      item-IsVisible (record { at = λ s h. h }) (one_item, tt) refl

abbrev some_entry : TimeKey × BenchmarkingJob Bool × Bool
some_entry = (new_key, job, true)

abbrev loaded : List (RunQueueData Bool)
loaded = record { run_queue = queue; queue_data = some_entry ∷ [] } ∷ []

choose_lem_example :
    Ends
      (λ best w'.
        Same two_priorities two_priorities-IsOrdered utc 176400 one_item w'
        × Chosen two_priorities two_priorities-IsOrdered utc 176400 best
            (run_queue_with_nexts loaded))
      (Same two_priorities two_priorities-IsOrdered utc 176400 one_item)
      (choose two_priorities utc 176400 loaded one_item)
unfolding run_queue_with_nexts
choose_lem_example =
    choose_lem two_priorities two_priorities-IsOrdered utc 176400 loaded one_item
      (((Ordering.gt, refl), tt), tt)

abbrev two_queues : RunQueues Bool
two_queues = record {
  pipeline =
      queue
      ∷ record {
        file_name = codes "rest";
        schedule_condition = ScheduleCondition.inactive;
        queue = queue_kv;
      }
      ∷ [];
  erroneous_jobs_queue = none;
  done_jobs_queue = none;
}

check_run_queues-Valid_example : (check_run_queues two_queues ≡ ok tt) ↔ Valid two_queues
check_run_queues-Valid_example = check_run_queues-Valid two_queues

-- A job with a parameter, and a configuration that knows its command, in a path that is spelled in another way, and
-- requires the parameter.
abbrev with_dataset : BenchmarkingJob Bool
with_dataset = record job {
  public = record (job.public) {
    run_parameters = record {
      commit_id = codes "abc";
      custom_parameters = (codes "DATASET", codes "sars") ∷ [];
    };
  };
}

abbrev targets : Targets
targets = record {
  benchmarking_job_settings = record { count = none; error_budget = some 2 };
  targets =
      (
        codes "t",
        record {
          benchmarking_command = record (job.public.command) { subdir = codes "s//./" };
          allowed_custom_parameters =
              (codes "DATASET", record { required = true; type = CustomParameterType.dirname })
              ∷ [];
        },
      )
      ∷ [];
}

abbrev overrides : InsertBenchmarkingJobOpts Bool
overrides = record {
  reason = none;
  benchmarking_job_settings = record { count = some 10; error_budget = none };
  priority = none;
  initial_boost = none;
}

abbrev inserted : BenchmarkingJob Bool
inserted = record with_dataset {
  state = record {
    remaining_count = 10;
    remaining_error_budget = 2;
    last_working_directory = none;
  };
}

check_and_init_lem_example :
    Initialized targets overrides with_dataset inserted
    × ((false ≡ true) ⊎ Configured targets inserted)
unfolding check_and_init evobench.Run.CustomParameters.get evobench.Prelude.Bytes.same
    evobench.Run.CustomParameters.checked_from evobench.SerdeTypes.AllowedEnvVar.from_str
    evobench.Run.CustomParameter.checked_from evobench.SerdeTypes.ProperFilename.is_proper_dirname
    evobench.Run.Job.same_benchmarking_command evobench.Run.Job.components
check_and_init_lem_example =
    check_and_init_lem targets overrides none false with_dataset inserted refl

load-jobs_by_commit_id_example :
    Ends
      (λ data' _. (c : Bytes) → jobs_by_commit_id data' c ≡ positions c 0 data'.pipeline_data)
      (λ _. Unit)
      (load two_priorities some_json two_queues (files_on []))
load-jobs_by_commit_id_example =
    load-jobs_by_commit_id two_priorities some_json two_queues (files_on [])
