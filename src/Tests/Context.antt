-- ===== src/Tests/Context.antt =====
-- The theorem on the run context at a concrete input.
use evobench.Prelude.{◌≡◌, Bool, true, false, none, List, [], ◌∷◌, leb, Any}
use evobench.Prelude.Bytes.{codes}
use evobench.Prelude.Hoare.{Ends}
use evobench.KeyValFs.AsKey.{Json}
use evobench.KeyValFs.Disk.{Disk}
use evobench.Run.Job.{BenchmarkingJob}
use evobench.Run.Schedule.{local_naive_time_window, TimeWindow}
use evobench.Run.RunQueue.{RunQueue}
use evobench.Run.RunQueues.{get_run_queue_with_next_by_name}
use evobench.Run.RunContext.{RunContext, OpenQueue, closing, close_open_queues}
use evobench.Run.RunContext.Closing.{found, Closed, Within, close_open_queues_lem}
use evobench.Tests.Instances.{two_priorities, files_on, queue_kv}

abbrev empty_queue : Disk
empty_queue = files_on []

abbrev some_json : Json (BenchmarkingJob Bool)
some_json = record { to_string = λ j. none; from_str = λ s. none; reads_back = λ j s e. cc }

abbrev nightly : TimeWindow Bool
nightly = record {
  priority = none;
  situation = codes "night";
  stop_start = none;
  repeatedly = true;
  moves = true;
  from = record { hour = 22; minute = 0; second = 0 };
  to = record { hour = 6; minute = 0; second = 0 };
}

abbrev run_queues : List (RunQueue Bool)
run_queues =
    record {
      file_name = codes "queue";
      schedule_condition = local_naive_time_window nightly;
      queue = queue_kv;
    }
    ∷ []

-- The window of one queue is over; another queue that is past its end is not in the pipeline.
abbrev context : RunContext
context = record {
  stop_start_status = record { current_stop_start = none };
  open_queues = (codes "gone", 50) ∷ (codes "queue", 100) ∷ [];
}

close_open_queues_lem_example :
    Ends
      (λ _ s.
        ((q : OpenQueue)
          → Any (λ x. x ≡ q) s.0.open_queues
          → leb q.1 200 ≡ true
          → found (get_run_queue_with_next_by_name run_queues q.0) ≡ false)
        × Closed two_priorities some_json run_queues (closing 200 context.open_queues) context s.0)
      (λ s. Within two_priorities some_json context s.0)
      (close_open_queues two_priorities some_json 200 run_queues (context, empty_queue))
close_open_queues_lem_example =
    close_open_queues_lem two_priorities some_json 200 run_queues context empty_queue
