-- ===== src/Lib.antt =====
-- Verification of evobench-tools, the scheduler of benchmarking jobs of this repository: the database
-- of files that holds the job queues, the queues and their pipeline, the daily time windows in which
-- queues run, and the durations that benchmarks are measured in.
--
-- The daemon loads all queues of the pipeline, chooses the most prioritized job of the queues that
-- can run at the time, runs it, and puts it into the queue where it goes next; each queue is a
-- directory with one file for each job, written by way of a temporary file.
--
--   Prelude      results of fallible code and actions on a state (Outcome), what an action guarantees
--                of the states in which it ends (Hoare), lists, texts as bytes (Bytes), and decimal
--                numbers as the standard library prints and parses them (Decimal)
--   KeyValFs     evobench-tools/src/key_val_fs
--     AsKey        as_key.rs: the trait AsKey, and serde_json, as interfaces
--     Disk         what the database calls of std::fs. The state holds the faults to come, so every
--                  error path can be followed; Disk.Effects says what each call does to the files
--     KeyVal       key_val.rs: open, insert, delete, get, keys and entries; `store` is the part of
--                  `insert` that writes. KeyVal.Insert proves what `insert` guarantees
--     TimeKey      queue.rs: the keys of queue entries and their file names
--     Queue        queue.rs: items, their locks and deletion, and iteration (`items` is over_items);
--                  Queue.Push says what adding and deleting do to the files of other items, Queue.Adds that they stay
--   Run          evobench-tools/src/run
--     Float        f64 as an interface, with the laws of its comparison as named hypotheses
--     Priority     ../serde_types/priority.rs, and Iterator::min_by_key
--     Schedule     config.rs: ScheduleCondition. Schedule.Window is date_and_time/time_ranges.rs over
--                  the calendar `chrono`, an interface
--     Job          benchmarking_job.rs: jobs, their settings, checks (Job.Init) and reinsertion
--     RunQueue     run_queue.rs: loading a queue (`data` is data_of), running a job (run_job, whose
--                  branches are new_status, one_run, after_failure and after_success) and
--                  handle_timeout. The runner of a job is an argument
--     RunQueues    run_queues.rs: checking and opening the pipeline (RunQueues.Check says
--                  which configurations are accepted); RunQueues.Data loads the queues
--                  (`data` is load) and chooses a job (most_prioritized_job, choose)
--     StopStartStatus  stop_start_status.rs: the commands that are stopped while jobs run (Protocol)
--     InsertJobs   insert_jobs.rs: the checks of the jobs (Checks) and their insertion (Inserting). The polling pool is an
--                  interface
--     CustomParameter, CustomParameters  custom_parameter.rs and key.rs: the checked values of parameters, and those of a
--                  job. `checked_from` of a value asks `passes` first
--     PollingPool  polling_pool.rs: the lookup of commits (Commits) and of branches and references (Resolving) in the one
--                  directory of a pool; Reading says what every such lookup guarantees
--     RunContext   run_context.rs: the open queues, and the actions that close them (Closing)
--     WorkingDirectory      working_directory.rs: statuses, saving them (Saving), commits and `checkout` (Checkout),
--                  and needs_cleanup (Cleanup). Git and the file system are the interface Host
--     WorkingDirectoryPool  working_directory_pool.rs: identifiers (Id), the map of entries (Entries), opening (Open,
--                  with Scan for the names in the directory), the choice of a directory (Choice),
--                  processing and clean-up (Process, Process.Errors), and sequences of calls (Reach)
--   SerdeTypes   evobench-tools/src/serde_types: GitHash is git_hash.rs, ProperFilename is proper_filename.rs and
--                proper_dirname.rs, AllowedEnvVar is allowed_env_var.rs with ../run/env_vars.rs
--   Times        evobench-tools/src/times.rs: MicroTime and NanoTime, which are one record here with
--                the number of parts in a second as an argument
--   DigitNum     evobench-tools/src/digit_num.rs: the number that digits stand for (Value), printing (Layout)
--   Join         evobench-tools/src/join.rs: the join of two sequences (Two) and of any number (Many)
--   Evaluator    evobench-tools/src/evaluator/data
--     LogMessage   log_message.rs: the messages of a log
--     LogDataTree  log_data_tree.rs: the tree of spans, `from_logdata` (FromLogdata) and `path_string` (Path). Frames
--                  is what it promises: stacks of frames and pairs of timings; Refine relates the two
--   Tests        instances of the interfaces, and the theorems at concrete inputs
--
-- A function that can return an error or panic gives an Outcome, or an option where it can only do
-- one of them. Texts are lists of bytes. Numbers are natural numbers with the bounds of their type
-- written out; the program is built with overflow checks, so an overflow is a panic. Times are
-- instants counted in a fixed unit. The loop of `rchunks(3)` and the printing of decimal numbers run
-- on fuel, which is the number of bytes and the number itself: each round takes away at least one byte,
-- or divides by ten. The join of sequences has their number as fuel: each call has fewer of them. The
-- path of a span has the number of the span as fuel: a parent has a smaller number.
--
-- Logging is left out, and so are the paths in error values. A file system is a function from
-- directories to files; other processes appear only as locks that are held and as faults. Not
-- modelled are the runner of the jobs, the reading of log files and the statistics on them, the tables, git, the
-- configuration files and the command line programs.
pub mod Prelude
pub mod KeyValFs
pub mod SerdeTypes
pub mod Run
pub mod Times
pub mod DigitNum
pub mod Join
pub mod Tests
pub mod Evaluator
