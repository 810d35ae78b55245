-- ===== src/Run/Job.antt =====
-- Benchmarking jobs, evobench-tools/src/run/benchmarking_job.rs, with the parameters and commands of
-- evobench-tools/src/run/key.rs and config.rs that they carry.
pub mod Init
use evobench.Prelude.{
  ℕ, Bool, true, false, not, ◌&&◌, ◌||◌, Option, none, some, List, [], ◌∷◌, ◌==◌, if◌then◌else◌,
  keep,
}
use evobench.Prelude.Bytes.{Bytes, codes, same}
use evobench.Prelude.Outcome.{Outcome, ok, err, panic}
use evobench.Run.CustomParameter.{AllowedCustomParameter, CustomParameterValue}
use evobench.Run.CustomParameters
use evobench.Run.CustomParameters.{ParameterError}
use evobench.Run.Float.{Float64}
use evobench.Run.Priority

pub record BenchmarkingJobSettingsOpts : Type 0 where
  pub count : Option ℕ
  pub error_budget : Option ℕ

pub record BenchmarkingJobSettings : Type 0 where
  pub count : ℕ
  pub error_budget : ℕ

abbrev pub default_settings : BenchmarkingJobSettings
default_settings = record { count = 5; error_budget = 3 }

module _ {A : Type 0} where
  unfoldable pub or_else : Option A → Option A → Option A
  or_else none fallback = fallback
  or_else (some a) fallback = some a

  unfoldable pub unwrap_or : Option A → A → A
  unwrap_or none default = default
  unwrap_or (some a) default = a

unfoldable pub falling_back_to :
    BenchmarkingJobSettingsOpts → BenchmarkingJobSettingsOpts → BenchmarkingJobSettingsOpts
unfolding or_else
falling_back_to opts fallback = record {
  count = or_else opts.count fallback.count;
  error_budget = or_else opts.error_budget fallback.error_budget;
}

unfoldable pub complete : BenchmarkingJobSettingsOpts → BenchmarkingJobSettings
unfolding unwrap_or
complete opts = record {
  count = unwrap_or opts.count default_settings.count;
  error_budget = unwrap_or opts.error_budget default_settings.error_budget;
}

pub record RunParameters : Type 0 where
  pub commit_id : Bytes
  pub custom_parameters : List (Bytes × Bytes)

pub record BenchmarkingCommand : Type 0 where
  pub target_name : Bytes
  pub subdir : Bytes
  pub command : Bytes
  pub arguments : List Bytes
  pub pre_exec_bash_code : Option Bytes

pub record BenchmarkingJobPublic : Type 0 where
  pub reason : Option Bytes
  pub run_parameters : RunParameters
  pub command : BenchmarkingCommand

pub record BenchmarkingJobState : Type 0 where
  pub remaining_count : ℕ
  pub remaining_error_budget : ℕ
  pub last_working_directory : Option ℕ

pub record BenchmarkingJob (F : Type 0) : Type 0 where
  pub public : BenchmarkingJobPublic
  pub state : BenchmarkingJobState
  pub priority : F
  pub current_boost : F

pub record BenchmarkingJobParameters : Type 0 where
  pub run_parameters : RunParameters
  pub command : BenchmarkingCommand

pub record InsertBenchmarkingJobOpts (F : Type 0) : Type 0 where
  pub reason : Option Bytes
  pub benchmarking_job_settings : BenchmarkingJobSettingsOpts
  pub priority : Option F
  pub initial_boost : Option F

pub record BenchmarkingJobOpts (F : Type 0) : Type 0 where
  pub insert_benchmarking_job_opts : InsertBenchmarkingJobOpts F
  pub commit_id : Bytes

pub record JobTemplate (F : Type 0) : Type 0 where
  pub priority : F
  pub initial_boost : F
  pub command : BenchmarkingCommand
  pub custom_parameters : List (Bytes × Bytes)

unfoldable pub benchmarking_job_parameters :
    {F : Type 0} → BenchmarkingJob F → BenchmarkingJobParameters
benchmarking_job_parameters job = record {
  run_parameters = job.public.run_parameters;
  command = job.public.command;
}

-- The components of a path: its segments but the empty ones and, after the first one, those that are a dot. A path that
-- starts with a slash has a root, and no first segment.
segments : Bytes → List Bytes
segments [] = [] ∷ []
segments (c ∷ path) = if c == b'/' then [] ∷ segments path else add_byte c (segments path)
  where
    add_byte : ℕ → List Bytes → List Bytes
    add_byte c [] = (c ∷ []) ∷ []
    add_byte c (s ∷ ss) = (c ∷ s) ∷ ss

is_named : Bytes → Bool
is_named s = not (same s [] || same s (codes "."))

of_segments : List Bytes → Bool × List Bytes
of_segments [] = (false, [])
of_segments ([] ∷ []) = (false, [])
of_segments ([] ∷ s ∷ ss) = (true, keep is_named (s ∷ ss))
of_segments ((c ∷ first) ∷ ss) = (false, (c ∷ first) ∷ keep is_named ss)

unfoldable pub components : Bytes → Bool × List Bytes
unfolding segments of_segments is_named
components path = of_segments (segments path)

unfoldable pub same_list : List Bytes → List Bytes → Bool
same_list [] [] = true
same_list (a ∷ l) (b ∷ r) = same a b && same_list l r
same_list _ _ = false

same_bool : Bool → Bool → Bool
same_bool true b = b
same_bool false b = not b

-- Paths are equal by their components.
unfoldable pub same_path : Bytes → Bytes → Bool
unfolding same_list same_bool
same_path p q =
    same_bool (components p).0 (components q).0 && same_list (components p).1 (components q).1

unfoldable pub same_code : Option Bytes → Option Bytes → Bool
same_code none none = true
same_code (some a) (some b) = same a b
same_code _ _ = false

-- The derived equality.
unfoldable pub same_benchmarking_command : BenchmarkingCommand → BenchmarkingCommand → Bool
unfolding same_path same_list same_code
same_benchmarking_command a b =
    same a.target_name b.target_name
    && same_path a.subdir b.subdir
    && same a.command b.command
    && same_list a.arguments b.arguments
    && same_code a.pre_exec_bash_code b.pre_exec_bash_code

-- What is checked of a job when it is inserted: the target of the command is configured, the
-- parameters are allowed for it, and the command is the configured one.
pub data CheckError : Type 0 where
  target_not_found unexpected_command : CheckError
  invalid_parameters : ParameterError → CheckError

pub record BenchmarkingTarget : Type 0 where
  pub benchmarking_command : BenchmarkingCommand
  pub allowed_custom_parameters : List (Bytes × AllowedCustomParameter)

-- The part of the configuration that a job is checked against.
pub record Targets : Type 0 where
  pub benchmarking_job_settings : BenchmarkingJobSettingsOpts
  pub targets : List (Bytes × BenchmarkingTarget)

with_commit : Option Bytes → RunParameters → RunParameters
with_commit none p = p
with_commit (some commit) p = record p { commit_id = commit }

module _ {F : Type 0} where
  one_job : BenchmarkingJobOpts F → BenchmarkingJobSettings → JobTemplate F → BenchmarkingJob F
  unfolding unwrap_or
  one_job opts settings template =
      let insert_opts = opts.insert_benchmarking_job_opts in
      record {
        public = record {
          reason = insert_opts.reason;
          run_parameters = record {
            commit_id = opts.commit_id;
            custom_parameters = template.custom_parameters;
          };
          command = template.command;
        };
        state = record {
          remaining_count = settings.count;
          remaining_error_budget = settings.error_budget;
          last_working_directory = none;
        };
        priority = unwrap_or insert_opts.priority template.priority;
        current_boost = unwrap_or insert_opts.initial_boost template.initial_boost;
      }

  -- One job for each template.
  unfoldable pub complete_jobs :
      BenchmarkingJobOpts F → List (JobTemplate F) → List (BenchmarkingJob F)
  unfolding one_job complete
  complete_jobs opts [] = []
  complete_jobs opts (template ∷ templates) =
      one_job opts (complete opts.insert_benchmarking_job_opts.benchmarking_job_settings) template
      ∷ complete_jobs opts templates

  -- The first half of `check_and_init`: overrides, and the counts afresh.
  unfoldable pub init_job :
      Targets → InsertBenchmarkingJobOpts F → Option Bytes → BenchmarkingJob F → BenchmarkingJob F
  unfolding or_else unwrap_or falling_back_to complete with_commit
  init_job config override_opts override_commit job =
      let settings = complete (
        falling_back_to override_opts.benchmarking_job_settings config.benchmarking_job_settings) in
      record {
        public = record {
          reason = or_else override_opts.reason job.public.reason;
          run_parameters = with_commit override_commit job.public.run_parameters;
          command = job.public.command;
        };
        state = record {
          remaining_count = settings.count;
          remaining_error_budget = settings.error_budget;
          last_working_directory = none;
        };
        priority = unwrap_or override_opts.priority job.priority;
        current_boost = unwrap_or override_opts.initial_boost job.current_boost;
      }

  -- The checked parameters are dropped again.
  with_parameters :
      BenchmarkingJob F
      → BenchmarkingTarget
      → Outcome ParameterError (List (Bytes × CustomParameterValue))
      → Outcome CheckError (BenchmarkingJob F)
  with_parameters job target (ok checked) =
      if same_benchmarking_command job.public.command target.benchmarking_command
      then ok job
      else err unexpected_command
  with_parameters job target (err e) = err (invalid_parameters e)
  with_parameters job target panic = panic

  against : BenchmarkingJob F → Option BenchmarkingTarget → Outcome CheckError (BenchmarkingJob F)
  unfolding with_parameters
  against job none = err target_not_found
  against job (some target) = with_parameters job target (
      CustomParameters.checked_from job.public.run_parameters.custom_parameters
        target.allowed_custom_parameters)

  unfoldable pub check_and_init :
      Targets
      → InsertBenchmarkingJobOpts F
      → Option Bytes
      → Bool
      → BenchmarkingJob F
      → Outcome CheckError (BenchmarkingJob F)
  unfolding init_job against
  check_and_init config override_opts override_commit force_invalid job =
      let job' = init_job config override_opts override_commit job in
      if force_invalid
      then ok job'
      else against job' (CustomParameters.get job'.public.command.target_name config.targets)

module _ (f64 : Float64) where
  open f64 use {F}

  unfoldable pub job_priority : BenchmarkingJob F → Option F
  job_priority job = Priority.add f64 job.priority job.current_boost

  -- Everything is kept but the state, which is given, and the boost, which ends.
  unfoldable pub clone_for_queue_reinsertion :
      BenchmarkingJob F → BenchmarkingJobState → BenchmarkingJob F
  clone_for_queue_reinsertion job state = record {
    public = job.public;
    state = state;
    priority = job.priority;
    current_boost = Priority.normal f64;
  }
