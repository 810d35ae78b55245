-- ===== src/Run/Job/Init.antt =====
-- What a job is after `check_and_init`.
use mathlib.Core.Path.{subst}
use evobench.Prelude.{
  ℕ, ◌≡◌, refl, ◌⊎◌, inl, inr, Bool, true, false, Option, none, some, List, [], ◌∷◌, Bool-cases,
  ◌&&◌, ap,
}
use evobench.Prelude.Bytes.{Bytes, same, same_iff}
use evobench.Prelude.Outcome.{Outcome, ok, err, panic}
use evobench.Run.CustomParameter.{CustomParameterValue}
use evobench.Run.CustomParameters
use evobench.Run.CustomParameters.{ParameterError, AreChecked, AreGiven, checked_from_lem}
use evobench.Run.Job.{
  BenchmarkingJob, BenchmarkingCommand, BenchmarkingTarget, InsertBenchmarkingJobOpts, Targets,
  CheckError, init_job, with_parameters, against, check_and_init, components, same_list, same_bool,
  same_path, same_code, same_benchmarking_command, or_else, unwrap_or, falling_back_to, complete,
}

-- The first value that is given, or the default.
abbrev pub first_given : List (Option ℕ) → ℕ → ℕ
first_given [] default = default
first_given (none ∷ os) default = first_given os default
first_given (some n ∷ os) default = n

and_true : (a b : Bool) → (a && b) ≡ true → (a ≡ true) × (b ≡ true)
and_true true b h = (refl, h)
and_true false b h = absurd (cc h)

all_true :
    (a b c d e : Bool)
    → (a && b && c && d && e) ≡ true
    → (a ≡ true) × ((b ≡ true) × ((c ≡ true) × ((d ≡ true) × (e ≡ true))))
all_true a b c d e h =
    let (r1, h5) = and_true (a && b && c && d) e h in
    let (r2, h4) = and_true (a && b && c) d r1 in
    let (r3, h3) = and_true (a && b) c r2 in
    let (h1, h2) = and_true a b r3 in (h1, (h2, (h3, (h4, h5))))

unwrap_or-or_else :
    (a b : Option ℕ) (d : ℕ) → unwrap_or (or_else a b) d ≡ first_given (a ∷ b ∷ []) d
unfolding unwrap_or or_else
unwrap_or-or_else none none d = refl
unwrap_or-or_else none (some n) d = refl
unwrap_or-or_else (some n) b d = refl

same_list-eq : (l r : List Bytes) → same_list l r ≡ true → l ≡ r
unfolding same_list
same_list-eq [] [] h = refl
same_list-eq [] (b ∷ r) h = cc
same_list-eq (a ∷ l) [] h = cc
same_list-eq (a ∷ l) (b ∷ r) h =
    let (first, rest) = and_true _ _ h in
    let e : a ≡ b = (same_iff a b).0 first in let f : l ≡ r = same_list-eq l r rest in cc (e, f)

same_code-eq : (a b : Option Bytes) → same_code a b ≡ true → a ≡ b
unfolding same_code
same_code-eq none none h = refl
same_code-eq none (some b) h = cc
same_code-eq (some a) none h = cc
same_code-eq (some a) (some b) h = ap some ((same_iff a b).0 h)

same_bool-eq : (a b : Bool) → same_bool a b ≡ true → a ≡ b
unfolding same_bool
same_bool-eq true true h = refl
same_bool-eq true false h = cc
same_bool-eq false true h = cc
same_bool-eq false false h = refl

-- The same command, but that the path of the directory may be spelled in another way.
pub record IsCommand (a b : BenchmarkingCommand) : Type 0 where
  pub target_name : a.target_name ≡ b.target_name
  pub rooted : (components a.subdir).0 ≡ (components b.subdir).0
  pub subdir : (components a.subdir).1 ≡ (components b.subdir).1
  pub command : a.command ≡ b.command
  pub arguments : a.arguments ≡ b.arguments
  pub pre_exec_bash_code : a.pre_exec_bash_code ≡ b.pre_exec_bash_code

same_benchmarking_command-IsCommand :
    (a b : BenchmarkingCommand) → same_benchmarking_command a b ≡ true → IsCommand a b
unfolding same_benchmarking_command same_path
same_benchmarking_command-IsCommand a b h =
    let (h1, (h2, (h3, (h4, h5)))) =
      all_true (same a.target_name b.target_name) (same_path a.subdir b.subdir)
        (same a.command b.command) (same_list a.arguments b.arguments)
        (same_code a.pre_exec_bash_code b.pre_exec_bash_code) h in
    let (h6, h7) =
      and_true (same_bool (components a.subdir).0 (components b.subdir).0)
        (same_list (components a.subdir).1 (components b.subdir).1) h2 in
    record {
      target_name = (same_iff a.target_name b.target_name).0 h1;
      rooted = same_bool-eq _ _ h6;
      subdir = same_list-eq _ _ h7;
      command = (same_iff a.command b.command).0 h3;
      arguments = same_list-eq _ _ h4;
      pre_exec_bash_code = same_code-eq _ _ h5;
    }

module _ {F : Type 0} where
  -- The command of the job is the one that is configured for its target, and its parameters are the ones that are
  -- allowed and required there, with values of the configured types.
  pub record Configured (config : Targets) (job : BenchmarkingJob F) : Type 0 where
    pub target : BenchmarkingTarget
    pub found : CustomParameters.get job.public.command.target_name config.targets ≡ some target
    pub same_command : IsCommand job.public.command target.benchmarking_command
    pub values : List (Bytes × CustomParameterValue)
    pub allowed :
        AreChecked target.allowed_custom_parameters job.public.run_parameters.custom_parameters
          values
    pub given : AreGiven target.allowed_custom_parameters values

  with_parameters-Configured :
      (config : Targets) (job job' : BenchmarkingJob F) (target : BenchmarkingTarget)
      → CustomParameters.get job.public.command.target_name config.targets ≡ some target
      → (r : Outcome ParameterError (List (Bytes × CustomParameterValue)))
      → CustomParameters.checked_from job.public.run_parameters.custom_parameters
          target.allowed_custom_parameters
        ≡ r
      → with_parameters job target r ≡ ok job'
      → (job ≡ job') × Configured config job
  unfolding with_parameters
  with_parameters-Configured config job job' target found (ok values) checked h =
      let (allowed, given) =
        checked_from_lem job.public.run_parameters.custom_parameters
          target.allowed_custom_parameters values checked in
      elim (Bool-cases (same_benchmarking_command job.public.command target.benchmarking_command)) [
        | inl agrees ↦ (
          accepted (ok job) refl (rw agrees at h),
          record {
            target = target;
            found = found;
            same_command = same_benchmarking_command-IsCommand _ _ agrees;
            values = values;
            allowed = allowed;
            given = given;
          },
        )
        | inr differs ↦ absurd (cc (rw differs at h))
      ]
    where
      accepted :
          (r : Outcome CheckError (BenchmarkingJob F)) → r ≡ ok job → r ≡ ok job' → job ≡ job'
      accepted r e f = cc
  with_parameters-Configured config job job' target found (err e) checked h = absurd (cc h)
  with_parameters-Configured config job job' target found panic checked h = absurd (cc h)

  against-Configured :
      (config : Targets) (job job' : BenchmarkingJob F) (o : Option BenchmarkingTarget)
      → CustomParameters.get job.public.command.target_name config.targets ≡ o
      → against job o ≡ ok job'
      → (job ≡ job') × Configured config job
  unfolding against
  against-Configured config job job' none found h = absurd (cc h)
  against-Configured config job job' (some target) found h =
      with_parameters-Configured config job job' target found _ refl h

  -- What is set up afresh.
  abbrev pub Initialized :
      Targets → InsertBenchmarkingJobOpts F → BenchmarkingJob F → BenchmarkingJob F → Type 0
  Initialized config opts job job' =
      (job'.state.remaining_count
        ≡ first_given
            (opts.benchmarking_job_settings.count ∷ config.benchmarking_job_settings.count ∷ []) 5)
      × ((job'.state.remaining_error_budget
            ≡ first_given
                (opts.benchmarking_job_settings.error_budget
                  ∷ config.benchmarking_job_settings.error_budget ∷ [])
                3)
          × ((job'.state.last_working_directory ≡ none)
              × (job'.public.command ≡ job.public.command)))

  init_job-Initialized :
      (config : Targets) (opts : InsertBenchmarkingJobOpts F) (commit : Option Bytes)
      (job : BenchmarkingJob F)
      → Initialized config opts job (init_job config opts commit job)
  unfolding init_job complete falling_back_to
  init_job-Initialized config opts commit job = (
    unwrap_or-or_else opts.benchmarking_job_settings.count config.benchmarking_job_settings.count 5,
    (
      unwrap_or-or_else opts.benchmarking_job_settings.error_budget
          config.benchmarking_job_settings.error_budget 3,
      (refl, refl),
    ),
  )

  -- A job that `check_and_init` accepts has as many runs and as large an error budget left as the
  -- override says, or else the configuration, or else 5 and 3; it has no working directory and keeps its
  -- command. Unless invalid jobs are forced, that command is the one that is configured for its
  -- target, but for the spelling of the path, and its parameters are allowed for the target, have values of the types
  -- that are configured, and include all that are required.
  pub check_and_init_lem :
      (config : Targets) (opts : InsertBenchmarkingJobOpts F) (commit : Option Bytes)
      (force_invalid : Bool) (job job' : BenchmarkingJob F)
      → check_and_init config opts commit force_invalid job ≡ ok job'
      → Initialized config opts job job' × ((force_invalid ≡ true) ⊎ Configured config job')
  unfolding check_and_init
  check_and_init_lem config opts commit true job job' h =
      let e : init_job config opts commit job ≡ job' = cc in
      (
        subst (Initialized config opts job) e (init_job-Initialized config opts commit job),
        inl refl,
      )
  check_and_init_lem config opts commit false job job' h =
      let (e, configured) =
        against-Configured config (init_job config opts commit job) job' _ refl h in
      (
        subst (Initialized config opts job) e (init_job-Initialized config opts commit job),
        inr (subst (Configured config) e configured),
      )
