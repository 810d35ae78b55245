-- ===== src/Run/InsertJobs/Checks.antt =====
-- What is inserted: the checks decide by the table as it was, and nothing is written before all of them are done.
use evobench.Prelude.{
  ℕ, ◌≡◌, refl, sym, ◌⊎◌, inl, inr, Bool, true, false, Option, none, some, List, [], ◌∷◌,
  if◌then◌else◌,
}
use evobench.Prelude.Bytes.{Bytes}
use evobench.Prelude.Outcome.{Outcome, ok, err, panic, pure, fail, map_err, map_err_at}
use evobench.Prelude.Hoare.{Ends}
use evobench.Prelude.Local.{outside}
use evobench.Prelude.Local.Steps.{bind-Ends, if-Ends}
use evobench.KeyValFs.AsKey.{Json}
use evobench.KeyValFs.Disk.{Disk, view}
use evobench.KeyValFs.Disk.Effects.{SameAs}
use evobench.KeyValFs.KeyVal
use evobench.KeyValFs.KeyVal.{KeyVal, KeyValError, Db, Entry}
use evobench.KeyValFs.KeyVal.Reads.{content_of, entry_opt_lem, entry_get_lem}
use evobench.Run.Float.{Float64}
use evobench.Run.Job.{BenchmarkingJob, BenchmarkingJobParameters}
use evobench.Run.InsertJobs.{
  hash_key, Inserted, Opts, InsertError, key_val, PollingPool, Checked, hash_of, valid_commit,
  check_entry, ToInsert, add_checked, check_jobs, on_disk, on_pool,
}

abbrev pub into_error : {E : Type 0} → KeyValError → InsertError E
into_error e = key_val e

module _ (E : Type 0) {P A : Type 0} where
  pub outside_at :
      (Post : A → Disk → Type 0) (Bad : Disk → Type 0) (x : Outcome KeyValError A × Disk) (p : P)
      → Ends Post Bad x
      → Ends {S = P × Disk}
          (λ a s. Post a s.1)
          (λ s. Bad s.1)
          ((map_err_at x (into_error {E = E})).0, (p, (map_err_at x (into_error {E = E})).1))
  outside_at Post Bad (ok a, w) p h = h
  outside_at Post Bad (err e, w) p h = h
  outside_at Post Bad (panic, w) p h = h

  pub pool_at :
      (x : Outcome E A × P) (w : Disk)
      → Ends {S = P × Disk}
          (λ a s. (s.1 ≡ w) × (x ≡ (ok a, s.0)))
          (λ s. s.1 ≡ w)
          ((map_err_at x InsertError.polling).0, ((map_err_at x InsertError.polling).1, w))
  pool_at (ok a, p) w = (refl, refl)
  pool_at (err e, p) w = refl
  pool_at (panic, p) w = refl

module _ (f64 : Float64) (job_json : Json (BenchmarkingJob f64.F)) (json : Json Inserted)
    (crypto_hash : BenchmarkingJobParameters → Bytes) {P E : Type 0} (pool : PollingPool P E)
    (base : Bytes) (opts : Opts) (w0 : Disk) where
  open f64 use {F}

  -- The polling pool said that the commit exists.
  abbrev pub Confirmed : BenchmarkingJob F → Type 0
  Confirmed job =
      (p : P) × ((p' : P) × (pool.commit_is_valid job.public.run_parameters.commit_id p
          ≡ (ok true, p')))

  -- What the table has for a job.
  abbrev pub recorded : BenchmarkingJob F → Option Bytes
  recorded job = view w0 base (hash_of crypto_hash job)

  -- A job that is in the table is inserted only by force, with its earlier times.
  abbrev pub Judged : BenchmarkingJob F → Checked → Type 0
  Judged job (Checked.to_insert times) =
      Confirmed job
      × (((recorded job ≡ none) × (times ≡ []))
          ⊎ ((opts.force ≡ true)
              × ((c : Bytes) × ((recorded job ≡ some c)
                    × ((params : BenchmarkingJobParameters) × (json.from_str c
                          ≡ some (params, times)))))))
  Judged job (Checked.known inserted) =
      (opts.force ≡ false)
      × ((opts.quiet ≡ false)
          × ((c : Bytes) × ((recorded job ≡ some c) × (json.from_str c ≡ some inserted))))
  Judged job Checked.skipped =
      (opts.force ≡ false) × ((opts.quiet ≡ true) × ((c : Bytes) × (recorded job ≡ some c)))

  abbrev pub AllJudged : List (BenchmarkingJob F) → List (ToInsert F) × List Inserted → Type 0
  AllJudged [] r = r ≡ ([], [])
  AllJudged (job ∷ jobs) r =
      (checked : Checked) × (Judged job checked
        × ((rest : List (ToInsert F) × List Inserted) × (AllJudged jobs rest
              × (r ≡ add_checked checked job rest))))

  abbrev pub Same : P × Disk → Type 0
  Same s = SameAs w0 s.1

  pub on_disk_at :
      {A : Type 0} (Post : A → Disk → Type 0) (m : Db A) (s : P × Disk)
      → Ends {S = Disk} Post (SameAs w0) (m s.1)
      → Ends {S = P × Disk} (λ a t. Post a t.1) Same (outside (map_err m (into_error {E = E})) s)
  on_disk_at Post m (p, w) h = outside_at E Post (SameAs w0) (m w) p h

  valid_commit_lem :
      (job : BenchmarkingJob F) (times : List ℕ) (s : P × Disk)
      → Same s
      → (Confirmed job → Judged job (Checked.to_insert times))
      → Ends {S = P × Disk}
          (λ checked t. Judged job checked × Same t)
          Same
          (valid_commit f64 job_json json crypto_hash pool job times s)
  unfolding valid_commit
  valid_commit_lem job times (p, w) h judged =
      bind-Ends {S = P × Disk} _ Same
        (λ b t. Same t × (pool.commit_is_valid job.public.run_parameters.commit_id p ≡ (ok b, t.0)))
        (on_pool f64 job_json json crypto_hash pool
          (pool.commit_is_valid job.public.run_parameters.commit_id))
        _ (p, w)
        (moved (pool.commit_is_valid job.public.run_parameters.commit_id p)
          (pool_at E (pool.commit_is_valid job.public.run_parameters.commit_id p) w))
        λ b t (k, e). confirmed b t k e
    where
      moved :
          (x : Outcome E Bool × P)
          → Ends {S = P × Disk}
              (λ a s. (s.1 ≡ w) × (x ≡ (ok a, s.0)))
              (λ s. s.1 ≡ w)
              ((map_err_at x InsertError.polling).0, ((map_err_at x InsertError.polling).1, w))
          → Ends {S = P × Disk}
              (λ b t. Same t × (x ≡ (ok b, t.0)))
              Same
              ((map_err_at x InsertError.polling).0, ((map_err_at x InsertError.polling).1, w))
      moved (ok a, p') k = (h, refl)
      moved (err e, p') k = h
      moved (panic, p') k = h

      confirmed :
          (b : Bool) (t : P × Disk)
          → Same t
          → pool.commit_is_valid job.public.run_parameters.commit_id p ≡ (ok b, t.0)
          → Ends {S = P × Disk} {E = InsertError E}
              (λ checked t. Judged job checked × Same t)
              Same
              ((if b
                  then pure (Checked.to_insert times)
                  else fail (InsertError.commit_missing job.public.run_parameters.commit_id))
                t)
      confirmed true t k e = (judged (p, (t.0, e)), k)
      confirmed false t k e = k

  check_entry_lem :
      (job : BenchmarkingJob F) (o : Option Entry) (s : P × Disk)
      → Same s
      → content_of o ≡ recorded job
      → Ends {S = P × Disk}
          (λ checked t. Judged job checked × Same t)
          Same
          (check_entry f64 job_json json crypto_hash pool opts job o s)
  unfolding check_entry
  check_entry_lem job none s h e = valid_commit_lem job [] s h (λ c. (c, inl (sym e, refl)))
  check_entry_lem job (some entry) s h e =
      bind-Ends {S = P × Disk} _ Same
        (λ inserted t. SameAs w0 t.1 × (json.from_str entry.content ≡ some inserted))
        (on_disk f64 job_json json crypto_hash pool (KeyVal.entry_get hash_key json entry)) _ s
        (on_disk_at _ (KeyVal.entry_get hash_key json entry) s
          (entry_get_lem w0 hash_key json entry s.1 h))
        λ inserted t (k, parsed).
          if-Ends {S = P × Disk} _ Same opts.force
            (valid_commit f64 job_json json crypto_hash pool job inserted.1) _ t
            (λ forced.
              valid_commit_lem job inserted.1 t k
                (λ c. (c, inr (forced, (entry.content, (sym e, (inserted.0, parsed)))))))
            (λ not_forced. unforced opts.quiet refl not_forced inserted t k parsed)
    where
      unforced :
          (q : Bool)
          → opts.quiet ≡ q
          → opts.force ≡ false
          → (inserted : Inserted) (t : P × Disk) → Same t
          → json.from_str entry.content ≡ some inserted
          → Judged job (if q then Checked.skipped else Checked.known inserted) × Same t
      unforced true q not_forced inserted t k parsed =
          ((not_forced, (q, (entry.content, sym e))), k)
      unforced false q not_forced inserted t k parsed =
          ((not_forced, (q, (entry.content, (sym e, parsed)))), k)

  pub check_jobs_lem :
      (table : KeyVal) (jobs : List (BenchmarkingJob F)) (s : P × Disk)
      → table.base_dir ≡ base
      → Same s
      → Ends {S = P × Disk}
          (λ r t. AllJudged jobs r × Same t)
          Same
          (check_jobs f64 job_json json crypto_hash pool table opts jobs s)
  unfolding check_jobs
  check_jobs_lem table [] s b h = (refl, h)
  check_jobs_lem table (job ∷ jobs) s b h =
      bind-Ends {S = P × Disk} _ Same (λ o t. SameAs w0 t.1 × (content_of o ≡ recorded job))
        (on_disk f64 job_json json crypto_hash pool
          (KeyVal.entry_opt hash_key json table (hash_of crypto_hash job)))
        _ s
        (on_disk_at _ (KeyVal.entry_opt hash_key json table (hash_of crypto_hash job)) s
          (rw (← b) (entry_opt_lem w0 hash_key json table (hash_of crypto_hash job) s.1 h)))
        λ o t (k, e).
          bind-Ends {S = P × Disk} _ Same (λ checked u. Judged job checked × Same u)
            (check_entry f64 job_json json crypto_hash pool opts job o) _ t
            (check_entry_lem job o t k e)
            λ checked u (judged, l).
              bind-Ends {S = P × Disk} _ Same (λ r v. AllJudged jobs r × Same v)
                (check_jobs f64 job_json json crypto_hash pool table opts jobs) _ u
                (check_jobs_lem table jobs u b l)
                λ rest v (all, m). ((checked, (judged, (rest, (all, refl)))), m)
