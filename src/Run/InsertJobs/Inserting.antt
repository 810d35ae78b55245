-- ===== src/Run/InsertJobs/Inserting.antt =====
-- What an insertion of jobs leaves in the first queue, and when it changes nothing.
use mathlib.Core.Path.{subst}
use evobench.Prelude.{
  ℕ, suc, ◌≡◌, refl, sym, ap, ◌∙◌, ◌⊎◌, inl, inr, true, false, Option, none, some, List, [], ◌∷◌,
  ◌++◌, length, All,
}
use evobench.Prelude.Bytes.{Bytes, same}
use evobench.Prelude.Outcome.{Outcome, ok, err, panic, Act, pure, map_err, map_err_at, ◌>>=◌}
use evobench.Prelude.Hoare.{Ends, Ends-mono}
use evobench.Prelude.Local.{outside}
use evobench.Prelude.Local.Steps.{bind-Ends, or_crash-bind, if-Ends}
use evobench.KeyValFs.AsKey.{Json}
use evobench.KeyValFs.Disk.{Disk, view}
use evobench.KeyValFs.Disk.Effects.{SameAs}
use evobench.KeyValFs.KeyVal
use evobench.KeyValFs.KeyVal.{KeyVal, KeyValSync, KeyValError, Db, Entry}
use evobench.KeyValFs.KeyVal.Reads.{content_of, entry_opt_lem, lock_exclusive-SameAs, open_db_lem}
use evobench.KeyValFs.Queue
use evobench.KeyValFs.Queue.Adds.{
  Keeps, InQueue, InQueue-Keeps, SameAs-Keeps, push_front_adds, insert-Keeps, delete_file-Keeps,
}
use evobench.Run.Float.{Float64}
use evobench.Run.Job.{BenchmarkingJob, BenchmarkingJobParameters, benchmarking_job_parameters}
use evobench.Run.RunQueue.{RunQueue}
use evobench.Run.RunQueues.{RunQueues}
use evobench.Run.InsertJobs.{
  hash_key, Inserted, Opts, InsertError, PollingPool, hash_of, ToInsert, first, delete_entry,
  insert_job, check_jobs, insert_all, after_checks, open_already_inserted, insert_jobs, on_disk,
  on_pool,
}
use evobench.Run.InsertJobs.Checks.{
  into_error, outside_at, pool_at, AllJudged, on_disk_at, check_jobs_lem,
}

Keeps-trans : (d : Bytes) (u v w : Disk) → Keeps d u v → Keeps d v w → Keeps d u w
Keeps-trans d u v w h k x e = k x (h x e)

module _ (f64 : Float64) (job_json : Json (BenchmarkingJob f64.F)) (json : Json Inserted)
    (crypto_hash : BenchmarkingJobParameters → Bytes) {P E : Type 0} (pool : PollingPool P E)
    (queues : RunQueues f64.F) (rq : RunQueue f64.F)
    (is_first : first queues.pipeline ≡ some rq) where
  open f64 use {F}

  abbrev NoBad : P × Disk → Type 0
  NoBad s = Unit

  -- The first queue keeps its items.
  abbrev pub QueueKeeps : P × Disk → P × Disk → Type 0
  QueueKeeps s t = Keeps rq.queue.base_dir s.1 t.1

  abbrev pub IsIn : P × Disk → ToInsert F → Type 0
  IsIn s job = InQueue rq.queue.base_dir job_json job.0 s.1

  on_disk_any :
      {A : Type 0} (Post : A → Disk → Type 0) (m : Db A) (s : P × Disk)
      → Ends {S = Disk} Post (λ _. Unit) (m s.1)
      → Ends {S = P × Disk} (λ a t. Post a t.1) NoBad (outside (map_err m (into_error {E = E})) s)
  on_disk_any Post m (p, w) h = outside_at E Post (λ _. Unit) (m w) p h

  on_pool_any :
      {A : Type 0} (m : Act P E A) (s : P × Disk)
      → Ends {S = P × Disk}
          (λ _ t. t.1 ≡ s.1)
          NoBad
          (on_pool f64 job_json json crypto_hash pool m s)
  on_pool_any m (p, w) =
      Ends-mono {S = P × Disk} {Post = λ a t. (t.1 ≡ w) × (m p ≡ (ok a, t.0))} _ (pool_at E (m p) w)
        (λ _ t h. h.0) (λ _ h. tt)

  module _ (table : KeyVal) (apart : same table.base_dir rq.queue.base_dir ≡ false) where
    delete_entry-Keeps :
        (o : Option Entry) (w : Disk)
        → Ends {S = Disk}
            (λ _ w'. Keeps rq.queue.base_dir w w')
            (λ _. Unit)
            (delete_entry table o w)
    unfolding delete_entry
    delete_entry-Keeps none w = λ x h. h
    delete_entry-Keeps (some entry) w =
        bind-Ends {S = Disk} _ (λ _. Unit) (λ _ w'. Keeps rq.queue.base_dir w w')
          (KeyVal.delete_file table "deleting the value file" entry.file_name) _ w
          (delete_file-Keeps rq.queue.base_dir table entry.file_name "deleting the value file" w
            apart)
          λ _ w' k. k

    insert_job_lem :
        (job : ToInsert F) (s : P × Disk)
        → Ends {S = P × Disk}
            (λ _ t. QueueKeeps s t × IsIn t job)
            NoBad
            (insert_job f64 job_json json crypto_hash pool table queues job s)
    unfolding insert_job
    insert_job_lem (job, times) s =
        or_crash-bind {S = P × Disk} _ NoBad _ (first queues.pipeline) s tt λ rq' e.
          let same_queue : rq' ≡ rq = ap (λ o. queue_or rq' o) (sym e ∙ is_first) in
          bind-Ends {S = P × Disk} _ NoBad (λ _ t. QueueKeeps s t × IsIn t (job, times))
            (on_disk f64 job_json json crypto_hash pool (Queue.push_front job_json rq'.queue job)) _
            s
            (on_disk_any
              (λ _ w'. Keeps rq.queue.base_dir s.1 w' × InQueue rq.queue.base_dir job_json job w')
              (Queue.push_front job_json rq'.queue job) s
              (rw same_queue (push_front_adds job_json rq.queue job s.1)))
            λ _ t (k, there).
              let hash = hash_of crypto_hash job in
              bind-Ends {S = P × Disk} _ NoBad (λ _ u. QueueKeeps t u)
                (on_disk f64 job_json json crypto_hash pool
                  (KeyVal.entry_opt hash_key json table hash))
                _ t
                (on_disk_any (λ _ w'. Keeps rq.queue.base_dir t.1 w')
                  (KeyVal.entry_opt hash_key json table hash) t
                  (Ends-mono {S = Disk}
                    {Post = λ o w'. SameAs t.1 w' × (content_of o ≡ view t.1 table.base_dir hash)} _
                    (entry_opt_lem t.1 hash_key json table hash t.1 (λ e g. refl))
                    (λ _ w' h. SameAs-Keeps rq.queue.base_dir t.1 w' h.0) (λ _ h. tt)))
                λ entry u l.
                  bind-Ends {S = P × Disk} _ NoBad (λ _ v. QueueKeeps u v)
                    (on_disk f64 job_json json crypto_hash pool (delete_entry table entry)) _ u
                    (on_disk_any (λ _ w'. Keeps rq.queue.base_dir u.1 w') (delete_entry table entry)
                      u (delete_entry-Keeps entry u.1))
                    λ _ v m.
                      bind-Ends {S = P × Disk} _ NoBad (λ _ x. x.1 ≡ v.1)
                        (on_pool f64 job_json json crypto_hash pool pool.system_time) _ v
                        (on_pool_any pool.system_time v)
                        λ now x same_disk.
                          let inserted : Inserted =
                            (benchmarking_job_parameters job, times ++ now ∷ []) in
                          let until : QueueKeeps t x = λ y h.
                            subst (Keeps rq.queue.base_dir t.1) (sym same_disk)
                              (Keeps-trans rq.queue.base_dir t.1 u.1 v.1 l m) y h in
                          Ends-mono {S = P × Disk} {Post = λ _ z. QueueKeeps x z}
                            {Post' = λ _ z. QueueKeeps s z × IsIn z (job, times)} {Bad = NoBad} _
                            (on_disk_any (λ _ w'. Keeps rq.queue.base_dir x.1 w')
                              (KeyVal.insert hash_key json table hash inserted true) x
                              (insert-Keeps rq.queue.base_dir table hash_key json hash inserted
                                x.1))
                            (λ _ z n.
                              let since : QueueKeeps t z =
                                Keeps-trans rq.queue.base_dir t.1 x.1 z.1 until n in
                              (
                                Keeps-trans rq.queue.base_dir s.1 t.1 z.1 k since,
                                InQueue-Keeps rq.queue.base_dir job_json job t.1 z.1 since there,
                              ))
                            (λ _ h. tt)
      where
        queue_or : RunQueue F → Option (RunQueue F) → RunQueue F
        queue_or q none = q
        queue_or q (some r) = r

    insert_all_lem :
        (jobs : List (ToInsert F)) (s : P × Disk)
        → Ends {S = P × Disk}
            (λ n t. QueueKeeps s t × ((n ≡ length jobs) × All (λ job. IsIn t job) jobs))
            NoBad
            (insert_all f64 job_json json crypto_hash pool table queues jobs s)
    unfolding insert_all
    insert_all_lem [] s = (λ x h. h, (refl, tt))
    insert_all_lem (job ∷ jobs) s =
        bind-Ends {S = P × Disk} _ NoBad (λ _ t. QueueKeeps s t × IsIn t job)
          (insert_job f64 job_json json crypto_hash pool table queues job) _ s
          (insert_job_lem job s)
          λ _ t (k, there).
            bind-Ends {S = P × Disk} _ NoBad
              (λ n u. QueueKeeps t u × ((n ≡ length jobs) × All (λ job. IsIn u job) jobs))
              (insert_all f64 job_json json crypto_hash pool table queues jobs) _ t
              (insert_all_lem jobs t)
              λ n u (l, (number, all)). (
                Keeps-trans rq.queue.base_dir s.1 t.1 u.1 k l,
                (
                  ap suc number,
                  (InQueue-Keeps rq.queue.base_dir job_json job.0 t.1 u.1 l there, all),
                ),
              )

  module _ (base : Bytes) (opts : Opts) (w0 : Disk)
      (apart : same base rq.queue.base_dir ≡ false) where
    abbrev pub Judges : List (BenchmarkingJob F) → List (ToInsert F) → Type 0
    Judges jobs todo = AllJudged f64 job_json json crypto_hash pool base opts w0 jobs (todo, [])

    abbrev pub Done : List (BenchmarkingJob F) → ℕ → P × Disk → Type 0
    Done jobs n s =
        (todo : List (ToInsert F)) × (Judges jobs todo
          × (((opts.dry_run ≡ true) × ((n ≡ 0) × SameAs w0 s.1))
              ⊎ ((opts.dry_run ≡ false) × ((n ≡ length todo) × All (λ job. IsIn s job) todo))))

    abbrev pub Failed : List (BenchmarkingJob F) → P × Disk → Type 0
    Failed jobs s =
        SameAs w0 s.1 ⊎ ((opts.dry_run ≡ false) × ((todo : List (ToInsert F)) × Judges jobs todo))

    -- Where nothing is written yet.
    untouched :
        {A : Type 0} (jobs : List (BenchmarkingJob F)) (Post : A → P × Disk → Type 0)
        (r : Outcome (InsertError E) A × (P × Disk))
        → Ends {S = P × Disk} Post (λ s. SameAs w0 s.1) r
        → Ends {S = P × Disk} Post (Failed jobs) r
    untouched jobs Post (ok a, s) h = h
    untouched jobs Post (err e, s) h = inl h
    untouched jobs Post (panic, s) h = inl h

    continued :
        {A : Type 0} (jobs : List (BenchmarkingJob F)) (Mid : A → P × Disk → Type 0)
        (m : Act (P × Disk) (InsertError E) A) (f : A → Act (P × Disk) (InsertError E) ℕ)
        (s : P × Disk)
        → Ends {S = P × Disk} Mid (λ s. SameAs w0 s.1) (m s)
        → ((a : A) (t : P × Disk) → Mid a t → Ends {S = P × Disk} (Done jobs) (Failed jobs) (f a t))
        → Ends {S = P × Disk} (Done jobs) (Failed jobs) ((m >>= f) s)
    continued jobs Mid m f s h k =
        bind-Ends {S = P × Disk} (Done jobs) (Failed jobs) Mid m f s (untouched jobs Mid (m s) h) k

    after_checks_lem :
        (table : KeyVal) (jobs : List (BenchmarkingJob F))
        (checks : List (ToInsert F) × List Inserted) (s : P × Disk)
        → table.base_dir ≡ base
        → AllJudged f64 job_json json crypto_hash pool base opts w0 jobs checks
        → SameAs w0 s.1
        → Ends {S = P × Disk}
            (Done jobs)
            (Failed jobs)
            (after_checks f64 job_json json crypto_hash pool table queues opts checks s)
    unfolding after_checks
    after_checks_lem table jobs (todo, inserted ∷ already) s b judged h = inl h
    after_checks_lem table jobs (todo, []) s b judged h =
        if-Ends {S = P × Disk} (Done jobs) (Failed jobs) opts.dry_run (pure 0)
          (insert_all f64 job_json json crypto_hash pool table queues todo) s
          (λ dry. (todo, (judged, inl (dry, (refl, h)))))
          (λ wet.
            Ends-mono {S = P × Disk}
              {Post = λ n t. QueueKeeps s t × ((n ≡ length todo) × All (λ job. IsIn t job) todo)}
              {Post' = Done jobs} {Bad = NoBad} {Bad' = Failed jobs}
              (insert_all f64 job_json json crypto_hash pool table queues todo s)
              (insert_all_lem table (rw b apart) todo s)
              (λ n t (k, r). (todo, (judged, inr (wet, r)))) (λ t k. inr (wet, (todo, judged))))

    -- With the table of inserted jobs beside the first queue: which jobs are inserted is decided by the table as it was
    -- before and by the polling pool. A job that is in the table is inserted only by force; one that is inserted
    -- has a commit that the pool confirmed. After a success no job was refused, and without a dry run as many jobs
    -- were inserted as were decided on, and each is an item of the first queue. After an error or a panic
    -- nothing has changed, unless no job was refused and it is no dry run. A dry run changes nothing.
    pub insert_jobs_lem :
        (jobs : List (BenchmarkingJob F)) (p : P)
        → Ends {S = P × Disk}
            (Done jobs)
            (Failed jobs)
            (insert_jobs f64 job_json json crypto_hash pool base queues opts jobs (p, w0))
    unfolding insert_jobs open_already_inserted
    insert_jobs_lem jobs p =
        continued jobs (λ table t. SameAs w0 t.1 × (table.base_dir ≡ base))
          (on_disk f64 job_json json crypto_hash pool (open_already_inserted base)) _ (p, w0)
          (on_disk_at f64 job_json json crypto_hash pool base opts w0
            (λ table w. SameAs w0 w × (table.base_dir ≡ base)) (open_already_inserted base) (p, w0)
            (open_db_lem w0 base KeyValSync.all false w0 (λ e g. refl)))
          λ table t (h, b).
            continued jobs (λ _ u. SameAs w0 u.1)
              (on_disk f64 job_json json crypto_hash pool (KeyVal.lock_exclusive table)) _ t
              (on_disk_at f64 job_json json crypto_hash pool base opts w0 (λ _ w. SameAs w0 w)
                (KeyVal.lock_exclusive table) t (lock_exclusive-SameAs w0 table t.1 h))
              λ _ u k.
                continued jobs (λ _ v. SameAs w0 v.1)
                  (on_pool f64 job_json json crypto_hash pool pool.open_polling_pool) _ u
                  (polled (pool.open_polling_pool u.0) u k)
                  λ _ v l.
                    continued jobs
                      (λ checks x.
                        AllJudged f64 job_json json crypto_hash pool base opts w0 jobs checks
                        × SameAs w0 x.1)
                      (check_jobs f64 job_json json crypto_hash pool table opts jobs) _ v
                      (check_jobs_lem f64 job_json json crypto_hash pool base opts w0 table jobs v b
                        l)
                      λ checks x (judged, m). after_checks_lem table jobs checks x b judged m
      where
        polled :
            (x : Outcome E (Unit {0}) × P) (u : P × Disk)
            → SameAs w0 u.1
            → Ends {S = P × Disk}
                (λ _ v. SameAs w0 v.1)
                (λ v. SameAs w0 v.1)
                ((map_err_at x InsertError.polling).0, ((map_err_at x InsertError.polling).1, u.1))
        polled (ok a, q) u k = k
        polled (err e, q) u k = k
        polled (panic, q) u k = k
