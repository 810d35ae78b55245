-- ===== src/Run/RunQueues/Data/Index.antt =====
-- What the index from commits to jobs holds.
use evobench.Prelude.{
  ℕ, suc, ◌≡◌, refl, sym, ap, ◌∙◌, List, [], ◌∷◌, ◌++◌, Bool-cases, inl, inr, arith, if◌then◌else◌,
}
use mathlib.Core.List.{append_assoc, append-nil}
use evobench.Prelude.Bytes.{Bytes, same, same_iff}
use evobench.Prelude.Hoare.{Ends, Triple-bind, Triple-pure, Triple-any}
use evobench.KeyValFs.AsKey.{Json}
use evobench.KeyValFs.Disk.{Disk}
use evobench.Run.Float.{Float64}
use evobench.Run.Job.{BenchmarkingJob}
use evobench.Run.RunQueue.{RunQueueData}
use evobench.Run.RunQueues.{RunQueues}
use evobench.Run.RunQueues.Data.{
  JobEntry, CommitIndex, load, load_queues, push_entry, lookup_commit, commit_of, index_jobs,
  index_queues, jobs_by_commit_id,
}

lookup_commit-push_entry :
    (c k : Bytes) (ij : ℕ × ℕ) (index : CommitIndex)
    → lookup_commit c (push_entry k ij index)
      ≡ (if same k c then lookup_commit c index ++ ij ∷ [] else lookup_commit c index)
unfolding lookup_commit push_entry
lookup_commit-push_entry c k ij [] = ground arith
lookup_commit-push_entry c k ij ((d, ijs) ∷ index) =
    ground (arith, lookup_commit-push_entry c k ij index, same_iff d k, same_iff d c, same_iff k c)

module _ {F : Type 0} (c : Bytes) where
  -- The positions of the jobs for the commit, in order.
  abbrev pub positions_in : ℕ → ℕ → List (JobEntry F) → List (ℕ × ℕ)
  positions_in i j [] = []
  positions_in i j (e ∷ es) =
      let rest = positions_in i (suc j) es in if same (commit_of e) c then (i, j) ∷ rest else rest

  abbrev pub positions : ℕ → List (RunQueueData F) → List (ℕ × ℕ)
  positions i [] = []
  positions i (d ∷ ds) = positions_in i 0 d.queue_data ++ positions (suc i) ds

  lookup_commit-index_jobs :
      (i j : ℕ) (es : List (JobEntry F)) (index : CommitIndex)
      → lookup_commit c (index_jobs i j es index) ≡ lookup_commit c index ++ positions_in i j es
  unfolding index_jobs
  lookup_commit-index_jobs i j [] index = sym (append-nil (lookup_commit c index))
  lookup_commit-index_jobs i j (e ∷ es) index =
      lookup_commit-index_jobs i (suc j) es (push_entry (commit_of e) (i, j) index)
      ∙ ap (λ l. l ++ positions_in i (suc j) es)
          (lookup_commit-push_entry c (commit_of e) (i, j) index)
      ∙ elim (Bool-cases (same (commit_of e) c)) [
        | inl p ↦
            rw p (append_assoc (lookup_commit c index) ((i, j) ∷ []) (positions_in i (suc j) es))
        | inr p ↦ rw p refl
      ]

  lookup_commit-index_queues :
      (i : ℕ) (ds : List (RunQueueData F)) (index : CommitIndex)
      → lookup_commit c (index_queues i ds index) ≡ lookup_commit c index ++ positions i ds
  unfolding index_queues
  lookup_commit-index_queues i [] index = sym (append-nil (lookup_commit c index))
  lookup_commit-index_queues i (d ∷ ds) index =
      lookup_commit-index_queues (suc i) ds (index_jobs i 0 d.queue_data index)
      ∙ ap (λ l. l ++ positions (suc i) ds) (lookup_commit-index_jobs i 0 d.queue_data index)
      ∙ append_assoc (lookup_commit c index) (positions_in i 0 d.queue_data) (positions (suc i) ds)

module _ (f64 : Float64) (json : Json (BenchmarkingJob f64.F)) where
  -- Where loading the queues succeeds, the index gives for each commit the positions of exactly the jobs
  -- for that commit, by queue and then by place in the queue.
  pub load-jobs_by_commit_id :
      (queues : RunQueues f64.F) (w : Disk)
      → Ends
          (λ data' _. (c : Bytes) → jobs_by_commit_id data' c ≡ positions c 0 data'.pipeline_data)
          (λ _. Unit)
          (load f64 json queues w)
  unfolding load jobs_by_commit_id lookup_commit
  load-jobs_by_commit_id queues w =
      (Triple-bind _ (λ ds. Triple-pure _ (λ s h c. lookup_commit-index_queues c 0 ds [])) _
          (Triple-any {Pre = λ _. Unit} (load_queues f64 json queues.pipeline))).at
        w tt
