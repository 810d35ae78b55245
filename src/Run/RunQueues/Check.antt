-- ===== src/Run/RunQueues/Check.antt =====
-- Which configurations of the pipeline are accepted.
pub mod Steps
use mathlib.Core.Path.{subst}
use evobench.Prelude.{
  ℕ, ◌+◌, ◌≡◌, ◌≢◌, ◌↔◌, refl, sym, ◌∙◌, true, false, Option, none, some, List, [], ◌∷◌, ◌++◌, All,
  Bool-cases, inl, inr, ◌⊎◌, ◌<◌, ltb, ltb→lt, arith, if◌then◌else◌,
}
use evobench.Prelude.Bytes.{Bytes, same, same_iff}
use evobench.Prelude.Outcome.{Outcome, ok, err, panic, pure, fail}
use evobench.Prelude.Hoare.{Ends, Ends-mono, Triple, Triple-bind}
use evobench.Run.Schedule
use evobench.Run.RunQueue.{RunQueue}
use evobench.Run.RunQueues.{
  RunQueues, ConfigError, no_queues, contains, check_seen, check_stop_start, check_queues,
  last_is_inactive, check_inactive_count, check_extra_queue, is_empty, check_all, check_run_queues,
}
use Steps.{
  contains-All, All-contains, seen_after, Unseen-append, Unseen-split, stop_start-cases,
  inactive_count, Queues, check_queues-Ends, Counted, Counted-OnlyLastInactive,
  OnlyLastInactive-Counted, check_inactive_count-Ends, Extra, check_extra_queue-Ends, Unseen, names,
  HasCommand, OnlyLastInactive, extra_names, IsInactive, Valid,
}

module _ {F : Type 0} (queues : RunQueues F) where
  abbrev seen_pipeline : List Bytes
  seen_pipeline = seen_after [] (names queues.pipeline)

  abbrev seen_erroneous : List Bytes
  seen_erroneous = seen_after seen_pipeline (extra_names queues.erroneous_jobs_queue)

  abbrev Invalid : List Bytes → Type 0
  Invalid _ = Valid queues → ⊥

  -- What has been checked when the names in `s` have been seen.
  abbrev PipelineOk : List Bytes → Type 0
  PipelineOk s =
      (s ≡ seen_pipeline)
      × ((queues.pipeline ≢ []) × (Queues [] queues.pipeline × OnlyLastInactive queues.pipeline))

  Valid-Unseen :
      Valid queues
      → Unseen seen_pipeline
          (extra_names queues.erroneous_jobs_queue ++ extra_names queues.done_jobs_queue)
  Valid-Unseen v = (Unseen-split [] (names queues.pipeline) _ v.1.0).1

  empty_step :
      Triple
        (λ s. s ≡ [])
        (if is_empty queues.pipeline then fail no_queues else pure tt)
        (λ _ s. (s ≡ []) × (queues.pipeline ≢ []))
        Invalid
  unfolding is_empty
  empty_step = at_pipeline queues.pipeline refl
    where
      at_pipeline :
          (rqs : List (RunQueue F))
          → queues.pipeline ≡ rqs
          → Triple
              (λ s. s ≡ [])
              (if is_empty rqs then fail no_queues else pure tt)
              (λ _ s. (s ≡ []) × (queues.pipeline ≢ []))
              Invalid
      at_pipeline [] e = record { at = λ s h v. v.0 e }
      at_pipeline (rq ∷ rqs) e = record { at = λ s h. (h, λ none_left. cc) }

  pipeline_step :
      Triple
        (λ s. (s ≡ []) × (queues.pipeline ≢ []))
        (check_queues queues.pipeline 0)
        (λ m s.
          (m ≡ inactive_count queues.pipeline)
          × ((s ≡ seen_pipeline) × ((queues.pipeline ≢ []) × Queues [] queues.pipeline)))
        Invalid
  pipeline_step = record {
    at = λ s h. rw (h.0) (
        Ends-mono (check_queues queues.pipeline 0 []) (check_queues-Ends queues.pipeline 0 [])
          (λ m s' k. (k.0 ∙ omega arith, (k.1.0, (h.1, k.1.1))))
          (λ s' bad v. bad ((Unseen-split [] (names queues.pipeline) _ v.1.0).0, v.1.1.0)));
  }

  count_step :
      (m : ℕ)
      → Triple
          (λ s.
            (m ≡ inactive_count queues.pipeline)
            × ((s ≡ seen_pipeline) × ((queues.pipeline ≢ []) × Queues [] queues.pipeline)))
          (check_inactive_count queues.pipeline m)
          (λ _. PipelineOk)
          Invalid
  count_step m = record {
    at = λ s h.
        Ends-mono (check_inactive_count queues.pipeline m s)
          (check_inactive_count-Ends queues.pipeline m s)
          (λ _ s' k. (
            k.0 ∙ h.1.0,
            (
              h.1.1.0,
              (
                h.1.1.1,
                Counted-OnlyLastInactive queues.pipeline (subst (Counted queues.pipeline) h.0 k.1),
              ),
            ),
          ))
          (λ s' bad v. bad (
            subst (Counted queues.pipeline) (sym h.0)
              (OnlyLastInactive-Counted queues.pipeline v.1.1.1.0)));
  }

  erroneous_step :
      Triple PipelineOk
        (check_extra_queue queues.erroneous_jobs_queue)
        (λ _ s.
          (s ≡ seen_erroneous)
          × (PipelineOk seen_pipeline × Extra seen_pipeline queues.erroneous_jobs_queue))
        Invalid
  erroneous_step = record {
    at = λ s h. rw (h.0) (
        Ends-mono (check_extra_queue queues.erroneous_jobs_queue seen_pipeline)
          (check_extra_queue-Ends queues.erroneous_jobs_queue seen_pipeline)
          (λ _ s' k. (k.0, ((refl, h.1), k.1)))
          (λ s' bad v. bad (
            (Unseen-split seen_pipeline (extra_names queues.erroneous_jobs_queue) _
                (Valid-Unseen v)).0,
            v.1.1.1.1.0,
          )));
  }

  done_step :
      Triple
        (λ s.
          (s ≡ seen_erroneous)
          × (PipelineOk seen_pipeline × Extra seen_pipeline queues.erroneous_jobs_queue))
        (check_extra_queue queues.done_jobs_queue)
        (λ _ _. Valid queues)
        Invalid
  done_step = record {
    at = λ s h. rw (h.0) (
        Ends-mono (check_extra_queue queues.done_jobs_queue seen_erroneous)
          (check_extra_queue-Ends queues.done_jobs_queue seen_erroneous)
          (λ _ s' k.
            let (_, (some_queue, ((unseen, commands), only_last))) = h.1.0 in
            let (erroneous_unseen, erroneous_inactive) = h.1.1 in
            (
              some_queue,
              (
                Unseen-append [] (names queues.pipeline) _ unseen (
                    Unseen-append seen_pipeline (extra_names queues.erroneous_jobs_queue) _
                      erroneous_unseen k.1.0),
                (commands, (only_last, (erroneous_inactive, k.1.1))),
              ),
            ))
          (λ s' bad v. bad (
            (Unseen-split seen_pipeline (extra_names queues.erroneous_jobs_queue) _
                (Valid-Unseen v)).1,
            v.1.1.1.1.1,
          )));
  }

  check_all-Ends : Ends (λ _ _. Valid queues) Invalid (check_all queues [])
  unfolding check_all
  check_all-Ends =
      (Triple-bind _
          (λ _.
            Triple-bind _
              (λ m.
                Triple-bind _ (λ _. Triple-bind _ (λ _. done_step) _ erroneous_step) _
                  (count_step m))
              _ pipeline_step)
          _ empty_step).at
        [] refl

  -- A configuration of queues is accepted exactly if it has a queue in the pipeline, no two queues have
  -- the same name, `stop_start` names a command wherever it is given, no queue of the pipeline but the
  -- last one is `Inactive`, and the queues for erroneous and for done jobs, if any, are `Inactive`.
  pub check_run_queues-Valid : (check_run_queues queues ≡ ok tt) ↔ Valid queues
  unfolding check_run_queues
  check_run_queues-Valid = at_result (check_all queues []) check_all-Ends
    where
      at_result :
          (r : Outcome ConfigError (Unit {0}) × List Bytes)
          → Ends (λ _ _. Valid queues) Invalid r
          → (r.0 ≡ ok tt) ↔ Valid queues
      at_result (ok u, s) v = (λ _. v, λ _. refl)
      at_result (err e, s) bad = (λ h. cc, λ v. absurd (bad v))
      at_result (panic, s) bad = (λ h. cc, λ v. absurd (bad v))
