-- ===== src/Run/RunContext/Closing.antt =====
-- Which queues are open after the closing actions.
use evobench.Prelude.{
  ℕ, ◌≡◌, refl, sym, ap, ◌∙◌, Bool, true, false, not, ◌&&◌, ◌||◌, Option, none, some, List, [], ◌∷◌,
  leb, keep, Any, Any-keep, Bool-cases, inl, inr, arith,
}
use evobench.Prelude.Bytes.{Bytes, same, same_refl}
use mathlib.Core.Path.{subst}
use evobench.Prelude.Outcome.{Outcome, ok, err, panic, resume, ◌>>=◌}
use evobench.Prelude.Hoare.{Ends, Ends-mono}
use evobench.Prelude.Local.{modify}
use evobench.KeyValFs.AsKey.{Json}
use evobench.KeyValFs.Disk.{Disk}
use evobench.KeyValFs.KeyVal.{KeyValError}
use evobench.Run.Float.{Float64}
use evobench.Run.Job.{BenchmarkingJob}
use evobench.Run.RunQueue.{RunQueue, RunQueueWithNext, handle_timeout}
use evobench.Run.RunQueues.{get_run_queue_with_next_by_name}
use evobench.Run.RunContext.{
  RunContext, OpenQueue, remove, closing, without, close_queue, close_queues, close_open_queues,
}

keep_all : (qs : List OpenQueue) → qs ≡ keep (λ q. true) qs
keep_all [] = refl
keep_all (q ∷ qs) = ap (λ l. q ∷ l) (keep_all qs)

keep-keep :
    (p r : OpenQueue → Bool) (qs : List OpenQueue)
    → keep (λ q. not (p q)) (keep (λ q. not (r q)) qs) ≡ keep (λ q. not (r q || p q)) qs
keep-keep p r [] = refl
keep-keep p r (q ∷ qs) = ground (arith, keep-keep p r qs)

kept :
    (p : OpenQueue → Bool) (e : OpenQueue) (qs : List OpenQueue)
    → Any (λ q. q ≡ e) (keep p qs)
    → p e ≡ true
kept p e [] h = elim h [ ]
kept p e (q ∷ qs) h = from (p q) refl h (kept p e qs)
  where
    from :
        (b : Bool)
        → p q ≡ b
        → Any (λ x. x ≡ e) (elim b [ true ↦ q ∷ keep p qs | false ↦ keep p qs ])
        → (Any (λ q. q ≡ e) (keep p qs) → p e ≡ true)
        → p e ≡ true
    from true same_q (inl f) rest = ap p (sym f) ∙ same_q
    from true same_q (inr h') rest = rest h'
    from false same_q h' rest = rest h'

module _ {F : Type 0} where
  abbrev pub found : Option (RunQueueWithNext F) → Bool
  found none = false
  found (some rqwn) = true

  -- A queue with this name is found and is in the list.
  abbrev pub closes : List (RunQueue F) → List Bytes → Bytes → Bool
  closes run_queues [] n = false
  closes run_queues (name ∷ names) n =
      (found (get_run_queue_with_next_by_name run_queues name) && same name n)
      || closes run_queues names n

  -- A queue past its end is in the list.
  closes-closing :
      (now : ℕ) (run_queues : List (RunQueue F)) (q : OpenQueue) (qs : List OpenQueue)
      → Any (λ x. x ≡ q) qs
      → leb q.1 now ≡ true
      → found (get_run_queue_with_next_by_name run_queues q.0) ≡ true
      → closes run_queues (closing now qs) q.0 ≡ true
  unfolding closing
  closes-closing now run_queues q [] h past is_found = elim h [ ]
  closes-closing now run_queues q (x ∷ qs) (inl e) past is_found =
      let a : leb x.1 now ≡ true = ap (λ y. leb y.1 now) e ∙ past in
      let b : found (get_run_queue_with_next_by_name run_queues x.0) ≡ true =
        ap (λ y. found (get_run_queue_with_next_by_name run_queues y.0)) e ∙ is_found in
      let c : same x.0 q.0 ≡ true = ap (λ y. same y.0 q.0) e ∙ same_refl q.0 in
      ground (arith, a, b, c)
  closes-closing now run_queues q (x ∷ qs) (inr h) past is_found =
      let ih = closes-closing now run_queues q qs h past is_found in ground (arith, ih)

module _ (f64 : Float64) (json : Json (BenchmarkingJob f64.F)) where
  open f64 use {F}

  abbrev pub Closed : List (RunQueue F) → List Bytes → RunContext → RunContext → Type 0
  Closed run_queues names ctx ctx' =
      (ctx'.open_queues ≡ keep (λ q. not (closes run_queues names q.0)) ctx.open_queues)
      × (ctx'.stop_start_status ≡ ctx.stop_start_status)

  abbrev pub Within : RunContext → RunContext → Type 0
  Within ctx ctx' =
      ((q : OpenQueue) → Any (λ x. x ≡ q) ctx'.open_queues → Any (λ x. x ≡ q) ctx.open_queues)
      × (ctx'.stop_start_status ≡ ctx.stop_start_status)

  abbrev After :
      List (RunQueue F)
      → List Bytes
      → RunContext
      → Outcome KeyValError (Unit {0}) × (RunContext × Disk)
      → Type 0
  After run_queues names ctx x =
      Ends (λ _ s. Closed run_queues names ctx s.0) (λ s. Within ctx s.0) x

  module _ (run_queues : List (RunQueue F)) (name : Bytes) (names : List Bytes)
      (rest : (ctx : RunContext) (disk : Disk)
        → After run_queues names ctx (close_queues f64 json run_queues names (ctx, disk)))
      (ctx : RunContext) where
    abbrev ClosedBy : Bool → RunContext → Type 0
    ClosedBy b ctx' =
        (ctx'.open_queues
          ≡ keep (λ q. not ((b && same name q.0) || closes run_queues names q.0)) ctx.open_queues)
        × (ctx'.stop_start_status ≡ ctx.stop_start_status)

    handled :
        (x : Outcome KeyValError (Unit {0}) × Disk)
        → Ends
            (λ _ s. ClosedBy true s.0)
            (λ s. Within ctx s.0)
            (resume {S = RunContext × Disk}
              (resume {S = RunContext × Disk} x.0 (λ _. modify (without name)) (ctx, x.1)).0
              (λ _. close_queues f64 json run_queues names)
              (resume {S = RunContext × Disk} x.0 (λ _. modify (without name)) (ctx, x.1)).1)
    unfolding without remove
    handled (ok u, disk) =
        Ends-mono {S = RunContext × Disk}
          {Post = λ _ s. Closed run_queues names (without name ctx) s.0}
          {Post' = λ _ s. ClosedBy true s.0} {Bad = λ s. Within (without name ctx) s.0}
          {Bad' = λ s. Within ctx s.0} _ (rest (without name ctx) disk)
          (λ _ s (e, f). (
            e ∙ keep-keep (λ q. closes run_queues names q.0) (λ q. same name q.0) ctx.open_queues,
            f,
          ))
          (λ s (sub, f).
            (λ q h. Any-keep (λ q. not (same name q.0)) q ctx.open_queues (sub q h), f))
    handled (err e, disk) = (λ q h. h, refl)
    handled (panic, disk) = (λ q h. h, refl)

    closing_step :
        (o : Option (RunQueueWithNext F)) (disk : Disk)
        → Ends
            (λ _ s. ClosedBy (found o) s.0)
            (λ s. Within ctx s.0)
            ((close_queue f64 json name o >>= λ _. close_queues f64 json run_queues names)
              (ctx, disk))
    unfolding close_queue
    closing_step none disk = rest ctx disk
    closing_step (some rqwn) disk = handled (handle_timeout f64 json rqwn disk)

  close_queues_lem :
      (run_queues : List (RunQueue F)) (names : List Bytes) (ctx : RunContext) (disk : Disk)
      → After run_queues names ctx (close_queues f64 json run_queues names (ctx, disk))
  unfolding close_queues
  close_queues_lem run_queues [] ctx disk = (keep_all ctx.open_queues, refl)
  close_queues_lem run_queues (name ∷ names) ctx disk =
      closing_step run_queues name names (close_queues_lem run_queues names) ctx
        (get_run_queue_with_next_by_name run_queues name) disk

  -- After the closing actions succeeded, no queue of the pipeline is open past its end; of the others, only those
  -- that share a name with such a queue were closed. After an error or a panic, no queue is open that was not open
  -- before. The stop-start state is never changed.
  pub close_open_queues_lem :
      (now : ℕ) (run_queues : List (RunQueue F)) (ctx : RunContext) (disk : Disk)
      → Ends
          (λ _ s.
            ((q : OpenQueue)
              → Any (λ x. x ≡ q) s.0.open_queues
              → leb q.1 now ≡ true
              → found (get_run_queue_with_next_by_name run_queues q.0) ≡ false)
            × Closed run_queues (closing now ctx.open_queues) ctx s.0)
          (λ s. Within ctx s.0)
          (close_open_queues f64 json now run_queues (ctx, disk))
  unfolding close_open_queues
  close_open_queues_lem now run_queues ctx disk =
      Ends-mono {S = RunContext × Disk}
        {Post = λ _ s. Closed run_queues (closing now ctx.open_queues) ctx s.0}
        {Bad = λ s. Within ctx s.0} _
        (close_queues_lem run_queues (closing now ctx.open_queues) ctx disk)
        (λ _ s (e, f). (λ q h past. none_left s.0 e q h past, (e, f))) (λ s h. h)
    where
      p : OpenQueue → Bool
      p q = not (closes run_queues (closing now ctx.open_queues) q.0)

      none_left :
          (ctx' : RunContext)
          → ctx'.open_queues ≡ keep p ctx.open_queues
          → (q : OpenQueue) → Any (λ x. x ≡ q) ctx'.open_queues
          → leb q.1 now ≡ true
          → found (get_run_queue_with_next_by_name run_queues q.0) ≡ false
      none_left ctx' e q h past =
          let h' : Any (λ x. x ≡ q) (keep p ctx.open_queues) =
            subst (λ l. Any (λ x. x ≡ q) l) e h in
          let stays : p q ≡ true = kept p q ctx.open_queues h' in
          let was = Any-keep p q ctx.open_queues h' in
          elim (Bool-cases (found (get_run_queue_with_next_by_name run_queues q.0))) [
            | inl y ↦
                let gone = closes-closing now run_queues q ctx.open_queues was past y in
                absurd (cc (stays, ap not gone))
            | inr n ↦ n
          ]
