-- ===== src/Run/RunQueues/Check/Steps.antt =====
-- What each check of the pipeline finds out: the names, the commands, and the place of `Inactive`.
use evobench.Prelude.{
  ℕ, ◌+◌, ◌≡◌, ◌≢◌, refl, true, false, Option, none, some, List, [], ◌∷◌, ◌++◌, All, Bool-cases,
  inl, inr, ◌⊎◌, ◌<◌, ltb, ltb→lt, arith, if◌then◌else◌,
}
use evobench.Prelude.Bytes.{Bytes, same, same_iff}
use evobench.Prelude.Outcome.{ok, err}
use evobench.Prelude.Hoare.{Ends, Ends-mono}
use evobench.Run.Schedule
use evobench.Run.RunQueue.{RunQueue}
use evobench.Run.RunQueues.{
  RunQueues, ConfigError, contains, check_seen, check_stop_start, check_queues, last_is_inactive,
  check_inactive_count, check_extra_queue,
}

-- No name is in the list, and no two of them are equal.
abbrev pub Unseen : List Bytes → List Bytes → Type 0
Unseen seen [] = Unit
Unseen seen (n ∷ ns) = All (λ m. m ≢ n) seen × Unseen (n ∷ seen) ns

pub contains-All :
    (seen : List Bytes) (name : Bytes) → contains seen name ≡ false → All (λ m. m ≢ name) seen
unfolding contains
contains-All [] name h = tt
contains-All (m ∷ ms) name h = elim (Bool-cases (same m name)) [
  | inl is_same ↦ absurd (cc (rw is_same at h))
  | inr differs ↦ (λ e. cc ((same_iff m name).1 e), contains-All ms name (rw differs at h))
]

pub All-contains :
    (seen : List Bytes) (name : Bytes) → All (λ m. m ≢ name) seen → contains seen name ≡ false
unfolding contains
All-contains [] name h = refl
All-contains (m ∷ ms) name (h, hs) = ground (arith, h, same_iff m name, All-contains ms name hs)

abbrev pub seen_after : List Bytes → List Bytes → List Bytes
seen_after seen [] = seen
seen_after seen (n ∷ ns) = seen_after (n ∷ seen) ns

pub Unseen-append :
    (seen ns ms : List Bytes)
    → Unseen seen ns
    → Unseen (seen_after seen ns) ms
    → Unseen seen (ns ++ ms)
Unseen-append seen [] ms h k = k
Unseen-append seen (n ∷ ns) ms (h, hs) k = (h, Unseen-append (n ∷ seen) ns ms hs k)

pub Unseen-split :
    (seen ns ms : List Bytes)
    → Unseen seen (ns ++ ms)
    → Unseen seen ns × Unseen (seen_after seen ns) ms
Unseen-split seen [] ms h = (tt, h)
Unseen-split seen (n ∷ ns) ms (h, hs) =
    let (k, ks) = Unseen-split (n ∷ seen) ns ms hs in ((h, k), ks)

pub stop_start-cases :
    (o : Option (List Bytes))
    → ((o ≡ some [])
        × ((s : List Bytes) → check_stop_start o s ≡ (err ConfigError.empty_stop_start, s)))
      ⊎ ((o ≢ some []) × ((s : List Bytes) → check_stop_start o s ≡ (ok tt, s)))
unfolding check_stop_start
stop_start-cases none = inr (λ e. cc, λ s. refl)
stop_start-cases (some []) = inl (refl, λ s. refl)
stop_start-cases (some (a ∷ l)) = inr (λ e. cc, λ s. refl)

module _ {F : Type 0} where
  abbrev pub names : List (RunQueue F) → List Bytes
  names [] = []
  names (rq ∷ rqs) = rq.file_name ∷ names rqs

  abbrev pub inactive_count : List (RunQueue F) → ℕ
  inactive_count [] = 0
  inactive_count (rq ∷ rqs) =
      if Schedule.is_inactive rq.schedule_condition
      then inactive_count rqs + 1
      else inactive_count rqs

  -- `stop_start`, if given, names a command.
  abbrev pub HasCommand : RunQueue F → Type 0
  HasCommand rq = Schedule.stop_start rq.schedule_condition ≢ some []

  abbrev pub Queues : List Bytes → List (RunQueue F) → Type 0
  Queues seen rqs = Unseen seen (names rqs) × All HasCommand rqs

  pub check_queues-Ends :
      (rqs : List (RunQueue F)) (n : ℕ) (seen : List Bytes)
      → Ends
          (λ m s.
            (m ≡ n + inactive_count rqs) × ((s ≡ seen_after seen (names rqs)) × Queues seen rqs))
          (λ s. Queues seen rqs → ⊥)
          (check_queues rqs n seen)
  unfolding check_queues check_seen
  check_queues-Ends [] n seen = (omega arith, (refl, (tt, tt)))
  check_queues-Ends (rq ∷ rqs) n seen = elim (Bool-cases (contains seen rq.file_name)) [
    | inl taken ↦ rw taken (λ h. cc (All-contains seen rq.file_name h.0.0))
    | inr free ↦ rw free (elim (stop_start-cases (Schedule.stop_start rq.schedule_condition)) [
      | inl (none_given, fails) ↦ rw (fails (rq.file_name ∷ seen)) (λ h. h.1.0 none_given)
      | inr (given, goes_on) ↦ rw (goes_on (rq.file_name ∷ seen)) (
          let n' = if Schedule.is_inactive rq.schedule_condition then n + 1 else n in
          Ends-mono (check_queues rqs n' (rq.file_name ∷ seen))
            (check_queues-Ends rqs n' (rq.file_name ∷ seen))
            (λ m s h. (
              ground (arith, h.0),
              (h.1.0, ((contains-All seen rq.file_name free, h.1.1.0), (given, h.1.1.1))),
            ))
            (λ s bad good. bad (good.0.1, good.1.1)))
    ])
  ]

  -- No queue but the last one is `Inactive`.
  abbrev pub OnlyLastInactive : List (RunQueue F) → Type 0
  OnlyLastInactive [] = Unit
  OnlyLastInactive (rq ∷ []) = Unit
  OnlyLastInactive (rq ∷ r ∷ rs) =
      (Schedule.is_inactive rq.schedule_condition ≡ false) × OnlyLastInactive (r ∷ rs)

  -- What the code finds out by counting.
  abbrev pub Counted : List (RunQueue F) → ℕ → Type 0
  Counted rqs n = (n ≡ 0) ⊎ ((n ≡ 1) × (last_is_inactive rqs ≡ true))

  last-inactive_count :
      (rqs : List (RunQueue F)) → last_is_inactive rqs ≡ true → inactive_count rqs ≢ 0
  unfolding last_is_inactive
  last-inactive_count [] h = cc
  last-inactive_count (rq ∷ []) h = rw h (λ e. absurd (omega (arith, e)))
  last-inactive_count (rq ∷ r ∷ rs) h = λ e. last-inactive_count (r ∷ rs) h (ground (arith, e))

  pub Counted-OnlyLastInactive :
      (rqs : List (RunQueue F)) → Counted rqs (inactive_count rqs) → OnlyLastInactive rqs
  unfolding last_is_inactive
  Counted-OnlyLastInactive [] h = tt
  Counted-OnlyLastInactive (rq ∷ []) h = tt
  Counted-OnlyLastInactive (rq ∷ r ∷ rs) h =
      elim (Bool-cases (Schedule.is_inactive rq.schedule_condition)) [
        | inl yes_inactive ↦ absurd (not_before yes_inactive (rw yes_inactive at h))
        | inr no_inactive ↦ (no_inactive, Counted-OnlyLastInactive (r ∷ rs) (rw no_inactive at h))
      ]
    where
      not_before :
          Schedule.is_inactive rq.schedule_condition ≡ true
          → (inactive_count (r ∷ rs) + 1 ≡ 0)
            ⊎ ((inactive_count (r ∷ rs) + 1 ≡ 1) × (last_is_inactive (r ∷ rs) ≡ true))
          → ⊥
      not_before _ (inl e) = absurd (omega (arith, e))
      not_before _ (inr (e, last)) = last-inactive_count (r ∷ rs) last (omega (arith, e))

  pub OnlyLastInactive-Counted :
      (rqs : List (RunQueue F)) → OnlyLastInactive rqs → Counted rqs (inactive_count rqs)
  unfolding last_is_inactive
  OnlyLastInactive-Counted [] h = inl refl
  OnlyLastInactive-Counted (rq ∷ []) h =
      elim (Bool-cases (Schedule.is_inactive rq.schedule_condition)) [
        | inl yes_inactive ↦ rw yes_inactive (inr (refl, refl))
        | inr no_inactive ↦ rw no_inactive (inl refl)
      ]
  OnlyLastInactive-Counted (rq ∷ r ∷ rs) (h, hs) = rw h (OnlyLastInactive-Counted (r ∷ rs) hs)

  pub check_inactive_count-Ends :
      (rqs : List (RunQueue F)) (n : ℕ) (seen : List Bytes)
      → Ends
          (λ _ s. (s ≡ seen) × Counted rqs n)
          (λ s. Counted rqs n → ⊥)
          (check_inactive_count rqs n seen)
  unfolding check_inactive_count
  check_inactive_count-Ends rqs n seen = elim (Bool-cases (ltb 1 n)) [
    | inl many ↦ rw many (too_many (ltb→lt 1 n many))
    | inr few ↦ rw few (elim (Bool-cases (ltb 0 n)) [
      | inl one ↦ rw one (elim (Bool-cases (last_is_inactive rqs)) [
        | inl last ↦ rw last (refl, inr (ground (arith, few, one), refl))
        | inr not_last ↦ rw not_last (not_at_end (ground (arith, one)))
      ])
      | inr none_inactive ↦ rw none_inactive (refl, inl (ground (arith, none_inactive)))
    ])
  ]
    where
      too_many : 1 < n → Counted rqs n → ⊥
      too_many h (inl e) = absurd (omega (arith, e, h))
      too_many h (inr (e, _)) = absurd (omega (arith, e, h))

      not_at_end : 0 < n → (n ≡ 0) ⊎ ((n ≡ 1) × (false ≡ true)) → ⊥
      not_at_end h (inl e) = absurd (omega (arith, e, h))
      not_at_end h (inr (_, e)) = cc

  -- The names of a queue beside the pipeline, and that it is `Inactive`.
  abbrev pub extra_names : Option (RunQueue F) → List Bytes
  extra_names none = []
  extra_names (some rq) = rq.file_name ∷ []

  abbrev pub IsInactive : Option (RunQueue F) → Type 0
  IsInactive none = Unit
  IsInactive (some rq) = Schedule.is_inactive rq.schedule_condition ≡ true

  abbrev pub Extra : List Bytes → Option (RunQueue F) → Type 0
  Extra seen o = Unseen seen (extra_names o) × IsInactive o

  pub check_extra_queue-Ends :
      (o : Option (RunQueue F)) (seen : List Bytes)
      → Ends
          (λ _ s. (s ≡ seen_after seen (extra_names o)) × Extra seen o)
          (λ s. Extra seen o → ⊥)
          (check_extra_queue o seen)
  unfolding check_extra_queue check_seen
  check_extra_queue-Ends none seen = (refl, (tt, tt))
  check_extra_queue-Ends (some rq) seen = elim (Bool-cases (contains seen rq.file_name)) [
    | inl taken ↦ rw taken (λ h. cc (All-contains seen rq.file_name h.0.0))
    | inr free ↦ rw free (elim (Bool-cases (Schedule.is_inactive rq.schedule_condition)) [
      | inl yes_inactive ↦ rw yes_inactive (refl, ((contains-All seen rq.file_name free, tt), refl))
      | inr no_inactive ↦ rw no_inactive (λ h. cc h.1)
    ])
  ]

  -- What a configuration of queues must be.
  abbrev pub Valid : RunQueues F → Type 0
  Valid queues =
      (queues.pipeline ≢ [])
      × (Unseen [] (
            names queues.pipeline
            ++ (extra_names queues.erroneous_jobs_queue ++ extra_names queues.done_jobs_queue))
          × (All HasCommand queues.pipeline
              × (OnlyLastInactive queues.pipeline
                  × (IsInactive queues.erroneous_jobs_queue × IsInactive queues.done_jobs_queue))))
