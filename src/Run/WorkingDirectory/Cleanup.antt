-- ===== src/Run/WorkingDirectory/Cleanup.antt =====
-- When a working directory is to be deleted: `needs_cleanup` of evobench-tools/src/run/working_directory.rs.
use evobench.Prelude.{
  ℕ, ◌-◌, ◌*◌, ◌≤◌, ◌≡◌, ◌≢◌, ◌↔◌, ◌⊎◌, inl, inr, refl, Bool, true, false, not, ◌&&◌, ◌||◌, Option,
  none, some, ltb, leb, if◌then◌else◌, arith,
}
use evobench.Prelude.Outcome.{ok, Act, pure, fail, map_err, or_crash, ◌>>=◌}
use evobench.Run.Job
use evobench.Run.WorkingDirectory.{
  WorkingDirectory, WorkingDirectoryAutoCleanOpts, Host, PoolError, host, age_negative,
}

-- Nanoseconds in a day.
abbrev pub day : ℕ
day = 24 * 3600 * 1_000_000_000

-- The last part of the condition: with no closure given, directories are not kept.
abbrev pub commit_allows : WorkingDirectoryAutoCleanOpts → Option Bool → Bool
commit_allows opts have_other = not opts.wait_until_commit_done || Job.unwrap_or have_other true

module _ {W E : Type 0} (on : Host W E) where
  -- `now.duration_since(creation_time)`
  duration_since : ℕ → ℕ → Act W (PoolError E) ℕ
  duration_since now creation =
      if ltb now creation then fail age_negative else pure (now - creation)

  unfoldable pub needs_cleanup :
      WorkingDirectory
      → Option WorkingDirectoryAutoCleanOpts
      → Option Bool
      → Act W (PoolError E) Bool
  unfolding duration_since
  needs_cleanup wd none have_other = pure false
  needs_cleanup wd (some opts) have_other = do
    now ← map_err on.now host
    creation ← or_crash (on.to_systemtime wd.working_directory_status.creation_timestamp)
    age ← duration_since now creation
    pure (
        leb (opts.min_age_days * day) age
        && leb opts.min_num_runs wd.working_directory_status.num_runs
        && commit_allows opts have_other)

-- The directory is old enough and has been used enough, and the option to wait is off, or the closure is
-- missing or says that there are other jobs for the commit.
abbrev pub IsDue : WorkingDirectory → WorkingDirectoryAutoCleanOpts → Option Bool → ℕ → Type 0
IsDue wd opts have_other age =
    (opts.min_age_days * day ≤ age)
    × ((opts.min_num_runs ≤ wd.working_directory_status.num_runs)
        × ((opts.wait_until_commit_done ≡ false) ⊎ (have_other ≢ some false)))

allows_iff :
    (wait : Bool) (have_other : Option Bool)
    → ((not wait || Job.unwrap_or have_other true) ≡ true)
      ↔ ((wait ≡ false) ⊎ (have_other ≢ some false))
unfolding Job.unwrap_or
allows_iff false have_other = (λ _. inl refl, λ _. refl)
allows_iff true none = (λ _. inr (λ e. cc), λ _. refl)
allows_iff true (some true) = (λ _. inr (λ e. cc), λ _. refl)
allows_iff true (some false) = (λ e. cc, λ h. elim h [ inl e ↦ cc | inr n ↦ absurd (n refl) ])

and_iff :
    {A B C : Type 0} (a b c : Bool)
    → ((a ≡ true) ↔ A)
    → ((b ≡ true) ↔ B)
    → ((c ≡ true) ↔ C)
    → ((a && b && c) ≡ true) ↔ (A × (B × C))
and_iff true true true f g h = (λ _. (f.0 refl, (g.0 refl, h.0 refl)), λ _. refl)
and_iff true true false f g h = (λ e. cc, λ (x, (y, z)). h.1 z)
and_iff true false c f g h = (λ e. cc, λ (x, (y, z)). g.1 y)
and_iff false b c f g h = (λ e. cc, λ (x, (y, z)). f.1 x)

leb_iff : (a b : ℕ) → (leb a b ≡ true) ↔ (a ≤ b)
leb_iff a b = ground arith

IsDue-iff :
    (wd : WorkingDirectory) (opts : WorkingDirectoryAutoCleanOpts) (have_other : Option Bool)
    (age : ℕ)
    → ((leb (opts.min_age_days * day) age
          && leb opts.min_num_runs wd.working_directory_status.num_runs
          && commit_allows opts have_other)
        ≡ true)
      ↔ IsDue wd opts have_other age
IsDue-iff wd opts have_other age =
    and_iff (leb (opts.min_age_days * day) age)
      (leb opts.min_num_runs wd.working_directory_status.num_runs) (commit_allows opts have_other)
      (leb_iff (opts.min_age_days * day) age)
      (leb_iff opts.min_num_runs wd.working_directory_status.num_runs)
      (allows_iff opts.wait_until_commit_done have_other)

module _ {W E : Type 0} (on : Host W E) where
  -- Where the clock shows a time after the creation of the directory, the decision is made without an
  -- error, and it is to delete exactly if the directory is at least `min_age_days` old, has at least
  -- `min_num_runs` runs, and the option to wait for the commit is off, or nothing is said of other jobs for
  -- the commit, or there are such jobs.
  pub needs_cleanup_lem :
      (wd : WorkingDirectory) (opts : WorkingDirectoryAutoCleanOpts) (have_other : Option Bool)
      (now creation : ℕ) (w w' : W)
      → on.now w ≡ (ok now, w')
      → on.to_systemtime wd.working_directory_status.creation_timestamp ≡ some creation
      → creation ≤ now
      → (due : Bool) × ((needs_cleanup on wd (some opts) have_other w ≡ (ok due, w'))
          × ((due ≡ true) ↔ IsDue wd opts have_other (now - creation)))
  unfolding needs_cleanup duration_since
  needs_cleanup_lem wd opts have_other now creation w w' clock date h =
      (_, (rw (clock, date) (rw (not_before) refl), IsDue-iff wd opts have_other (now - creation)))
    where
      not_before : ltb now creation ≡ false
      not_before = ground arith
