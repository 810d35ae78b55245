-- ===== src/Run/WorkingDirectory/Saving.antt =====
-- What setting the status of a working directory does, whichever call of the host fails.
use evobench.Prelude.{
  ℕ, ◌+◌, ◌^◌, ◌≡◌, refl, Bool, true, false, some, if◌then◌else◌, ◌⊎◌, inl, inr, ap, ◌∙◌, leb,
}
use mathlib.Core.Path.{subst}
use evobench.Prelude.Bytes.{Bytes, codes}
use evobench.Prelude.Outcome.{ok, ◌>>◌}
use evobench.Prelude.Hoare.{Ends, Ends-mono}
use evobench.Prelude.Local.Steps.{bind-Ends, or_fail-bind, if-bind, if-Ends, call-bind, call-Ends}
use evobench.Run.WorkingDirectory.{
  WorkingDirectory, Status, processing, checked_out, error, finished, examination, Host, host,
  same_status, status_of, with_status, with_num_runs, set_and_save_status, save, signal, count_run,
  save_changed, status_path, is_active,
}

-- The working directory in memory, after its status was set: a change to `Processing` is one more run.
abbrev pub runs_after : Status → WorkingDirectory → ℕ
runs_after processing wd =
    if same_status (status_of wd) processing
    then wd.working_directory_status.num_runs
    else wd.working_directory_status.num_runs + 1
runs_after status wd = wd.working_directory_status.num_runs

abbrev pub set_to : Status → WorkingDirectory → WorkingDirectory
set_to status wd = with_num_runs (runs_after status wd) (with_status status wd)

abbrev pub saved : WorkingDirectory → WorkingDirectory
saved wd = record wd { needs_saving = false }

module _ {W E : Type 0} (on : Host W E) where
  -- The status file was written, from the world that is given.
  abbrev pub Written : WorkingDirectory → W → Type 0
  Written wd w =
      (path : Bytes) × (w' : W) × ((on.add_extension wd.path (codes "status") ≡ some path)
        × (on.ron_to_file_pretty wd.working_directory_status path w ≡ (ok tt, w')))

  signal-Ends :
      (P : WorkingDirectory × W → Type 0) (given : Bool) (wd : WorkingDirectory) (w : W)
      → ((w' : W) → P (wd, w'))
      → Ends (λ _ sw. P sw) P (signal on given (wd, w))
  unfolding signal
  signal-Ends P given wd w h =
      if-Ends _ _ given _ _ (wd, w)
        (λ _. call-Ends (λ _ sw. P sw) P on.send_signal host wd w h (λ u w' e. h w')) (λ _. h w)

  -- However the writing ends, the directory in memory is as it was.
  save-Ends :
      (wd : WorkingDirectory) (w : W)
      → Ends (λ _ sw. (sw.0 ≡ wd) × Written wd w) (λ sw. sw.0 ≡ wd) (save on (wd, w))
  unfolding save status_path
  save-Ends wd w =
      or_fail-bind _ _ _ (on.add_extension wd.path (codes "status")) _ (wd, w) refl
        (λ path e.
          call-bind _ _ (on.ron_to_file_pretty wd.working_directory_status path) host _ wd w
            (λ w'. refl)
            (λ u w1 written.
              let signalled : (w' : W)
                  → Ends (λ _ sw. (sw.0 ≡ wd) × Written wd w) (λ sw. sw.0 ≡ wd)
                      (signal on wd.signal_change (wd, w')) =
                λ w'.
                  Ends-mono (signal on wd.signal_change (wd, w'))
                    (signal-Ends (λ sw. sw.0 ≡ wd) wd.signal_change wd w' (λ w''. refl))
                    (λ _ sw h. (h, (path, w1, (e, written)))) (λ sw h. h) in
              if-bind _ _ _ (is_active wd) _ _ (wd, w1) (λ _. signalled w1)
                (λ _.
                  call-bind _ _ (on.set_executable path) host _ wd w1 (λ w'. refl)
                    (λ u' w2 e'. signalled w2))))

  -- The status file was written if that was needed.
  abbrev pub WrittenIfNeeded : Status → WorkingDirectory → W → Type 0
  WrittenIfNeeded status wd w =
      (same_status (status_of wd) status ≡ false) ⊎ (wd.needs_saving ≡ true)
      → Written (set_to status wd) w

  abbrev Mid : Status → WorkingDirectory → W → WorkingDirectory × W → Type 0
  Mid status wd w sw = (sw.0 ≡ set_to status wd) × WrittenIfNeeded status wd w

  save_counted :
      (status : Status) (wd wd' : WorkingDirectory) (w : W)
      → wd' ≡ set_to status wd
      → status_of wd' ≡ status
      → Ends (λ _ sw. Mid status wd w sw) (λ sw. status_of sw.0 ≡ status) (save on (wd', w))
  save_counted status wd wd' w e st =
      Ends-mono (save on (wd', w)) (save-Ends wd' w)
        (λ _ sw (e', written). (e' ∙ e, λ _. subst (λ d. Written d w) e written))
        (λ sw e'. ap status_of e' ∙ st)

  counted :
      (status : Status) (wd : WorkingDirectory) (w : W)
      → same_status (status_of wd) status ≡ false
      → Ends
          (λ _ sw. Mid status wd w sw)
          (λ sw. status_of sw.0 ≡ status)
          ((count_run on status >> save on) (with_status status wd, w))
  unfolding count_run
  counted processing wd w e =
      if-bind _ _ _ (leb (2 ^ 64) (wd.working_directory_status.num_runs + 1)) _ _ _ (λ _. refl)
        (λ _. save_counted processing wd _ w (rw e refl) refl)
  counted checked_out wd w e = save_counted checked_out wd _ w refl refl
  counted error wd w e = save_counted error wd _ w refl refl
  counted finished wd w e = save_counted finished wd _ w refl refl
  counted examination wd w e = save_counted examination wd _ w refl refl

  same_set :
      (status : Status) (wd : WorkingDirectory)
      → same_status (status_of wd) status ≡ true
      → with_status status wd ≡ set_to status wd
  same_set processing wd e = rw e refl
  same_set checked_out wd e = refl
  same_set error wd e = refl
  same_set finished wd e = refl
  same_set examination wd e = refl

  changed :
      (status : Status) (wd : WorkingDirectory) (w : W)
      → Ends
          (λ _ sw. Mid status wd w sw)
          (λ sw. status_of sw.0 ≡ status)
          (save_changed on status wd (with_status status wd, w))
  unfolding save_changed
  changed status wd w =
      if-Ends _ _ (same_status (status_of wd) status) _ _ (with_status status wd, w)
        (λ e.
          if-Ends _ _ (wd.needs_saving) _ _ (with_status status wd, w)
            (λ _. save_counted status wd (with_status status wd) w (same_set status wd e) refl)
            (λ n. (
              same_set status wd e,
              λ h. elim h [ inl c ↦ absurd (cc (c, e)) | inr c ↦ absurd (cc (c, n)) ],
            )))
        (λ e. counted status wd w e)

  -- Setting the status of a working directory, whichever call of the host fails. After a success the
  -- directory in memory has the status, one more run exactly if it changed to `Processing`, and nothing
  -- that is to be saved, and the status file has been written with that if the status has changed or was
  -- to be saved. After an error or a panic the directory in memory has the new status nevertheless.
  pub set_and_save_status_lem :
      (status : Status) (wd : WorkingDirectory) (w : W)
      → Ends
          (λ _ sw. (sw.0 ≡ saved (set_to status wd)) × WrittenIfNeeded status wd w)
          (λ sw. status_of sw.0 ≡ status)
          (set_and_save_status on status (wd, w))
  unfolding set_and_save_status
  set_and_save_status_lem status wd w =
      bind-Ends _ _ (λ _ sw. Mid status wd w sw) (save_changed on status wd) _
        (with_status status wd, w) (changed status wd w)
        (λ _ sw (e, written). (ap saved e, written))
