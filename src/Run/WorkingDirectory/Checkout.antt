-- ===== src/Run/WorkingDirectory/Checkout.antt =====
-- The commit of a working directory, and what checking one out does.
use evobench.Prelude.{◌≡◌, refl, sym, ap, ◌∙◌, Bool, true, false, Option, none, some, ◌⊎◌, inl, inr}
use mathlib.Core.Path.{subst}
use evobench.Prelude.Bytes.{Bytes, same, same_iff}
use evobench.Prelude.Outcome.{ok, or_fail}
use evobench.Prelude.Hoare.{Ends, Ends-mono}
use evobench.Prelude.Local.Steps.{bind-Ends, if-Ends, call-bind}
use evobench.SerdeTypes.GitHash
use evobench.Run.WorkingDirectory.{
  WorkingDirectory, Host, PoolError, host, status_of, checked_out, set_and_save_status, commit_at,
  noncached_commit, known_or_asked, bad_git_hash, fetch, fetch_missing, already_on, move_to,
  checkout, FetchTags, is_always, references,
}
use evobench.Run.WorkingDirectory.Saving.{set_and_save_status_lem}

abbrev with_option : Option Bytes → WorkingDirectory → WorkingDirectory
with_option o wd = record wd { commit = o }

abbrev pub with_commit : Bytes → WorkingDirectory → WorkingDirectory
with_commit c wd = record wd { commit = some c }

module _ {W E : Type 0} (on : Host W E) where
  noncached_commit-Ends :
      (path : Bytes) (wd : WorkingDirectory) (w : W)
      → Ends (λ c sw. sw.0 ≡ wd) (λ sw. sw.0 ≡ wd) (noncached_commit on path (wd, w))
  unfolding noncached_commit
  noncached_commit-Ends path wd w =
      call-bind _ _ (on.get_head_commit_id path) host _ wd w (λ w'. refl)
        (λ head w' e. or_fail-Ends (GitHash.from_str head) w')
    where
      or_fail-Ends :
          (o : Option Bytes) (w' : W)
          → Ends {S = WorkingDirectory × W}
              (λ c sw. sw.0 ≡ wd)
              (λ sw. sw.0 ≡ wd)
              (or_fail {E = PoolError E} o bad_git_hash (wd, w'))
      or_fail-Ends none w' = refl
      or_fail-Ends (some c) w' = refl

  asked :
      (path : Bytes) (o : Option Bytes) (wd : WorkingDirectory) (w : W)
      → wd.commit ≡ o
      → Ends (λ c sw. sw.0 ≡ with_commit c wd) (λ sw. sw.0 ≡ wd) (known_or_asked on path o (wd, w))
  unfolding known_or_asked
  asked path (some c) wd w e = ap (λ o. with_option o wd) e
  asked path none wd w e =
      bind-Ends _ _ (λ c sw. sw.0 ≡ wd) (noncached_commit on path) _ (wd, w)
        (noncached_commit-Ends path wd w) (λ c sw h. ap (with_commit c) h)

  -- Asking for the commit changes nothing but the commit that is known.
  pub commit_at-Ends :
      (wd : WorkingDirectory) (w : W)
      → Ends (λ c sw. sw.0 ≡ with_commit c wd) (λ sw. sw.0 ≡ wd) (commit_at on (wd, w))
  unfolding commit_at
  commit_at-Ends wd w = asked wd.path wd.commit wd w refl

  -- The directory is on the commit, in memory and for git: git said so before, and the status is as it was, or git
  -- reset the directory to the commit, and the status is `CheckedOut`.
  abbrev pub IsOn : Bytes → WorkingDirectory → W → WorkingDirectory → Type 0
  IsOn commit wd w wd' =
      (wd'.commit ≡ some commit)
      × (((w' : W) × ((on.get_head_commit_id wd.path w ≡ (ok (GitHash.to_string commit), w'))
              × (status_of wd' ≡ status_of wd)))
          ⊎ ((before : W) × (after : W) × (on.git_reset_hard wd.path (GitHash.to_string commit)
                  before
                ≡ (ok tt, after))
              × (status_of wd' ≡ checked_out)))

  fetch-Ends :
      (commit : Option Bytes) (wd : WorkingDirectory) (w : W)
      → Ends (λ _ sw. sw.0 ≡ wd) (λ sw. sw.0 ≡ wd) (fetch on commit (wd, w))
  unfolding fetch
  fetch-Ends commit wd w =
      call-bind _ _ (on.fetch_references wd.path true (references commit)) host _ wd w (λ w'. refl)
        (λ _ w' e. refl)

  fetch_missing-Ends :
      (commit : Bytes) (b : Bool) (wd : WorkingDirectory) (w : W)
      → Ends (λ _ sw. sw.0 ≡ wd) (λ sw. sw.0 ≡ wd) (fetch_missing on commit b (wd, w))
  unfolding fetch_missing
  fetch_missing-Ends commit true wd w = fetch-Ends (some commit) wd w
  fetch_missing-Ends commit false wd w =
      call-bind _ _ (on.contains_reference wd.path (GitHash.to_string commit)) host _ wd w
        (λ w'. refl)
        (λ there w' e.
          if-Ends _ _ there _ _ (wd, w') (λ _. refl) (λ _. fetch-Ends (some commit) wd w'))

  already_on-Ends :
      (commit : Bytes) (b : Bool) (wd : WorkingDirectory) (w0 w : W)
      → on.get_head_commit_id wd.path w0 ≡ (ok (GitHash.to_string commit), w)
      → Ends (λ _ sw. IsOn commit wd w0 sw.0) (λ _. Unit) (already_on on commit b (wd, w))
  unfolding already_on
  already_on-Ends commit b wd w0 w at_head =
      bind-Ends _ _ (λ c sw. sw.0 ≡ with_commit c wd) (commit_at on) _ (wd, w)
        (Ends-mono (commit_at on (wd, w)) (commit_at-Ends wd w) (λ c sw h. h) (λ sw h. tt))
        (λ known (wd', w') e.
          if-Ends _ _ (same known commit) _ _ (wd', w')
            (λ is_same.
              let on_it : IsOn commit wd w0 wd' = (
                ap (λ d. d.commit) e ∙ ap some ((same_iff known commit).0 is_same),
                inl (w, (at_head, ap status_of e)),
              ) in
              if-Ends _ _ b _ _ (wd', w')
                (λ _.
                  Ends-mono (fetch on (some commit) (wd', w')) (fetch-Ends (some commit) wd' w')
                    (λ _ sw h. subst (IsOn commit wd w0) (sym h) on_it) (λ sw h. tt))
                (λ _. on_it))
            (λ _. tt))

  move_to-Ends :
      (commit : Bytes) (b : Bool) (wd : WorkingDirectory) (w0 w : W)
      → Ends (λ _ sw. IsOn commit wd w0 sw.0) (λ _. Unit) (move_to on commit b (wd, w))
  unfolding move_to
  move_to-Ends commit b wd w0 w =
      bind-Ends _ _ (λ _ sw. sw.0 ≡ wd) (fetch_missing on commit b) _ (wd, w)
        (Ends-mono (fetch_missing on commit b (wd, w)) (fetch_missing-Ends commit b wd w)
          (λ _ sw h. h) (λ sw h. tt))
        (λ ran_fetch (wd', w') e.
          call-bind _ _ (on.git_reset_hard wd'.path (GitHash.to_string commit)) host _ wd' w'
            (λ w''. tt)
            (λ u w'' done.
              let was_reset : on.git_reset_hard wd.path (GitHash.to_string commit) w'
                  ≡ (ok tt, w'') =
                subst (λ d. on.git_reset_hard d.path (GitHash.to_string commit) w' ≡ (ok tt, w'')) e
                  done in
              bind-Ends _ _ (λ _ sw. IsOn commit wd w0 sw.0) (set_and_save_status on checked_out) _
                (with_commit commit wd', w'')
                (Ends-mono (set_and_save_status on checked_out (with_commit commit wd', w''))
                  (set_and_save_status_lem on checked_out (with_commit commit wd') w'')
                  (λ _ sw (h, _). (ap (λ d. d.commit) h, inr (w', w'', was_reset, ap status_of h)))
                  (λ sw _. tt))
                (λ _ sw h. h)))

  -- After a successful checkout, whatever was fetched, the directory is on the commit: either git said that it was
  -- there before the checkout, and the status is unchanged, or git reset it to the commit in the checkout,
  -- and the status is `CheckedOut`. The commit is the one that is known in memory.
  pub checkout_lem :
      (commit : Bytes) (fetch_tags : FetchTags) (wd : WorkingDirectory) (w : W)
      → Ends (λ _ sw. IsOn commit wd w sw.0) (λ _. Unit) (checkout on commit fetch_tags (wd, w))
  unfolding checkout
  checkout_lem commit fetch_tags wd w =
      call-bind _ _ (on.get_head_commit_id wd.path) host _ wd w (λ w'. tt)
        (λ head w' e.
          if-Ends _ _ (same head (GitHash.to_string commit)) _ _ (wd, w')
            (λ h. already_on-Ends commit (is_always fetch_tags) wd w w' (
              subst (λ c. on.get_head_commit_id wd.path w ≡ (ok c, w'))
                ((same_iff head (GitHash.to_string commit)).0 h) e))
            (λ _. move_to-Ends commit (is_always fetch_tags) wd w w'))
