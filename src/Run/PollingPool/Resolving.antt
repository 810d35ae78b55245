-- ===== src/Run/PollingPool/Resolving.antt =====
-- Resolving the names of branches and other references to commits: `resolve_branch_names` and `resolve_references` of
-- evobench-tools/src/run/polling_pool.rs.
use evobench.Prelude.{ℕ, ◌≡◌, refl, sym, Option, none, some, List, [], ◌∷◌}
use mathlib.Core.Path.{subst}
use evobench.Prelude.Bytes.{Bytes}
use evobench.Prelude.Outcome.{ok, Act, crash}
use evobench.Prelude.Hoare.{Ends, Ends-mono}
use evobench.Prelude.Local.Steps.{bind-Ends, or_fail-bind, or_crash-bind, call-bind}
use evobench.SerdeTypes.GitHash
use evobench.Run.WorkingDirectory.{WorkingDirectory, Host, host, bad_git_hash}
use evobench.Run.WorkingDirectoryPool.{
  WorkingDirectoryPool, on_entry, clear_current_working_directory,
}
use evobench.Run.WorkingDirectoryPool.Invariant.{IsValid}
use evobench.Run.WorkingDirectoryPool.Process.States.{clear_current_same}
use evobench.Run.PollingPool.{
  In, Resolved, add_resolved, add_non_resolving, ref_string_in_remote, remote_name, full_reference,
  process_cleared, add_name, resolve_names, resolve_branch_names, parsed, resolve_all,
  resolve_references,
}
use evobench.Run.PollingPool.Reading.{Reads, process_and_clean-Ends}

module _ {W E : Type 0} (on : Host W E) where
  -- As `process_and_clean-Ends`, with the current directory cleared before.
  process_cleared-Ends :
      {T : Type 0} (Q : T → Type 0) (id : ℕ) (timestamp : Bytes) (m : In on T) (context : Bytes)
      (pool : WorkingDirectoryPool) (w : W)
      → Reads on Q m
      → IsValid pool
      → Ends
          (λ t sw. IsValid sw.0 × Q t)
          (λ sw. IsValid sw.0)
          (process_cleared on id timestamp (on_entry on id m crash) context (pool, w))
  unfolding process_cleared
  process_cleared-Ends Q id timestamp m context pool w reads v =
      call-bind _ _ on.lock_exclusive host _ pool w (λ w'. v)
        (λ u w1 e1.
          bind-Ends _ _ (λ _ sw. sw.0 ≡ pool) (clear_current_working_directory on) _ (pool, w1)
            (Ends-mono (clear_current_working_directory on (pool, w1))
              (clear_current_same on pool w1) (λ _ sw e. e) (λ sw e. subst IsValid (sym e) v))
            (λ u2 (p, w2) same_pool.
              process_and_clean-Ends on Q id timestamp m context p w2 reads
                (subst IsValid (sym same_pool) v)))

  module _ (git_rev_parse : Bytes → Bytes → Act W E (Option Bytes)) where
    -- What git said of the reference, in some directory.
    abbrev pub IsSaid : Bytes → Option Bytes → Type 0
    IsSaid reference found =
        (path : Bytes) × (w : W) × (w' : W) × (git_rev_parse path reference w ≡ (ok found, w'))

    module _ {J : Type 0} where
      -- Each branch, in order, is either among the resolved ones, with the commit that git gave and its own job
      -- templates, or its reference is among those that do not resolve.
      pub data IsSplit : List (Bytes × J) → Resolved J → Type 0 where
        none_left : IsSplit [] ([], [])
        resolves :
            {names : List (Bytes × J)} {r : Resolved J} (name : Bytes) (templates : J)
            (id hash : Bytes)
            → IsSaid (ref_string_in_remote remote_name name) (some id)
            → GitHash.from_str id ≡ some hash
            → IsSplit names r
            → IsSplit ((name, templates) ∷ names) (add_resolved name hash templates r)
        does_not_resolve :
            {names : List (Bytes × J)} {r : Resolved J} (name : Bytes) (templates : J)
            → IsSaid (ref_string_in_remote remote_name name) none
            → IsSplit names r
            → IsSplit
                ((name, templates) ∷ names)
                (add_non_resolving (ref_string_in_remote remote_name name) r)

      add_name-Ends :
          (name : Bytes) (templates : J) (found : Option Bytes) (names : List (Bytes × J))
          (wd : WorkingDirectory) (w : W)
          → IsSaid (ref_string_in_remote remote_name name) found
          → Ends
              (λ r sw. (sw.0 ≡ wd) × IsSplit names r)
              (λ sw. sw.0 ≡ wd)
              (resolve_names on git_rev_parse names (wd, w))
          → Ends
              (λ r sw. (sw.0 ≡ wd) × IsSplit ((name, templates) ∷ names) r)
              (λ sw. sw.0 ≡ wd)
              (add_name on git_rev_parse name templates found
                (resolve_names on git_rev_parse names)
                (wd, w))
      unfolding add_name
      add_name-Ends name templates none names wd w said h =
          bind-Ends _ _ _ (resolve_names on git_rev_parse names) _ (wd, w) h
            (λ r sw (e, s). (e, does_not_resolve name templates said s))
      add_name-Ends name templates (some id) names wd w said h =
          or_fail-bind _ _ _ (GitHash.from_str id) bad_git_hash (wd, w) refl
            (λ hash e.
              bind-Ends _ _ _ (resolve_names on git_rev_parse names) _ (wd, w) h
                (λ r sw (e', s). (e', resolves name templates id hash said e s)))

      resolve_names-Reads :
          (names : List (Bytes × J))
          → Reads on (IsSplit names) (resolve_names on git_rev_parse names)
      unfolding resolve_names
      resolve_names-Reads [] wd w = (refl, none_left)
      resolve_names-Reads ((name, templates) ∷ names) wd w =
          call-bind _ _ (git_rev_parse wd.path (ref_string_in_remote remote_name name)) host _ wd w
            (λ w'. refl)
            (λ found w1 e1.
              add_name-Ends name templates found names wd w1 (wd.path, w, w1, e1)
                (resolve_names-Reads names wd w1))

      -- From a valid pool the pool is valid however the resolution of branch names ends. A success accounts for each
      -- of the branches, in order: it is resolved, to the commit that git gave for its reference in the remote, with
      -- its own job templates, or that reference is reported, where git did not know it.
      pub resolve_branch_names_lem :
          (join : List Bytes → Bytes → Bytes) (id : ℕ) (names : List (Bytes × J))
          (pool : WorkingDirectoryPool) (w : W)
          → IsValid pool
          → Ends
              (λ r sw. IsValid sw.0 × IsSplit names r)
              (λ sw. IsValid sw.0)
              (resolve_branch_names on git_rev_parse join id names (pool, w))
      unfolding resolve_branch_names
      resolve_branch_names_lem join id names pool w v =
          call-bind _ _ on.now_with_offset host _ pool w (λ w'. v)
            (λ timestamp w1 e1.
              process_cleared-Ends (IsSplit names) id timestamp
                (resolve_names on git_rev_parse names) _ pool w1 (resolve_names-Reads names) v)

    -- The commit that a reference resolved to.
    abbrev pub IsCommitOf : Bytes → Option Bytes → Type 0
    IsCommitOf reference none = IsSaid reference none
    IsCommitOf reference (some hash) =
        (id : Bytes) × (IsSaid reference (some id) × (GitHash.from_str id ≡ some hash))

    abbrev pub AreCommitsOf : Option Bytes → List Bytes → List (Option Bytes) → Type 0
    AreCommitsOf remote [] [] = Unit
    AreCommitsOf remote (reference ∷ references) (hash ∷ hashes) =
        IsCommitOf (full_reference remote reference) hash × AreCommitsOf remote references hashes
    AreCommitsOf remote _ _ = ⊥

    parsed-Ends :
        (reference : Bytes) (found : Option Bytes) (wd : WorkingDirectory) (w : W)
        → IsSaid reference found
        → Ends
            (λ hash sw. (sw.0 ≡ wd) × IsCommitOf reference hash)
            (λ sw. sw.0 ≡ wd)
            (parsed on git_rev_parse found (wd, w))
    unfolding parsed
    parsed-Ends reference none wd w said = (refl, said)
    parsed-Ends reference (some s) wd w said =
        or_crash-bind _ _ _ (GitHash.from_str s) (wd, w) refl (λ hash e. (refl, (s, (said, e))))

    resolve_all-Reads :
        (remote : Option Bytes) (references : List Bytes)
        → Reads on (AreCommitsOf remote references) (resolve_all on git_rev_parse remote references)
    unfolding resolve_all
    resolve_all-Reads remote [] wd w = (refl, tt)
    resolve_all-Reads remote (reference ∷ references) wd w =
        call-bind _ _ (git_rev_parse wd.path (full_reference remote reference)) host _ wd w
          (λ w'. refl)
          (λ found w1 e1.
            bind-Ends _ _ _ (parsed on git_rev_parse found) _ (wd, w1)
              (parsed-Ends (full_reference remote reference) found wd w1 (wd.path, w, w1, e1))
              (λ hash (wd', w2) (same_wd, c).
                bind-Ends _ _ (λ hs sw. (sw.0 ≡ wd) × AreCommitsOf remote references hs)
                  (resolve_all on git_rev_parse remote references) _ (wd', w2)
                  (Ends-mono (resolve_all on git_rev_parse remote references (wd', w2))
                    (resolve_all-Reads remote references wd' w2)
                    (λ hs sw (e, a). (cc (e, same_wd), a)) (λ sw e. cc (e, same_wd)))
                  (λ hs sw (e, a). (e, (c, a)))))

    -- From a valid pool the pool is valid however the resolution of references ends. A success gives for each
    -- reference, in order, the commit that git gave for it, or nothing where git did not know it.
    pub resolve_references_lem :
        (id : ℕ) (remote : Option Bytes) (references : List Bytes) (pool : WorkingDirectoryPool)
        (w : W)
        → IsValid pool
        → Ends
            (λ hashes sw. IsValid sw.0 × AreCommitsOf remote references hashes)
            (λ sw. IsValid sw.0)
            (resolve_references on git_rev_parse id remote references (pool, w))
    unfolding resolve_references
    resolve_references_lem id remote references pool w v =
        call-bind _ _ on.now_with_offset host _ pool w (λ w'. v)
          (λ timestamp w1 e1.
            process_cleared-Ends (AreCommitsOf remote references) id timestamp
              (resolve_all on git_rev_parse remote references) _ pool w1
              (resolve_all-Reads remote references) v)
