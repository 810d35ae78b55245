-- ===== src/Tests/Polling.antt =====
-- The theorems on the polling pool at concrete inputs.
use evobench.Prelude.{ℕ, ◌+◌, Bool, true, false, Option, none, some, List, [], ◌∷◌, ltb, arith}
use evobench.Prelude.Bytes.{Bytes, codes, same}
use evobench.Prelude.Outcome.{ok, Act}
use evobench.Prelude.Hoare.{Ends}
use evobench.SerdeTypes.GitHash
use evobench.Run.WorkingDirectory.{Host}
use evobench.Run.WorkingDirectoryPool.Invariant.{IsValid}
use evobench.Run.PollingPool.{commit_is_valid, resolve_branch_names, resolve_references}
use evobench.Run.PollingPool.Commits.{IsAnswer, commit_is_valid_lem}
use evobench.Run.PollingPool.Resolving.{
  IsSplit, resolve_branch_names_lem, AreCommitsOf, resolve_references_lem,
}
use evobench.Tests.Pool.{hash, host, pool, pool-IsValid}

-- The commit is there only once something was fetched.
abbrev remote : Host ℕ Bool
remote = record host {
  fetch_references = λ path tags refs w. (ok tt, w + 100);
  contains_reference = λ path r w. (ok (ltb 100 w), w);
}

-- Only the branch master is known.
abbrev git_rev_parse : Bytes → Bytes → Act ℕ Bool (Option Bytes)
git_rev_parse path reference w = (ok (known (same reference (codes "remotes/origin/master"))), w)
  where
    known : Bool → Option Bytes
    known true = some (GitHash.to_string hash)
    known false = none

abbrev names : List (Bytes × ℕ)
names = (codes "feature", 1) ∷ (codes "master", 2) ∷ []

commit_is_valid_lem_example :
    Ends
      (λ answer sw. IsValid sw.0 × IsAnswer remote hash answer)
      (λ sw. IsValid sw.0)
      (commit_is_valid remote hash (pool, 0))
commit_is_valid_lem_example = commit_is_valid_lem remote hash pool 0 pool-IsValid (omega arith)

resolve_branch_names_lem_example :
    Ends
      (λ r sw. IsValid sw.0 × IsSplit remote git_rev_parse names r)
      (λ sw. IsValid sw.0)
      (resolve_branch_names remote git_rev_parse (λ names separator. separator) 0 names (pool, 0))
resolve_branch_names_lem_example =
    resolve_branch_names_lem remote git_rev_parse (λ names separator. separator) 0 names pool 0
      pool-IsValid

resolve_references_lem_example :
    Ends
      (λ hashes sw.
        IsValid sw.0
        × AreCommitsOf remote git_rev_parse
            (some (codes "remotes/origin"))
            (codes "master" ∷ [])
            hashes)
      (λ sw. IsValid sw.0)
      (resolve_references remote git_rev_parse 0
        (some (codes "remotes/origin"))
        (codes "master" ∷ [])
        (pool, 0))
resolve_references_lem_example =
    resolve_references_lem remote git_rev_parse 0 (some (codes "remotes/origin"))
      (codes "master" ∷ []) pool 0 pool-IsValid
