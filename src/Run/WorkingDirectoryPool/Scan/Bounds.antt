-- ===== src/Run/WorkingDirectoryPool/Scan/Bounds.antt =====
-- The next identifier is above all identifiers of directories that were found.
use evobench.Prelude.{
  ℕ, ◌+◌, ◌≤◌, ◌<◌, Option, none, some, List, [], ◌∷◌, ltb, leb, All, Bool-cases, Option-cases, inl,
  inr, arith,
}
use mathlib.Core.Path.{subst}
use evobench.Prelude.Bytes.{Bytes}
use evobench.KeyValFs.TimeKey.{split_once}
use evobench.Run.WorkingDirectory.{DirEntry}
use evobench.Run.WorkingDirectoryPool.Id.{from_prefixless_str}
use evobench.Run.WorkingDirectoryPool.Scan.{
  raise_next, found_at, passed_over, scan_found, scan_passed, scan_name, scan_dir, scan_entry,
  put_found, scan_entries,
}

IsFound : Option (ℕ × Bytes) → ℕ → Type 0
IsFound none n = Unit
IsFound (some f) n = f.0 < n

-- The next identifier does not decrease, and is above the one that was found.
IsScanned : ℕ → Option (Option (ℕ × Bytes) × ℕ) → Type 0
IsScanned n none = Unit
IsScanned n (some (found, n')) = (n ≤ n') × IsFound found n'

IsRaised : ℕ → ℕ → Option ℕ → Type 0
IsRaised id n none = Unit
IsRaised id n (some m) = (n ≤ m) × (id < m)

raise_next-IsRaised : (id n : ℕ) → IsRaised id n (raise_next id n)
unfolding IsRaised
raise_next-IsRaised id n = elim (Bool-cases (ltb id n)) [
  | inl e ↦ rw e (ground arith)
  | inr e ↦ rw e (elim (Bool-cases (leb 18446744073709551616 (id + 1))) [
    | inl f ↦ rw f tt
    | inr f ↦ rw f (ground arith)
  ])
]

found_at-IsScanned :
    (path : Bytes) (id n : ℕ) (o : Option ℕ) → IsRaised id n o → IsScanned n (found_at path id o)
unfolding found_at IsScanned IsRaised IsFound
found_at-IsScanned path id n none h = tt
found_at-IsScanned path id n (some m) h = h

passed_over-IsScanned : (id n : ℕ) (o : Option ℕ) → IsRaised id n o → IsScanned n (passed_over o)
unfolding passed_over IsScanned IsRaised IsFound
passed_over-IsScanned id n none h = tt
passed_over-IsScanned id n (some m) (h, k) = (h, tt)

scan_found-IsScanned : (path : Bytes) (o : Option ℕ) (n : ℕ) → IsScanned n (scan_found path o n)
unfolding scan_found IsScanned IsFound
scan_found-IsScanned path none n = (omega arith, tt)
scan_found-IsScanned path (some id) n = found_at-IsScanned path id n _ (raise_next-IsRaised id n)

scan_passed-IsScanned : (o : Option ℕ) (n : ℕ) → IsScanned n (scan_passed o n)
unfolding scan_passed IsScanned IsFound
scan_passed-IsScanned none n = (omega arith, tt)
scan_passed-IsScanned (some id) n = passed_over-IsScanned id n _ (raise_next-IsRaised id n)

scan_name-IsScanned :
    (path fname : Bytes) (o : Option (Bytes × Bytes)) (n : ℕ)
    → IsScanned n (scan_name path fname o n)
unfolding scan_name
scan_name-IsScanned path fname none n = scan_found-IsScanned path (from_prefixless_str fname) n
scan_name-IsScanned path fname (some (id_str, rest)) n =
    scan_passed-IsScanned (from_prefixless_str id_str) n

scan_dir-IsScanned : (path : Bytes) (o : Option Bytes) (n : ℕ) → IsScanned n (scan_dir path o n)
unfolding scan_dir IsScanned IsFound
scan_dir-IsScanned path none n = (omega arith, tt)
scan_dir-IsScanned path (some fname) n = scan_name-IsScanned path fname (split_once b'.' fname) n

scan_entry-IsScanned : (entry : DirEntry) (n : ℕ) → IsScanned n (scan_entry entry n)
unfolding scan_entry IsScanned IsFound
scan_entry-IsScanned entry n = elim (Bool-cases entry.is_dir) [
  | inl e ↦ rw e (scan_dir-IsScanned entry.entry_path entry.file_name n)
  | inr e ↦ rw e (omega arith, tt)
]

-- All that were found are below the last next identifier.
abbrev pub AreScanned : ℕ → Option (List (ℕ × Bytes) × ℕ) → Type 0
AreScanned n none = Unit
AreScanned n (some (found, last)) = (n ≤ last) × All (λ f. f.0 < last) found

put_found-AreScanned :
    (n n' : ℕ) (found : Option (ℕ × Bytes)) (rest : List (ℕ × Bytes)) (last : ℕ)
    → IsScanned n (some (found, n'))
    → AreScanned n' (some (rest, last))
    → AreScanned n (some (put_found found rest, last))
unfolding IsScanned IsFound put_found
put_found-AreScanned n n' none rest last (le, u) (le', h) = (omega arith, h)
put_found-AreScanned n n' (some f) rest last (le, lt) (le', h) = (omega arith, (omega arith, h))

pub scan_entries-AreScanned :
    (entries : List DirEntry) (n : ℕ) → AreScanned n (scan_entries entries n)
unfolding scan_entries
scan_entries-AreScanned [] n = (omega arith, tt)
scan_entries-AreScanned (entry ∷ entries) n = elim (Option-cases (scan_entry entry n)) [
  | inl e ↦ rw e tt
  | inr ((found, n'), e) ↦
      let this : IsScanned n (some (found, n')) =
        subst (IsScanned n) e (scan_entry-IsScanned entry n) in
      elim (Option-cases (scan_entries entries n')) [
        | inl e' ↦ rw e (rw e' tt)
        | inr ((rest, last), e') ↦ rw e (
            rw e' (
              put_found-AreScanned n n' found rest last this
                (subst (AreScanned n') e' (scan_entries-AreScanned entries n'))))
      ]
]
