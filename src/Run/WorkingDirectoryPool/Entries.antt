-- ===== src/Run/WorkingDirectoryPool/Entries.antt =====
-- The entries of a pool, a map from identifiers to working directories (a `BTreeMap`), as a list sorted by
-- identifier: `get`, assignment through `get_mut`, `insert` and `remove`.
pub mod Count
pub mod Order
use evobench.Prelude.{ℕ, Option, none, some, List, [], ◌∷◌, ◌==◌, if◌then◌else◌}
use Prim.Native.Nat.{Ordering, compare}
use evobench.Run.WorkingDirectory

abbrev pub Entry : Type 0
Entry = ℕ × WorkingDirectory.WorkingDirectory

unfoldable pub get : ℕ → List Entry → Option WorkingDirectory.WorkingDirectory
get id [] = none
get id ((k, wd) ∷ es) = if k == id then some wd else get id es

unfoldable pub set : ℕ → WorkingDirectory.WorkingDirectory → List Entry → List Entry
set id wd' [] = []
set id wd' ((k, wd) ∷ es) = if k == id then (k, wd') ∷ es else (k, wd) ∷ set id wd' es

unfoldable pub insert : ℕ → WorkingDirectory.WorkingDirectory → List Entry → List Entry
insert id wd' [] = (id, wd') ∷ []
insert id wd' ((k, wd) ∷ es) = elim (compare id k) [
  | Ordering.lt ↦ (id, wd') ∷ (k, wd) ∷ es
  | Ordering.eq ↦ (id, wd') ∷ es
  | Ordering.gt ↦ (k, wd) ∷ insert id wd' es
]

unfoldable pub remove : ℕ → List Entry → List Entry
remove id [] = []
remove id ((k, wd) ∷ es) = if k == id then es else (k, wd) ∷ remove id es
