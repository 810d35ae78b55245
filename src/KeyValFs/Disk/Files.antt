-- ===== src/KeyValFs/Disk/Files.antt =====
-- The files of one directory, by name.
use evobench.Prelude.{◌≡◌, Option, none, some, List, [], ◌∷◌, arith, if◌then◌else◌}
use evobench.Prelude.Bytes.{Bytes, same, same_iff}

abbrev pub Dir : Type 0
Dir = List (Bytes × Bytes)

unfoldable pub lookup : Bytes → Dir → Option Bytes
lookup f [] = none
lookup f ((g, content) ∷ fs) = if same g f then some content else lookup f fs

unfoldable pub insert : Bytes → Bytes → Dir → Dir
insert f content [] = (f, content) ∷ []
insert f content ((g, old) ∷ fs) =
    if same g f then (f, content) ∷ fs else (g, old) ∷ insert f content fs

unfoldable pub remove : Bytes → Dir → Dir
remove f [] = []
remove f ((g, old) ∷ fs) = let rest = remove f fs in if same g f then rest else (g, old) ∷ rest

unfoldable pub names : Dir → List Bytes
names [] = []
names ((g, content) ∷ fs) = g ∷ names fs

pub lookup-insert :
    (f g content : Bytes) (fs : Dir)
    → lookup g (insert f content fs) ≡ (if same f g then some content else lookup g fs)
unfolding lookup insert
lookup-insert f g content [] = ground arith
lookup-insert f g content ((h, old) ∷ fs) =
    ground (arith, same_iff f g, same_iff h f, same_iff h g, lookup-insert f g content fs)

pub lookup-remove :
    (f g : Bytes) (fs : Dir) → lookup g (remove f fs) ≡ (if same f g then none else lookup g fs)
unfolding lookup remove
lookup-remove f g [] = ground arith
lookup-remove f g ((h, old) ∷ fs) =
    ground (arith, same_iff f g, same_iff h f, same_iff h g, lookup-remove f g fs)
