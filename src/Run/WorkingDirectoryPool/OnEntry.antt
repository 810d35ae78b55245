-- ===== src/Run/WorkingDirectoryPool/OnEntry.antt =====
-- What a method of a working directory guarantees of the pool that holds the directory.
use evobench.Prelude.{◌≡◌, refl, ℕ, Option, none, some}
use evobench.Prelude.Outcome.{Act}
use evobench.Prelude.Hoare.{Ends}
use evobench.Prelude.Local.Steps.{zoom-Ends}
use evobench.Run.WorkingDirectory.{WorkingDirectory, Host, PoolError}
use evobench.Run.WorkingDirectoryPool.{
  WorkingDirectoryPool, Do, with_entries, get_working_directory, at_entry, on_entry,
}
use evobench.Run.WorkingDirectoryPool.Entries

-- `Mid` and `Worse` are what the method guarantees of a directory that is there.
module _ {W E A : Type 0} (on : Host W E) (Post : A → WorkingDirectoryPool × W → Type 0)
    (Bad : WorkingDirectoryPool × W → Type 0)
    (Mid : WorkingDirectory → A → WorkingDirectory × W → Type 0)
    (Worse : WorkingDirectory → WorkingDirectory × W → Type 0) (id : ℕ)
    (m : Act (WorkingDirectory × W) (PoolError E) A) (otherwise : Do on A)
    (pool : WorkingDirectoryPool) (w : W) where
  abbrev pub WhenThere : Option WorkingDirectory → Type 0
  WhenThere o =
      (wd : WorkingDirectory)
      → o ≡ some wd
      → Ends (Mid wd) (Worse wd) (m (wd, w))
        × (((a : A) (wd' : WorkingDirectory) (w' : W)
              → Mid wd a (wd', w')
              → Post a (with_entries (Entries.set id wd') pool, w'))
            × ((wd' : WorkingDirectory) (w' : W)
                → Worse wd (wd', w')
                → Bad (with_entries (Entries.set id wd') pool, w')))

  at_entry-Ends :
      (o : Option WorkingDirectory)
      → (o ≡ none → Ends Post Bad (otherwise (pool, w)))
      → WhenThere o
      → Ends Post Bad (at_entry on o id m otherwise (pool, w))
  at_entry-Ends none absent present = absent refl
  at_entry-Ends (some wd) absent present =
      let (h, (k, bad)) = present wd refl in
      zoom-Ends Post Bad (Mid wd) (Worse wd) wd (λ wd'. with_entries (Entries.set id wd')) m pool w
        h k bad

  pub on_entry-Ends :
      (Entries.get id pool.all_entries ≡ none → Ends Post Bad (otherwise (pool, w)))
      → WhenThere (Entries.get id pool.all_entries)
      → Ends Post Bad (on_entry on id m otherwise (pool, w))
  unfolding on_entry get_working_directory
  on_entry-Ends absent present = at_entry-Ends (Entries.get id pool.all_entries) absent present
