-- ===== src/KeyValFs/Disk/Reads.antt =====
-- What opening a file finds.
use evobench.Prelude.{ℕ, ◌≡◌, refl, sym, ◌∙◌, Option, none, some, List, [], ◌∷◌}
use evobench.Prelude.Bytes.{Bytes}
use evobench.Prelude.Outcome.{Outcome, ok, err, panic, pure, ◌>>=◌}
use evobench.Prelude.Hoare.{Ends}
use evobench.KeyValFs.Disk.{
  Disk, IoErrorKind, not_found, already_exists, other, view, faulty, call, files_at, files_in,
  found, open_file, open_dir,
}
use evobench.KeyValFs.Disk.Effects.{SameAs, view_at}
use evobench.KeyValFs.Disk.Files.{Dir, lookup}

module _ (w0 : Disk) (d f : Bytes) where
  -- The content of the file, or that there is none; no file is changed.
  abbrev pub OpenRead : Outcome IoErrorKind Bytes × Disk → Type 0
  OpenRead (ok content, w) = SameAs w0 w × (view w0 d f ≡ some content)
  OpenRead (err not_found, w) = SameAs w0 w × (view w0 d f ≡ none)
  OpenRead (err already_exists, w) = SameAs w0 w
  OpenRead (err other, w) = SameAs w0 w
  OpenRead (panic, w) = SameAs w0 w

  at_file : (w : Disk) (o : Option Bytes) → SameAs w0 w → view w d f ≡ o → OpenRead (found o w)
  unfolding found
  at_file w none h e = (h, sym (h d f) ∙ e)
  at_file w (some c) h e = (h, sym (h d f) ∙ e)

  at_dir :
      (w : Disk) (o : Option Dir)
      → SameAs w0 w
      → w.dirs d ≡ o
      → OpenRead ((files_at o >>= λ fs. found (lookup f fs)) w)
  unfolding files_at view
  at_dir w none h e = (h, sym (h d f) ∙ rw (e, view) refl)
  at_dir w (some fs) h e = at_file w (lookup f fs) h (view_at w e f)

  at_faults :
      (w : Disk) (l : List (Option ℕ))
      → SameAs w0 w
      → OpenRead ((faulty l >>= λ _. files_in d >>= λ fs. found (lookup f fs)) w)
  unfolding faulty files_in view
  at_faults w [] h = at_dir w (w.dirs d) h refl
  at_faults w (none ∷ r) h = at_dir (record w { faults = r }) (w.dirs d) h refl
  at_faults w (some n ∷ r) h = h

  pub open_file-OpenRead : (w : Disk) → SameAs w0 w → OpenRead (open_file d f w)
  unfolding open_file call files_in
  open_file-OpenRead w h = at_faults w w.faults h

module _ (w0 : Disk) (d : Bytes) where
  dir_SameAs :
      (w : Disk) (o : Option Dir)
      → SameAs w0 w
      → Ends {S = Disk} (λ _ w. SameAs w0 w) (SameAs w0) ((files_at o >>= λ _. pure tt) w)
  unfolding files_at
  dir_SameAs w none h = h
  dir_SameAs w (some fs) h = h

  faults_SameAs :
      (w : Disk) (l : List (Option ℕ))
      → SameAs w0 w
      → Ends {S = Disk}
          (λ _ w. SameAs w0 w)
          (SameAs w0)
          ((faulty l >>= λ _. files_in d >>= λ _. pure tt) w)
  unfolding faulty files_in view
  faults_SameAs w [] h = dir_SameAs w (w.dirs d) h
  faults_SameAs w (none ∷ r) h = dir_SameAs (record w { faults = r }) (w.dirs d) h
  faults_SameAs w (some n ∷ r) h = h

  pub open_dir-SameAs :
      (w : Disk)
      → SameAs w0 w
      → Ends {S = Disk} (λ (_ : Unit {0}) w. SameAs w0 w) (SameAs w0) (open_dir d w)
  unfolding open_dir call files_in
  open_dir-SameAs w h = faults_SameAs w w.faults h
