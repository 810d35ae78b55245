-- ===== src/KeyValFs/Disk/Effects.antt =====
-- What each call of `std::fs` does to the files that a reader finds.
use evobench.Prelude.{
  ℕ, ◌≡◌, refl, sym, ◌∙◌, Option, none, some, List, [], ◌∷◌, true, false, ◌&&◌, take, arith,
  if◌then◌else◌,
}
use evobench.Prelude.Bytes.{Bytes, same, same_iff}
use evobench.Prelude.Outcome.{Outcome, ok, err, panic, resume}
use evobench.Prelude.Hoare.{Ends, Triple, Triple-bind}
use evobench.KeyValFs.Disk.{
  Disk, IoErrorKind, faulty, files_at, view, call, put_dir, files_in, create, written, write_all,
  moved, rename, removed, remove_file,
}
use evobench.KeyValFs.Disk.Files.{Dir, lookup, insert, remove, lookup-insert, lookup-remove}

abbrev pub SameAs : Disk → Disk → Type 0
SameAs w0 w = (e g : Bytes) → view w e g ≡ view w0 e g

-- One file is `content` afterwards, and every other file of every directory is as it was.
abbrev pub Wrote : Disk → Bytes → Bytes → Option Bytes → Disk → Type 0
Wrote w0 d f content w =
    (e g : Bytes) → view w e g ≡ (if same d e && same f g then content else view w0 e g)

pub call-SameAs : (w0 : Disk) → Triple (SameAs w0) call (λ _. SameAs w0) (SameAs w0)
unfolding call view
call-SameAs w0 = record { at = λ w. at_faults w w.faults }
  where
    at_faults :
        (w : Disk) (l : List (Option ℕ))
        → SameAs w0 w
        → Ends (λ _. SameAs w0) (SameAs w0) (faulty l w)
    at_faults w [] h = h
    at_faults w (none ∷ r) h = h
    at_faults w (some n ∷ r) h = h

abbrev Found : Disk → Bytes → Dir → Disk → Type 0
Found w0 d fs w = SameAs w0 w × (w.dirs d ≡ some fs)

files_in-Found :
    (w0 : Disk) (d : Bytes) → Triple (SameAs w0) (files_in d) (λ fs. Found w0 d fs) (SameAs w0)
unfolding files_in view
files_in-Found w0 d = record { at = λ w h. at_dir w h (w.dirs d) refl }
  where
    at_dir :
        (w : Disk)
        → SameAs w0 w
        → (o : Option Dir) → w.dirs d ≡ o
        → Ends (λ fs. Found w0 d fs) (SameAs w0) (files_at o w)
    at_dir w h none e = h
    at_dir w h (some fs) e = (h, e)

pub view_at :
    {d : Bytes} {fs : Dir} (w : Disk) → w.dirs d ≡ some fs → (g : Bytes) → view w d g ≡ lookup g fs
unfolding view
view_at w e g = rw (e, view)

view-put_dir :
    (d e g : Bytes) (fs : Dir) (w : Disk)
    → view (put_dir d fs w).1 e g ≡ (if same d e then lookup g fs else view w e g)
unfolding view put_dir
view-put_dir d e g fs w = ground arith

-- Putting back the directory with one file written, and with one removed.
module _ (w0 : Disk) (d f : Bytes) (fs : Dir) (w : Disk) (h : Found w0 d fs w) where
  view_in : (e g : Bytes) → same d e ≡ true → lookup g fs ≡ view w0 e g
  view_in e g p =
      let same_dir : d ≡ e = (same_iff d e).0 p in rw (← same_dir) (sym (view_at w h.1 g) ∙ h.0 d g)

  put_dir-Wrote :
      (content : Bytes) → Wrote w0 d f (some content) (put_dir d (insert f content fs) w).1
  put_dir-Wrote content e g =
      rw (view-put_dir d e g (insert f content fs) w)
        (ground (arith, lookup-insert f g content fs, view_in e g, h.0 e g))

  put_dir-Removed : Wrote w0 d f none (put_dir d (remove f fs) w).1
  put_dir-Removed e g =
      rw (view-put_dir d e g (remove f fs) w)
        (ground (arith, lookup-remove f g fs, view_in e g, h.0 e g))

-- Every other file is as it was.
abbrev pub Untouched : Disk → Bytes → Bytes → Disk → Type 0
Untouched w0 d f w = (e g : Bytes) → (same d e && same f g) ≡ false → view w e g ≡ view w0 e g

pub Wrote-Untouched :
    (w0 : Disk) (d f : Bytes) (content : Option Bytes) (w : Disk)
    → Wrote w0 d f content w
    → Untouched w0 d f w
Wrote-Untouched w0 d f content w h e g p = rw (h e g) (rw p)

-- `content` has moved from one file to another.
abbrev pub Moved : Disk → Bytes → Bytes → Bytes → Bytes → Disk → Type 0
Moved w0 d f f' content w =
    (e g : Bytes)
    → view w e g ≡ (
        if same d e && same f' g
        then some content
        else if same d e && same f g
        then none
        else view w0 e g)

abbrev pub Renamed : Disk → Bytes → Bytes → Bytes → Disk → Type 0
Renamed w0 d f f' w = (content : Bytes) → view w0 d f ≡ some content → Moved w0 d f f' content w

module _ (w0 : Disk) (d f : Bytes) where
  SameAs-refl : SameAs w0 w0
  SameAs-refl e g = refl

  pub create-Wrote : Ends (λ _. Wrote w0 d f (some [])) (SameAs w0) (create d f w0)
  unfolding create
  create-Wrote =
      (Triple-bind _
          (λ _.
            Triple-bind _ (λ fs. record { at = λ w h. put_dir-Wrote w0 d f fs w h [] }) _
              (files_in-Found w0 d))
          _ (call-SameAs w0)).at
        w0 SameAs-refl

  pub remove_file-Wrote : Ends (λ _. Wrote w0 d f none) (SameAs w0) (remove_file d f w0)
  unfolding remove_file
  remove_file-Wrote =
      (Triple-bind _
          (λ _.
            Triple-bind _ (λ fs. record { at = λ w h. at_file fs w h (lookup f fs) }) _
              (files_in-Found w0 d))
          _ (call-SameAs w0)).at
        w0 SameAs-refl
    where
      at_file :
          (fs : Dir) (w : Disk)
          → Found w0 d fs w
          → (o : Option Bytes) → Ends (λ _. Wrote w0 d f none) (SameAs w0) (removed o d f fs w)
      at_file fs w h none = h.0
      at_file fs w h (some content) = put_dir-Removed w0 d f fs w h

  -- A failing write leaves a part of the content in its own file, and touches no other.
  pub write_all-Wrote :
      (content : Bytes)
      → Ends (λ _. Wrote w0 d f (some content)) (Untouched w0 d f) (write_all d f content w0)
  unfolding write_all view
  write_all-Wrote content =
      at_dir (files_in d w0).0 (files_in d w0).1 ((files_in-Found w0 d).at w0 SameAs-refl)
    where
      at_faults :
          (fs : Dir) (w : Disk)
          → Found w0 d fs w
          → (l : List (Option ℕ))
          → Ends (λ _. Wrote w0 d f (some content)) (Untouched w0 d f) (written l d f content fs w)
      at_faults fs w h [] = put_dir-Wrote w0 d f fs w h content
      at_faults fs w h (none ∷ r) = put_dir-Wrote w0 d f fs (record w { faults = r }) h content
      at_faults fs w h (some n ∷ r) =
          Wrote-Untouched w0 d f (some (take n content))
            (put_dir d (insert f (take n content) fs) (record w { faults = r })).1
            (put_dir-Wrote w0 d f fs (record w { faults = r }) h (take n content))

      at_dir :
          (r : Outcome IoErrorKind Dir) (w : Disk)
          → Ends (λ fs. Found w0 d fs) (SameAs w0) (r, w)
          → Ends
              (λ _. Wrote w0 d f (some content))
              (Untouched w0 d f)
              (resume r (λ fs w'. written w'.faults d f content fs w') w)
      at_dir (ok fs) w h = at_faults fs w h w.faults
      at_dir (err k) w h = λ e g p. h e g
      at_dir panic w h = λ e g p. h e g

  -- Putting back the directory with one file moved to another name.
  put_dir-Moved :
      (f' content : Bytes) (fs : Dir) (w : Disk)
      → Found w0 d fs w
      → Moved w0 d f f' content (put_dir d (insert f' content (remove f fs)) w).1
  put_dir-Moved f' content fs w h e g =
      rw (view-put_dir d e g (insert f' content (remove f fs)) w) (
        ground (
          arith,
          lookup-insert f' g content (remove f fs),
          lookup-remove f g fs,
          view_in w0 d f fs w h e g,
          h.0 e g,
        ))

  pub rename-Moved : (f' : Bytes) → Ends (λ _. Renamed w0 d f f') (SameAs w0) (rename d f f' w0)
  unfolding rename
  rename-Moved f' =
      (Triple-bind _
          (λ _.
            Triple-bind _ (λ fs. record { at = λ w h. at_file fs w h (lookup f fs) refl }) _
              (files_in-Found w0 d))
          _ (call-SameAs w0)).at
        w0 SameAs-refl
    where
      at_file :
          (fs : Dir) (w : Disk)
          → Found w0 d fs w
          → (o : Option Bytes) → lookup f fs ≡ o
          → Ends (λ _. Renamed w0 d f f') (SameAs w0) (moved o d f f' fs w)
      at_file fs w h none p = h.0
      at_file fs w h (some c) p = λ content q.
          let same_content : c ≡ content = ground (arith, view_at w h.1 f, h.0 d f) in
          rw same_content (put_dir-Moved f' content fs w h)
