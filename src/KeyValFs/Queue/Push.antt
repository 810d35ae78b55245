-- ===== src/KeyValFs/Queue/Push.antt =====
-- What adding an item to a queue, and deleting one, do to the files of the other items.
use evobench.Prelude.{
  ◌≡◌, ◌≢◌, refl, ◌∙◌, none, some, true, false, ◌&&◌, inl, inr, Bool-cases, Option-cases, arith,
}
use evobench.Prelude.Bytes.{Bytes, same, same_iff, same_refl, same_sym}
use evobench.Prelude.Outcome.{Outcome, ok, err, panic, pure, resume}
use evobench.Prelude.Hoare.{Ends, Ends-mono, Triple, Triple-bind}
use evobench.KeyValFs.AsKey.{AsKey, Json, verified_as_filename_str}
use evobench.KeyValFs.Disk
use evobench.KeyValFs.Disk.{Disk, IoErrorKind, view, call}
use evobench.KeyValFs.Disk.Effects.{SameAs, Wrote, remove_file-Wrote}
use evobench.KeyValFs.TimeKey
use evobench.KeyValFs.KeyVal
use evobench.KeyValFs.KeyVal.{KeyVal, tmp_name, is_taken}
use evobench.KeyValFs.Queue
use evobench.KeyValFs.Queue.{time_key, QueueItem}
use evobench.KeyValFs.KeyVal.Insert.{Stored, Fresh, Kept, insert_atomic}

-- Not the name of a temporary file.
abbrev pub IsVisible : Bytes → Type 0
IsVisible f = (name : Bytes) → same (tmp_name name) f ≡ false

-- One file of one directory, with its content.
module _ (d f c : Bytes) where
  abbrev pub Holds : Disk → Type 0
  Holds w = view w d f ≡ some c

  -- Another file than that one has the value, as it is serialized.
  abbrev pub Pushed : {V : Type 0} → Json V → Bytes → V → Disk → Type 0
  Pushed json base val w =
      (name valstr : Bytes) × ((json.to_string val ≡ some valstr)
        × ((view w base name ≡ some valstr) × ((same d base && same f name) ≡ false)))

  module _ {V : Type 0} (json : Json V) (val : V) (kv : KeyVal) (name valstr : Bytes) (w : Disk)
      (h : Holds w) where
    Fresh-name : Fresh kv name valstr w true → (same kv.base_dir d && same name f) ≡ false
    unfolding is_taken
    Fresh-name fresh = elim (Bool-cases (same kv.base_dir d && same name f)) [
      | inl clash ↦ ground (arith, same_iff kv.base_dir d, same_iff name f)
      | inr distinct ↦ distinct
    ]

    Stored-keeps :
        IsVisible f
        → (w' : Disk) → Stored kv name valstr w w'
        → Fresh kv name valstr w true
        → Holds w'
    Stored-keeps visible w' stored fresh =
        ground (arith, stored d f, visible name, Fresh-name fresh)

    Stored-pushes :
        json.to_string val ≡ some valstr
        → (w' : Disk) → Stored kv name valstr w w'
        → Fresh kv name valstr w true
        → Pushed json kv.base_dir val w'
    Stored-pushes written w' stored fresh = (
      name,
      valstr,
      (
        written,
        (
          stored kv.base_dir name ∙ simp (same_refl),
          rw (same_sym d kv.base_dir, same_sym f name) (Fresh-name fresh),
        ),
      ),
    )

    Kept-keeps : IsVisible f → (w' : Disk) → Kept kv name valstr w true w' → Holds w'
    Kept-keeps visible w' (inl before) = before d f (ground (arith, visible name)) ∙ h
    Kept-keeps visible w' (inr (stored, fresh)) = Stored-keeps visible w' stored fresh

  module _ {K V : Type 0} (as_key : AsKey K) (json : Json V) (kv : KeyVal)
      (visible : IsVisible f) where
    pub insert_keeps :
        (key : K) (val : V)
        → Triple Holds
            (KeyVal.insert as_key json kv key val true)
            (λ _ w'. Holds w' × Pushed json kv.base_dir val w')
            Holds
    unfolding KeyVal.insert
    insert_keeps key val = record {
      at = λ w h. elim (Option-cases (json.to_string val)) [
        | inl failed ↦ rw failed h
        | inr (valstr, written) ↦ elim (Option-cases (verified_as_filename_str as_key key)) [
          | inl crashed ↦ rw (written, crashed) h
          | inr (name, verified) ↦
              Ends-mono (KeyVal.insert as_key json kv key val true w)
                (insert_atomic as_key json kv key val true name valstr w verified written)
                (λ _ w' end. (
                  Stored-keeps json val kv name valstr w h visible w' end.0 end.1,
                  Stored-pushes json val kv name valstr w h written w' end.0 end.1,
                ))
                (Kept-keeps json val kv name valstr w h visible)
        ]
      ];
    }

  pub push_front_keeps :
      IsVisible f
      → {V : Type 0} (json : Json V) (kv : KeyVal) (val : V)
      → Triple Holds
          (Queue.push_front json kv val)
          (λ _ w'. Holds w' × Pushed json kv.base_dir val w')
          Holds
  unfolding Queue.push_front Queue.now TimeKey.now TimeKey.next_id view
  push_front_keeps visible json kv val =
      Triple-bind _ (λ key. insert_keeps time_key json kv visible key val) Queue.now
        (record { at = λ w h. h })

  -- A file that is there is never reported as missing.
  remove-present : (w : Disk) → Holds w → (Disk.remove_file d f w).0 ≢ err Disk.not_found
  unfolding Disk.remove_file Disk.call Disk.files_in Disk.view
  remove-present w h e = ground (arith, h, e)

-- Deleting an item that is there removes its file and no other.
module _ (kv : KeyVal) (item : QueueItem) (c : Bytes) (w : Disk)
    (h : Holds kv.base_dir item.file_name c w) where
  abbrev pub Deleted : Disk → Type 0
  Deleted = Wrote w kv.base_dir item.file_name none

  after_removal :
      (r : Outcome IoErrorKind (Unit {0})) (w' : Disk)
      → r ≢ err Disk.not_found
      → Ends (λ _. Deleted) (SameAs w) (r, w')
      → Ends
          (λ _. Deleted)
          (SameAs w)
          (resume
            (KeyVal.deleted kv "deleting the value file" r w').0
            (λ _. pure tt)
            (KeyVal.deleted kv "deleting the value file" r w').1)
  unfolding KeyVal.deleted KeyVal.perhaps_signal view Disk.send_signal
  after_removal (ok u) w' present done = elim (Bool-cases kv.signal_change) [
    | inl on ↦ rw on done
    | inr off ↦ rw off done
  ]
  after_removal (err Disk.not_found) w' present same_as = absurd (present refl)
  after_removal (err Disk.already_exists) w' present same_as = same_as
  after_removal (err Disk.other) w' present same_as = same_as
  after_removal panic w' present same_as = same_as

  pub delete_item_lem : Ends (λ _. Deleted) (SameAs w) (Queue.delete_item kv item w)
  unfolding Queue.delete_item KeyVal.delete_file
  delete_item_lem =
      after_removal (Disk.remove_file kv.base_dir item.file_name w).0
        (Disk.remove_file kv.base_dir item.file_name w).1
        (remove-present kv.base_dir item.file_name c w h)
        (remove_file-Wrote w kv.base_dir item.file_name)

-- The other file is still there then.
pub Deleted-Pushed :
    (kv : KeyVal) (item : QueueItem) (c : Bytes) (w : Disk)
    (h : Holds kv.base_dir item.file_name c w) {V : Type 0} (json : Json V) (base : Bytes) (val : V)
    (w' : Disk)
    → Deleted kv item c w h w'
    → Pushed kv.base_dir item.file_name c json base val w
    → Pushed kv.base_dir item.file_name c json base val w'
Deleted-Pushed kv item c w h json base val w' deleted (name, valstr, (written, (there, distinct))) =
    (name, valstr, (written, (deleted base name ∙ rw distinct there, distinct)))
