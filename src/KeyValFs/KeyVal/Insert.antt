-- ===== src/KeyValFs/KeyVal/Insert.antt =====
-- What `insert` guarantees, whatever call fails on the way.
use evobench.Prelude.{
  ◌≡◌, refl, ◌∙◌, ◌⊎◌, inl, inr, Option, none, some, Bool, false, ◌&&◌, arith, Bool-cases,
  if◌then◌else◌,
}
use Prim.Native.String.{String}
use evobench.Prelude.Bytes.{Bytes, same, same_refl}
use evobench.Prelude.Outcome.{fail, gets, ◌>>=◌, ◌>>◌}
use evobench.Prelude.Hoare.{
  Ends, Ends-mono, Triple, Triple-bind, Triple-map_err, Triple-pure, Triple-if,
}
use evobench.KeyValFs.Disk.{Disk, view, call}
use evobench.KeyValFs.AsKey.{AsKey, Json, verified_as_filename_str}
use evobench.KeyValFs.Disk
use evobench.KeyValFs.Disk.Effects.{
  SameAs, Untouched, Wrote-Untouched, Moved, call-SameAs, create-Wrote, write_all-Wrote,
  rename-Moved,
}
use evobench.KeyValFs.KeyVal.{
  KeyVal, do_sync_files, do_sync_dirs, flush_and_perhaps_sync_file, perhaps_sync_dir,
  perhaps_signal, Db, key_exists, lock_exclusive, is_taken, store, insert, tmp_name,
}

module _ (kv : KeyVal) (name valstr : Bytes) (w0 : Disk) where
  -- No file but the temporary one has changed.
  abbrev pub Before : Disk → Type 0
  Before = Untouched w0 kv.base_dir (tmp_name name)

  -- The file of the key holds the value, and the temporary file is gone.
  abbrev pub Stored : Disk → Type 0
  Stored w =
      (e g : Bytes)
      → view w e g ≡ (
          if same kv.base_dir e && same name g
          then some valstr
          else if same kv.base_dir e && same (tmp_name name) g
          then none
          else view w0 e g)

  -- The temporary file holds the whole value.
  abbrev Staged : Disk → Type 0
  Staged w = Before w × (view w kv.base_dir (tmp_name name) ≡ some valstr)

  abbrev Failed : Disk → Type 0
  Failed w = Before w ⊎ Stored w

  call-keeps :
      {P : Disk → Type 0}
      → ((w w' : Disk) → SameAs w w' → P w → P w')
      → ((w : Disk) → P w → Failed w)
      → Triple P call (λ _. P) Failed
  call-keeps stable weak = record {
    at = λ w p.
        Ends-mono (call w) ((call-SameAs w).at w (λ e g. refl)) (λ _ w' h. stable w w' h p)
          (λ w' h. weak w' (stable w w' h p));
  }

  Staged-stable : (w w' : Disk) → SameAs w w' → Staged w → Staged w'
  Staged-stable w w' same_as (before, staged) =
      (λ e g p. same_as e g ∙ before e g p, same_as kv.base_dir (tmp_name name) ∙ staged)

  Stored-stable : (w w' : Disk) → SameAs w w' → Stored w → Stored w'
  Stored-stable w w' same_as stored e g = same_as e g ∙ stored e g

  create_step : Triple (SameAs w0) (Disk.create kv.base_dir (tmp_name name)) (λ _. Before) Failed
  create_step = record {
    at = λ w h.
        Ends-mono (Disk.create kv.base_dir (tmp_name name) w)
          (create-Wrote w kv.base_dir (tmp_name name))
          (λ _ w' wrote e g p. Wrote-Untouched w _ _ _ w' wrote e g p ∙ h e g)
          (λ w' same_as. inl (λ e g p. same_as e g ∙ h e g));
  }

  write_step :
      Triple Before (Disk.write_all kv.base_dir (tmp_name name) valstr) (λ _. Staged) Failed
  write_step = record {
    at = λ w h.
        Ends-mono (Disk.write_all kv.base_dir (tmp_name name) valstr w)
          (write_all-Wrote w kv.base_dir (tmp_name name) valstr)
          (λ _ w' wrote. (
            λ e g p. Wrote-Untouched w _ _ _ w' wrote e g p ∙ h e g p,
            wrote kv.base_dir (tmp_name name) ∙ simp (same_refl),
          ))
          (λ w' untouched. inl (λ e g p. untouched e g p ∙ h e g p));
  }

  -- What was moved away from the temporary name is the value.
  Moved-Stored :
      (w w' : Disk) → Staged w → Moved w kv.base_dir (tmp_name name) name valstr w' → Stored w'
  Moved-Stored w w' (before, staged) moved e g = ground (arith, moved e g, before e g)

  rename_step : Triple Staged (Disk.rename kv.base_dir (tmp_name name) name) (λ _. Stored) Failed
  rename_step = record {
    at = λ w h.
        Ends-mono (Disk.rename kv.base_dir (tmp_name name) name w)
          (rename-Moved w kv.base_dir (tmp_name name) name)
          (λ _ w' renamed. Moved-Stored w w' h (renamed valstr h.1))
          (λ w' same_as. inl (Staged-stable w w' same_as h).0);
  }

  flush_step :
      (flush_ctx sync_ctx : String)
      → Triple Staged (flush_and_perhaps_sync_file kv.sync flush_ctx sync_ctx) (λ _. Staged) Failed
  unfolding flush_and_perhaps_sync_file
  flush_step flush_ctx sync_ctx =
      Triple-bind _
        (λ _.
          Triple-if (do_sync_files kv.sync) (Triple-map_err _ _ _ call sync_call)
            (Triple-pure tt (λ s h. h)))
        _ (Triple-map_err _ _ _ call sync_call)
    where
      sync_call : Triple Staged call (λ _. Staged) Failed
      sync_call = call-keeps Staged-stable (λ w h. inl h.0)

  sync_dir_step : Triple Stored (perhaps_sync_dir kv.sync) (λ _. Stored) Failed
  unfolding perhaps_sync_dir
  sync_dir_step =
      Triple-if (do_sync_dirs kv.sync)
        (Triple-map_err _ _ _ call (call-keeps Stored-stable (λ w h. inr h)))
        (Triple-pure tt (λ s h. h))

  signal_step : Triple Stored (perhaps_signal kv) (λ _. Stored) Failed
  unfolding perhaps_signal Disk.view
  signal_step = record {
    at = λ w h. elim (Bool-cases kv.signal_change) [ inl on ↦ rw on h | inr off ↦ rw off h ];
  }

  pub store_lem : Triple (SameAs w0) (store kv name valstr) (λ _. Stored) Failed
  unfolding store
  store_lem =
      Triple-bind _
        (λ _.
          Triple-bind _
            (λ _.
              Triple-bind _
                (λ _.
                  Triple-bind _ (λ _. Triple-bind _ (λ _. signal_step) _ sync_dir_step) _
                    (Triple-map_err _ _ _ _ rename_step))
                _ (flush_step "flush of the file" "sync of the file"))
            _ (Triple-map_err _ _ _ _ write_step))
        _ (Triple-map_err _ _ _ _ create_step)

  -- An exclusive insertion goes on only if the key is not there.
  abbrev pub Fresh : Bool → Type 0
  Fresh exclusive = is_taken exclusive (view w0 kv.base_dir name) ≡ false

  abbrev pub Kept : Bool → Disk → Type 0
  Kept exclusive w = Before w ⊎ Stored w × Fresh exclusive

  locked-SameAs :
      (exclusive : Bool) → Triple (SameAs w0) (lock_exclusive kv) (λ _. SameAs w0) (Kept exclusive)
  unfolding lock_exclusive
  locked-SameAs exclusive = Triple-map_err _ _ _ call (record {
    at = λ w h.
        Ends-mono (call w) ((call-SameAs w0).at w h) (λ _ w' same_as. same_as)
          (λ w' same_as. inl (λ e g p. same_as e g));
  })

  rest : Bool → Option Bytes → Db (Unit {0})
  rest exclusive present =
      if is_taken exclusive present then fail key_exists else store kv name valstr

  rest_lem :
      (exclusive : Bool) (w : Disk)
      → SameAs w0 w
      → Ends
          (λ _ w'. Stored w' × Fresh exclusive)
          (Kept exclusive)
          (rest exclusive (view w kv.base_dir name) w)
  unfolding rest
  rest_lem exclusive w h =
      rw (h kv.base_dir name) (elim (Bool-cases (is_taken exclusive (view w0 kv.base_dir name))) [
        | inl taken ↦ rw taken (inl (λ e g p. h e g))
        | inr fresh ↦ rw fresh (
            Ends-mono (store kv name valstr w) (store_lem.at w h) (λ _ w' stored. (stored, refl))
              (λ w'. elim [ inl before ↦ inl before | inr stored ↦ inr (stored, fresh) ]))
      ])

  put : Bool → Db (Unit {0})
  put exclusive = do
    lock_exclusive kv
    present ← gets (λ w. view w kv.base_dir name)
    rest exclusive present

  put_lem :
      (exclusive : Bool)
      → Triple (SameAs w0) (put exclusive) (λ _ w'. Stored w' × Fresh exclusive) (Kept exclusive)
  unfolding put
  put_lem exclusive =
      Triple-bind _ (λ _. record { at = λ w h. rest_lem exclusive w h }) _ (locked-SameAs exclusive)

module _ {K V : Type 0} (as_key : AsKey K) (json : Json V) where
  -- Whichever call fails on the way: after a success the key has the new value, an exclusive
  -- insertion found none before, the temporary file is gone, and no other file of any directory has
  -- changed. After an error either no file but the temporary one has changed, or the insertion is
  -- complete (only the sync of the directory failed), and again an exclusive one found none before.
  pub insert_atomic :
      (kv : KeyVal) (key : K) (val : V) (exclusive : Bool) (name valstr : Bytes) (w : Disk)
      → verified_as_filename_str as_key key ≡ some name
      → json.to_string val ≡ some valstr
      → Ends
          (λ _ w'. Stored kv name valstr w w' × Fresh kv name valstr w exclusive)
          (Kept kv name valstr w exclusive)
          (insert as_key json kv key val exclusive w)
  unfolding insert put rest
  insert_atomic kv key val exclusive name valstr w verified written =
      rw (written, verified) ((put_lem kv name valstr w exclusive).at w (λ e g. refl))
