-- ===== src/KeyValFs/Queue/Adds.antt =====
-- What stays in the directory of a queue, and what adding an item puts there.
use evobench.Prelude.{◌≡◌, sym, ◌∙◌, true, false, none, some, inl, inr, Bool-cases, Option-cases}
use Prim.Native.String.{String}
use evobench.Prelude.Bytes.{Bytes, same, same_iff, same_refl}
use evobench.Prelude.Outcome.{Outcome, ok, err, panic}
use evobench.Prelude.Hoare.{Ends, Ends-mono}
use evobench.KeyValFs.AsKey.{AsKey, Json, verified_as_filename_str, verified_lem}
use evobench.KeyValFs.Disk
use evobench.KeyValFs.Disk.{Disk, IoErrorKind, view}
use evobench.KeyValFs.Disk.Effects.{SameAs, Wrote, remove_file-Wrote}
use evobench.KeyValFs.TimeKey
use evobench.KeyValFs.KeyVal
use evobench.KeyValFs.KeyVal.{KeyVal, KeyValError, tmp_name, is_taken}
use evobench.KeyValFs.KeyVal.Insert.{insert_atomic}
use evobench.KeyValFs.Queue
use evobench.KeyValFs.Queue.{time_key}
use evobench.KeyValFs.Queue.Push.{IsVisible, Holds, insert_keeps, push_front_keeps}

-- A guarantee for all values, and two guarantees together.
pub Ends-all :
    {S E A X : Type 0} (Q : X → S → Type 0) (r : Outcome E A × S)
    → ((x : X) → Ends (λ _ s. Q x s) (λ _. Unit) r)
    → Ends (λ _ s. (x : X) → Q x s) (λ _. Unit) r
Ends-all Q (ok a, s) h = h
Ends-all Q (err e, s) h = tt
Ends-all Q (panic, s) h = tt

pub Ends-both :
    {S E A : Type 0} (Q R : A → S → Type 0) (r : Outcome E A × S)
    → Ends Q (λ _. Unit) r
    → Ends R (λ _. Unit) r
    → Ends (λ a s. Q a s × R a s) (λ _. Unit) r
Ends-both Q R (ok a, s) h k = (h, k)
Ends-both Q R (err e, s) h k = tt
Ends-both Q R (panic, s) h k = tt

-- A file of a queue with its content.
pub record QueueFile : Type 0 where
  pub file_name : Bytes
  pub content : Bytes
  pub visible : IsVisible file_name

module _ (d : Bytes) where
  -- Every item of the queue is still there.
  abbrev pub Keeps : Disk → Disk → Type 0
  Keeps w w' = (x : QueueFile) → Holds d x.file_name x.content w → Holds d x.file_name x.content w'

  -- The value is an item of the queue.
  abbrev pub InQueue : {V : Type 0} → Json V → V → Disk → Type 0
  InQueue json val w =
      (x : QueueFile) × ((json.to_string val ≡ some x.content) × Holds d x.file_name x.content w)

  pub InQueue-Keeps :
      {V : Type 0} (json : Json V) (val : V) (w w' : Disk)
      → Keeps w w'
      → InQueue json val w
      → InQueue json val w'
  InQueue-Keeps json val w w' k (x, (e, h)) = (x, (e, k x h))

  pub SameAs-Keeps : (w w' : Disk) → SameAs w w' → Keeps w w'
  SameAs-Keeps w w' s x h = s d x.file_name ∙ h

visible_name :
    {K : Type 0} (as_key : AsKey K) (key : K) (name : Bytes)
    → verified_as_filename_str as_key key ≡ some name
    → IsVisible name
unfolding tmp_name
visible_name as_key key name e rest = elim (Bool-cases (same (tmp_name rest) name)) [
  | inl h ↦ absurd (verified_lem as_key key name rest e (sym ((same_iff (tmp_name rest) name).0 h)))
  | inr h ↦ h
]

module _ {V : Type 0} (json : Json V) (kv : KeyVal) (val : V) where
  insert-InQueue :
      {K : Type 0} (as_key : AsKey K) (key : K) (w : Disk)
      → Ends {S = Disk}
          (λ _ w'. InQueue kv.base_dir json val w')
          (λ _. Unit)
          (KeyVal.insert as_key json kv key val true w)
  unfolding KeyVal.insert
  insert-InQueue as_key key w = elim (Option-cases (json.to_string val)) [
    | inl failed ↦ rw failed tt
    | inr (valstr, written) ↦ elim (Option-cases (verified_as_filename_str as_key key)) [
      | inl crashed ↦ rw (written, crashed) tt
      | inr (name, verified) ↦
          Ends-mono (KeyVal.insert as_key json kv key val true w)
            (insert_atomic as_key json kv key val true name valstr w verified written)
            (λ _ w' end. (
              record {
                file_name = name;
                content = valstr;
                visible = visible_name as_key key name verified;
              },
              (written, end.0 kv.base_dir name ∙ simp (same_refl)),
            ))
            (λ w' h. tt)
    ]
  ]

  push_front-InQueue :
      (w : Disk)
      → Ends {S = Disk}
          (λ _ w'. InQueue kv.base_dir json val w')
          (λ _. Unit)
          (Queue.push_front json kv val w)
  unfolding Queue.push_front Queue.now
  push_front-InQueue w = insert-InQueue time_key (TimeKey.now w).0 (TimeKey.now w).1

  -- The item is added, and the others are still there.
  pub push_front_adds :
      (w : Disk)
      → Ends {S = Disk}
          (λ _ w'. Keeps kv.base_dir w w' × InQueue kv.base_dir json val w')
          (λ _. Unit)
          (Queue.push_front json kv val w)
  push_front_adds w =
      Ends-both _ _ (Queue.push_front json kv val w)
        (Ends-all
          (λ x w'.
            Holds kv.base_dir x.file_name x.content w → Holds kv.base_dir x.file_name x.content w')
          _
          λ x.
            Ends-all (λ h w'. Holds kv.base_dir x.file_name x.content w') _
              λ h.
                Ends-mono (Queue.push_front json kv val w)
                  ((push_front_keeps kv.base_dir x.file_name x.content x.visible json kv val).at w
                    h)
                  (λ _ w' k. k.0) (λ _ k. tt))
        (push_front-InQueue w)

-- An insertion into another directory, and a deletion there.
module _ (d : Bytes) (kv : KeyVal) where
  pub insert-Keeps :
      {K V : Type 0} (as_key : AsKey K) (json : Json V) (key : K) (val : V) (w : Disk)
      → Ends {S = Disk}
          (λ _ w'. Keeps d w w')
          (λ _. Unit)
          (KeyVal.insert as_key json kv key val true w)
  insert-Keeps as_key json key val w =
      Ends-all (λ x w'. Holds d x.file_name x.content w → Holds d x.file_name x.content w') _
        λ x.
          Ends-all (λ h w'. Holds d x.file_name x.content w') _
            λ h.
              Ends-mono (KeyVal.insert as_key json kv key val true w)
                ((insert_keeps d x.file_name x.content as_key json kv x.visible key val).at w h)
                (λ _ w' k. k.0) (λ _ k. tt)

  deleted-Keeps :
      (name : Bytes) (ctx : String) (w : Disk) (r : Outcome IoErrorKind (Unit {0})) (w' : Disk)
      → same kv.base_dir d ≡ false
      → Ends (λ _ w'. Wrote w kv.base_dir name none w') (SameAs w) (r, w')
      → Ends {S = Disk} (λ _ w'. Keeps d w w') (λ _. Unit) (KeyVal.deleted kv ctx r w')
  unfolding KeyVal.deleted KeyVal.perhaps_signal view Disk.send_signal
  deleted-Keeps name ctx w (ok u) w' apart wrote = elim (Bool-cases kv.signal_change) [
    | inl on ↦ rw on (λ x h. wrote d x.file_name ∙ rw apart h)
    | inr off ↦ rw off (λ x h. wrote d x.file_name ∙ rw apart h)
  ]
  deleted-Keeps name ctx w (err Disk.not_found) w' apart same_as = λ x h. same_as d x.file_name ∙ h
  deleted-Keeps name ctx w (err Disk.already_exists) w' apart same_as = tt
  deleted-Keeps name ctx w (err Disk.other) w' apart same_as = tt
  deleted-Keeps name ctx w panic w' apart same_as = tt

  pub delete_file-Keeps :
      (name : Bytes) (ctx : String) (w : Disk)
      → same kv.base_dir d ≡ false
      → Ends {S = Disk} (λ _ w'. Keeps d w w') (λ _. Unit) (KeyVal.delete_file kv ctx name w)
  unfolding KeyVal.delete_file
  delete_file-Keeps name ctx w apart =
      deleted-Keeps name ctx w (Disk.remove_file kv.base_dir name w).0
        (Disk.remove_file kv.base_dir name w).1 apart (remove_file-Wrote w kv.base_dir name)
