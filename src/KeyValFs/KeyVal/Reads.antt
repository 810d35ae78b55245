-- ===== src/KeyValFs/KeyVal/Reads.antt =====
-- Reading an entry changes no file, and finds what the file holds; neither does opening the map.
use mathlib.Core.Option
use evobench.Prelude.{
  ◌≡◌, refl, sym, ap, ◌∙◌, Bool, false, Option, none, some, inl, inr, Bool-cases,
}
use Prim.Native.String.{String}
use evobench.Prelude.Bytes.{Bytes}
use evobench.Prelude.Outcome.{Outcome, ok, err, panic, or_fail}
use evobench.Prelude.Hoare.{Ends, Triple-map_err}
use evobench.Prelude.Local.Steps.{bind-Ends, or_crash-bind}
use evobench.KeyValFs.AsKey.{AsKey, Json, verified_as_filename_str, is_filename}
use evobench.KeyValFs.Disk
use evobench.KeyValFs.Disk.{Disk, IoErrorKind, view, call}
use evobench.KeyValFs.Disk.Effects.{SameAs, call-SameAs}
use evobench.KeyValFs.Disk.Reads.{OpenRead, open_file-OpenRead, open_dir-SameAs}
use evobench.KeyValFs.KeyVal.{
  KeyVal, KeyValError, KeyValSync, Entry, opened, entry_of, entry_opt, entry_get, in_ctx,
  lock_exclusive, open_db, perhaps_create_dir,
}

-- What the file of an entry holds, if there is one.
abbrev pub content_of : Option Entry → Option Bytes
content_of o = Option.map (λ (e : Entry). e.content) o

module _ (w0 : Disk) where
  opened_as :
      (d f : Bytes) (r : Outcome IoErrorKind Bytes × Disk)
      → OpenRead w0 d f r
      → Ends (λ o w. SameAs w0 w × (o ≡ view w0 d f)) (SameAs w0) (opened r.0 r.1)
  unfolding opened
  opened_as d f (ok c, w) (h, e) = (h, sym e)
  opened_as d f (err Disk.not_found, w) (h, e) = (h, sym e)
  opened_as d f (err Disk.already_exists, w) h = h
  opened_as d f (err Disk.other, w) h = h
  opened_as d f (panic, w) h = h

  entry_content : (name : Bytes) (o : Option Bytes) → content_of (entry_of name o) ≡ o
  unfolding entry_of
  entry_content name none = refl
  entry_content name (some c) = refl

  module _ {K V : Type 0} (as_key : AsKey K) (json : Json V) where
    name_of :
        (key : K) (name : Bytes)
        → verified_as_filename_str as_key key ≡ some name
        → as_key.as_filename_str key ≡ name
    unfolding verified_as_filename_str
    name_of key name e = elim (Bool-cases (is_filename (as_key.as_filename_str key))) [
      | inl h ↦ cc (e, h)
      | inr h ↦ absurd (cc (e, h))
    ]

    pub entry_opt_lem :
        (kv : KeyVal) (key : K) (w : Disk)
        → SameAs w0 w
        → Ends
            (λ o w'.
              SameAs w0 w' × (content_of o ≡ view w0 kv.base_dir (as_key.as_filename_str key)))
            (SameAs w0)
            (entry_opt as_key json kv key w)
    unfolding entry_opt
    entry_opt_lem kv key w h =
        or_crash-bind {S = Disk} _ (SameAs w0) _ (verified_as_filename_str as_key key) w h λ name e.
          bind-Ends {S = Disk} _ (SameAs w0) (λ o w'. SameAs w0 w' × (o ≡ view w0 kv.base_dir name))
            (λ w'. let r = Disk.open_file kv.base_dir name w' in opened r.0 r.1) _ w
            (opened_as kv.base_dir name (Disk.open_file kv.base_dir name w)
              (open_file-OpenRead w0 kv.base_dir name w h))
            λ o w' (s, f).
              (s, entry_content name o ∙ f ∙ ap (view w0 kv.base_dir) (sym (name_of key name e)))

    pub entry_get_lem :
        (entry : Entry) (w : Disk)
        → SameAs w0 w
        → Ends
            (λ v w'. SameAs w0 w' × (json.from_str entry.content ≡ some v))
            (SameAs w0)
            (entry_get as_key json entry w)
    unfolding entry_get
    entry_get_lem entry w h =
        bind-Ends {S = Disk} _ (SameAs w0) (λ _ w'. SameAs w0 w')
          (in_ctx call "reading/UTF-decoding value file") _ w
          ((Triple-map_err (λ _. SameAs w0) (SameAs w0) _ call (call-SameAs w0)).at w h)
          λ _ w' s. parsed (json.from_str entry.content) w' s
      where
        parsed :
            (o : Option V) (w' : Disk)
            → SameAs w0 w'
            → Ends {S = Disk}
                (λ v w'. SameAs w0 w' × (o ≡ some v))
                (SameAs w0)
                (or_fail o KeyValError.deserialization w')
        parsed none w' s = s
        parsed (some v) w' s = (s, refl)

  call_in-SameAs :
      (ctx : String) (w : Disk)
      → SameAs w0 w
      → Ends {S = Disk} (λ _ w'. SameAs w0 w') (SameAs w0) (in_ctx call ctx w)
  call_in-SameAs ctx w h =
      (Triple-map_err (λ _. SameAs w0) (SameAs w0) (λ _. KeyValError.io ctx) call
          (call-SameAs w0)).at
        w h

  pub lock_exclusive-SameAs :
      (kv : KeyVal) (w : Disk)
      → SameAs w0 w
      → Ends {S = Disk} (λ _ w'. SameAs w0 w') (SameAs w0) (lock_exclusive kv w)
  unfolding lock_exclusive
  lock_exclusive-SameAs kv w h = call_in-SameAs "getting lock on dir" w h

  -- Opening a directory that is not created.
  pub open_db_lem :
      (base : Bytes) (sync : KeyValSync) (signal : Bool) (w : Disk)
      → SameAs w0 w
      → Ends {S = Disk}
          (λ kv w'. SameAs w0 w' × (kv.base_dir ≡ base))
          (SameAs w0)
          (open_db base sync false signal w)
  unfolding open_db perhaps_create_dir
  open_db_lem base sync signal w h =
      bind-Ends {S = Disk} _ (SameAs w0) (λ _ w'. SameAs w0 w')
        (in_ctx (Disk.open_dir base) "opening directory as file") _ w
        ((Triple-map_err (λ _. SameAs w0) (SameAs w0)
            (λ _. KeyValError.io "opening directory as file") (Disk.open_dir base)
            (record { at = λ v k. open_dir-SameAs w0 base v k })).at
          w h)
        λ _ w' s.
          bind-Ends {S = Disk} _ (SameAs w0) (λ _ v. SameAs w0 v)
            (in_ctx call "cloning directory filehandle") _ w'
            (call_in-SameAs "cloning directory filehandle" w' s) λ _ v t. (t, refl)
