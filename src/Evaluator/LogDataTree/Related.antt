-- ===== src/Evaluator/LogDataTree/Related.antt =====
-- How the variables of `from_logdata` stand for stacks of frames and pairs of timings, and how the relation is kept.
use mathlib.Core.Option
use native.Mathlib.Decide.{ℕ_discrete}
use evobench.Prelude.{
  ℕ, suc, ◌≤◌, ◌<◌, ◌≡◌, inl, inr, refl, sym, ap, ◌∙◌, Option, none, some, List, [], ◌∷◌, ◌++◌,
  length, Option-cases, length-append, arith,
}
use evobench.Prelude.Bytes.{Bytes}
use evobench.Evaluator.LogMessage.{Timing}
use evobench.Evaluator.LogDataTree.{SpanData, Span, Parsing, get_from_db, update_in_db}
use evobench.Evaluator.LogDataTree.FromLogdata.{data_at, stack_of}
use evobench.Evaluator.LogDataTree.Frames.{Frame, Frames}
use evobench.Evaluator.LogDataTree.Spans.{
  get-append, get-append_cases, get-update_self, get-update_ne, length-update,
}

-- A span on a stack.
abbrev pub frame_of : Option SpanData → Option Frame
frame_of none = none
frame_of (some (SpanData.scope kind n start none)) = some (Frame.scope kind start)
frame_of (some (SpanData.scope kind n start (some end))) = none
frame_of (some (SpanData.key_value kv)) = some (Frame.key_value kv)

-- A span that ended.
abbrev pub timings_of : Option SpanData → Option (Timing × Timing)
timings_of none = none
timings_of (some (SpanData.scope kind n start none)) = none
timings_of (some (SpanData.scope kind n start (some end))) = some (start, end)
timings_of (some (SpanData.key_value kv)) = none

abbrev pub thread_of : Frame → ℕ
thread_of (Frame.scope kind start) = start.tid
thread_of (Frame.key_value kv) = kv.tid

abbrev pub parent_of : Option Span → Option ℕ
parent_of none = none
parent_of (some s) = s.parent

-- The spans of a stack, of which each is older than the one above it.
abbrev pub Stacked : List Span → ℕ → ℕ → List ℕ → List Frame → Type 0
Stacked spans tid bound [] [] = Unit
Stacked spans tid bound [] (f ∷ fs) = ⊥
Stacked spans tid bound (id ∷ ids) [] = ⊥
Stacked spans tid bound (id ∷ ids) (f ∷ fs) =
    (id < bound)
    × ((frame_of (data_at id spans) ≡ some f) × ((thread_of f ≡ tid) × Stacked spans tid id ids fs))

abbrev pub StackOf : List Span → ℕ → Option (List ℕ) → Option (List Frame) → Type 0
StackOf spans tid none none = Unit
StackOf spans tid none (some fs) = ⊥
StackOf spans tid (some ids) none = ⊥
StackOf spans tid (some ids) (some fs) = Stacked spans tid (suc (length spans)) ids fs

abbrev pub Timed : List Span → List ℕ → List (Timing × Timing) → Type 0
Timed spans [] [] = Unit
Timed spans [] (x ∷ xs) = ⊥
Timed spans (id ∷ ids) [] = ⊥
Timed spans (id ∷ ids) (x ∷ xs) = (timings_of (data_at id spans) ≡ some x) × Timed spans ids xs

-- The parent of a span is an older span.
abbrev pub Ordered : List Span → Type 0
Ordered spans =
    (id parent : ℕ)
    → parent_of (get_from_db id spans) ≡ some parent
    → (1 ≤ parent) × ((parent < id) × (id ≤ length spans))

pub record Related (p : Parsing) (s : Frames) : Type 0 where
  pub num : length p.slf.spans ≡ s.num_spans
  pub numbers : p.thread_id_mapper.current_thread_number ≤ s.num_spans
  pub stacks : (tid : ℕ) → StackOf p.slf.spans tid (p.start_by_thread tid) (s.open_frames tid)
  pub indexed : (pn : Bytes) → Timed p.slf.spans (stack_of (p.slf.spans_by_pn pn)) (s.pairs pn)
  pub ordered : Ordered p.slf.spans

-- Everything that the spans say is still there.
pub record Extends (spans spans' : List Span) : Type 0 where
  pub keeps : (id : ℕ) (d : SpanData) → data_at id spans ≡ some d → data_at id spans' ≡ some d
  pub longer : length spans ≤ length spans'

module _ {spans spans' : List Span} (ext : Extends spans spans') where
  pub keeps_part :
      {B : Type 0} (g : Option SpanData → Option B) (id : ℕ) (b : B)
      → g none ≡ none
      → g (data_at id spans) ≡ some b
      → g (data_at id spans') ≡ some b
  keeps_part g id b none_there h = elim (Option-cases (data_at id spans)) [
    | inl e ↦ absurd (cc (h, ap g e, none_there))
    | inr (d, e) ↦ ap g (ext.keeps id d e) ∙ sym (ap g e) ∙ h
  ]

  pub Stacked-Extends :
      (tid bound bound' : ℕ) (ids : List ℕ) (fs : List Frame)
      → bound ≤ bound'
      → Stacked spans tid bound ids fs
      → Stacked spans' tid bound' ids fs
  Stacked-Extends tid bound bound' [] [] le h = tt
  Stacked-Extends tid bound bound' [] (f ∷ fs) le h = absurd h
  Stacked-Extends tid bound bound' (id ∷ ids) [] le h = absurd h
  Stacked-Extends tid bound bound' (id ∷ ids) (f ∷ fs) le (lt, (e, (t, h))) = (
    omega arith,
    (keeps_part frame_of id f refl e, (t, Stacked-Extends tid id id ids fs (omega arith) h)),
  )

  pub StackOf-Extends :
      (tid : ℕ) (o : Option (List ℕ)) (o' : Option (List Frame))
      → StackOf spans tid o o'
      → StackOf spans' tid o o'
  StackOf-Extends tid none none h = tt
  StackOf-Extends tid none (some fs) h = absurd h
  StackOf-Extends tid (some ids) none h = absurd h
  StackOf-Extends tid (some ids) (some fs) h =
      Stacked-Extends tid (suc (length spans)) (suc (length spans')) ids fs
        (omega (arith, ext.longer)) h

  pub Timed-Extends :
      (ids : List ℕ) (xs : List (Timing × Timing)) → Timed spans ids xs → Timed spans' ids xs
  Timed-Extends [] [] h = tt
  Timed-Extends [] (x ∷ xs) h = absurd h
  Timed-Extends (id ∷ ids) [] h = absurd h
  Timed-Extends (id ∷ ids) (x ∷ xs) (e, h) =
      (keeps_part timings_of id x refl e, Timed-Extends ids xs h)

pub Timed-append :
    (spans : List Span) (ids : List ℕ) (xs : List (Timing × Timing)) (id : ℕ) (x : Timing × Timing)
    → Timed spans ids xs
    → timings_of (data_at id spans) ≡ some x
    → Timed spans (ids ++ id ∷ []) (xs ++ x ∷ [])
Timed-append spans [] [] id x h e = (e, tt)
Timed-append spans [] (y ∷ xs) id x h e = absurd h
Timed-append spans (j ∷ ids) [] id x h e = absurd h
Timed-append spans (j ∷ ids) (y ∷ xs) id x (d, h) e = (d, Timed-append spans ids xs id x h e)

pub append-Extends : (spans : List Span) (x : Span) → Extends spans (spans ++ x ∷ [])
append-Extends spans x = record {
  keeps = kept;
  longer = omega (arith, length-append spans (x ∷ []));
}
  where
    kept :
        (id : ℕ) (d : SpanData) → data_at id spans ≡ some d → data_at id (spans ++ x ∷ []) ≡ some d
    kept id d h = elim (Option-cases (get_from_db id spans)) [
      | inl e ↦ absurd (cc (h, ap (Option.map (λ (s : Span). s.span_data)) e))
      | inr (s, e) ↦
          ap (Option.map (λ (s : Span). s.span_data)) (get-append id spans x s e)
          ∙ sym (ap (Option.map (λ (s : Span). s.span_data)) e)
          ∙ h
    ]

-- A new span with a parent among the spans.
pub append-Ordered :
    (spans : List Span) (x : Span)
    → ((parent : ℕ) → x.parent ≡ some parent → (1 ≤ parent) × (parent ≤ length spans))
    → Ordered spans
    → Ordered (spans ++ x ∷ [])
append-Ordered spans x within h id parent e =
    elim (Option-cases (get_from_db id (spans ++ x ∷ []))) [
      | inl none_there ↦ absurd (cc (e, ap parent_of none_there))
      | inr (s, there) ↦
          let is_parent : s.parent ≡ some parent = sym (ap parent_of there) ∙ e in
          let longer = length-append spans (x ∷ []) in
          elim (get-append_cases id spans x s there) [
            | inl old ↦
                let (a, (b, c)) = h id parent (ap parent_of old ∙ is_parent) in
                (a, (b, omega (arith, c, longer)))
            | inr (at_end, same_span) ↦
                let (a, b) = within parent (ap (λ (y : Span). y.parent) same_span ∙ is_parent) in
                (a, (omega (arith, b, at_end), omega (arith, at_end, longer)))
          ]
    ]

-- An assignment that leaves the parent as it is.
pub update-Ordered :
    (id : ℕ) (f : Span → Span) (spans : List Span)
    → ((s : Span) → (f s).parent ≡ s.parent)
    → Ordered spans
    → Ordered (update_in_db id f spans)
update-Ordered id f spans same_parent h j parent e =
    let (a, (b, c)) = h j parent (sym (parent_kept (ℕ_discrete j id)) ∙ e) in
    (a, (b, omega (arith, c, length-update id f spans)))
  where
    at_self : (o : Option Span) → parent_of (Option.map f o) ≡ parent_of o
    at_self none = refl
    at_self (some s) = same_parent s

    parent_kept :
        Dec (j ≡ id)
        → parent_of (get_from_db j (update_in_db id f spans)) ≡ parent_of (get_from_db j spans)
    parent_kept (yes j_id) =
        ap (λ i. parent_of (get_from_db i (update_in_db id f spans))) j_id
        ∙ ap parent_of (get-update_self id f spans)
        ∙ at_self (get_from_db id spans)
        ∙ sym (ap (λ i. parent_of (get_from_db i spans)) j_id)
    parent_kept (no ne) = ap parent_of (get-update_ne j id f spans ne)
