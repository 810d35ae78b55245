-- ===== src/Evaluator/LogDataTree/Opening.antt =====
-- Messages that add a span keep the relation with the frames.
use mathlib.Core.Option
use mathlib.Core.Path.{subst}
use native.Mathlib.Decide.{ℕ_discrete}
use evobench.Prelude.{
  ℕ, suc, ◌+◌, ◌≤◌, ◌≡◌, inl, inr, refl, ap, ◌∙◌, Option, none, some, List, [], ◌∷◌, ◌++◌, length,
  ◌==◌, ==_iff, Bool-cases, Option-cases, arith,
}
use evobench.Prelude.Outcome.{ok, err, panic}
use evobench.Evaluator.LogDataTree.{
  Span, ThreadIdMapper, Parsing, Parse, put, get_from_db, update_in_db,
}
use evobench.Evaluator.LogDataTree.FromLogdata.{with_child, data_at, last}
use evobench.Evaluator.LogDataTree.Frames.{Frame, Frames}
use evobench.Evaluator.LogDataTree.Spans.{
  get-append_new, get-bounds, get-update_self, get-update_ne, length-update,
}
use evobench.Evaluator.LogDataTree.Related.{
  frame_of, thread_of, Stacked, StackOf, Ordered, Related, Extends, Stacked-Extends,
  StackOf-Extends, Timed-Extends, append-Extends,
}

-- Both succeed, both give the same error, or both panic.
abbrev pub Agree : {A B : Type 0} → (A → B → Type 0) → Parse A → Parse B → Type 0
Agree R (ok a) (ok b) = R a b
Agree R (ok a) (err f) = ⊥
Agree R (ok a) panic = ⊥
Agree R (err e) (ok b) = ⊥
Agree R (err e) (err f) = e ≡ f
Agree R (err e) panic = ⊥
Agree R panic (ok b) = ⊥
Agree R panic (err f) = ⊥
Agree R panic panic = Unit

pub child-Extends :
    (id c : ℕ) (spans : List Span) → Extends spans (update_in_db id (with_child c) spans)
child-Extends id c spans = record {
  keeps = λ j d h. same_data j ∙ h;
  longer = omega (arith, length-update id (with_child c) spans);
}
  where
    at_self :
        (o : Option Span)
        → Option.map (λ (s : Span). s.span_data) (Option.map (with_child c) o)
          ≡ Option.map (λ (s : Span). s.span_data) o
    at_self none = refl
    at_self (some s) = refl

    same_data : (j : ℕ) → data_at j (update_in_db id (with_child c) spans) ≡ data_at j spans
    same_data j = elim (ℕ_discrete j id) [
      | yes e ↦ rw e (
          ap (Option.map (λ (s : Span). s.span_data)) (get-update_self id (with_child c) spans)
          ∙ at_self (get_from_db id spans))
      | no ne ↦
          ap (Option.map (λ (s : Span). s.span_data)) (get-update_ne j id (with_child c) spans ne)
    ]

-- The parent of a new span is the top of the stack, which is a span.
pub top_within :
    (spans : List Span) (tid bound : ℕ) (ids : List ℕ) (fs : List Frame) (parent : ℕ)
    → Stacked spans tid bound ids fs
    → last ids ≡ some parent
    → (1 ≤ parent) × (parent ≤ length spans)
top_within spans tid bound [] fs parent h e = cc
top_within spans tid bound (id ∷ ids) [] parent h e = absurd h
top_within spans tid bound (id ∷ ids) (f ∷ fs) parent (lt, (there, h)) e =
    elim (Option-cases (get_from_db id spans)) [
      | inl none_there ↦ absurd (cc there)
      | inr (s, is_there) ↦
          let (a, b) = get-bounds id spans s is_there in
          let same_id : id ≡ parent = ap (λ o. stack_top o) e in
          (omega (arith, a, same_id), omega (arith, b, same_id))
    ]
  where
    stack_top : Option ℕ → ℕ
    stack_top none = 0
    stack_top (some n) = n

module _ (p : Parsing) (s : Frames) (rel : Related p s) (tid : ℕ) (ids : List ℕ) (fs : List Frame)
    (stacked : Stacked p.slf.spans tid (suc (length p.slf.spans)) ids fs) (x : Span) (f : Frame)
    (is_frame : frame_of (some x.span_data) ≡ some f) (on_thread : thread_of f ≡ tid) where
  -- The new span is on top of its thread's stack.
  pub opened-Related :
      (spans' : List Span) (m : ThreadIdMapper)
      → Extends (p.slf.spans ++ x ∷ []) spans'
      → length spans' ≡ length p.slf.spans + 1
      → Ordered spans'
      → m.current_thread_number ≤ s.num_spans + 1
      → Related
          (record {
            slf = record { spans = spans'; spans_by_pn = p.slf.spans_by_pn };
            thread_id_mapper = m;
            start_by_thread = put tid (some ((length p.slf.spans + 1) ∷ ids)) p.start_by_thread;
          })
          (record {
            num_spans = s.num_spans + 1;
            open_frames = put tid (some (f ∷ fs)) s.open_frames;
            pairs = s.pairs;
          })
  opened-Related spans' m ext len ordered number = record {
    num = omega (arith, len, rel.num);
    numbers = number;
    stacks = stacks;
    indexed = λ pn. Timed-Extends whole _ _ (rel.indexed pn);
    ordered = ordered;
  }
    where
      whole : Extends p.slf.spans spans'
      whole = record {
        keeps = λ j d h. ext.keeps j d ((append-Extends p.slf.spans x).keeps j d h);
        longer = omega (arith, len);
      }

      new_id : suc (length p.slf.spans) ≡ length p.slf.spans + 1
      new_id = omega arith

      there : data_at (length p.slf.spans + 1) spans' ≡ some x.span_data
      there = ext.keeps (length p.slf.spans + 1) (x.span_data) (
          subst (λ id. data_at id (p.slf.spans ++ x ∷ []) ≡ some x.span_data) new_id
            (ap (Option.map (λ (y : Span). y.span_data)) (get-append_new p.slf.spans x)))

      on_top : Stacked spans' tid (suc (length spans')) ((length p.slf.spans + 1) ∷ ids) (f ∷ fs)
      on_top = (
        omega (arith, len),
        (
          ap frame_of there ∙ is_frame,
          (on_thread, Stacked-Extends whole tid _ _ ids fs (omega arith) stacked),
        ),
      )

      stacks :
          (j : ℕ)
          → StackOf spans' j
              (put tid (some ((length p.slf.spans + 1) ∷ ids)) p.start_by_thread j)
              (put tid (some (f ∷ fs)) s.open_frames j)
      stacks j = elim (Bool-cases (tid == j)) [
        | inl e ↦ rw e (
            subst
              (λ t.
                Stacked spans' t (suc (length spans')) ((length p.slf.spans + 1) ∷ ids) (f ∷ fs))
              ((==_iff tid j).0 e) on_top)
        | inr e ↦ rw e (StackOf-Extends whole j _ _ (rel.stacks j))
      ]
