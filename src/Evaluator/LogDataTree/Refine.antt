-- ===== src/Evaluator/LogDataTree/Refine.antt =====
-- `from_logdata` does what the frames do, and what the frames promise of the pairs.
use mathlib.Core.Path.{subst}
use evobench.Prelude.{
  ℕ, suc, ◌<◌, ◌≡◌, inl, inr, refl, ap, ◌∙◌, true, false, Option, none, some, List, [], ◌∷◌, length,
  Bool-cases, arith,
}
use evobench.Prelude.Bytes.{Bytes, same}
use evobench.Prelude.Outcome.{ok, err, panic}
use evobench.Evaluator.LogMessage.{Timing, LogMessage, DataMessage, opt_data_message}
use evobench.Evaluator.LogDataTree.{
  ScopeKind, PointDispatch, from_point_kind, SpanData, LogDataTree, Parsing, Parse, and_then,
  same_kind, get_from_db,
}
use evobench.Evaluator.LogDataTree.FromLogdata.{
  new, data_at, stack_of, close_frame, end_scope, end_on, dispatch, step, steps, from_logdata,
}
use evobench.Evaluator.LogDataTree.Frames.{
  Frame, Frames, end_frame, end_at, at_point, frames_step, frames_steps, no_frames,
}
use evobench.Evaluator.LogDataTree.Related.{
  frame_of, thread_of, parent_of, Stacked, StackOf, Timed, Ordered, Related,
}
use evobench.Evaluator.LogDataTree.Opening.{Agree}
use evobench.Evaluator.LogDataTree.Starting.{start_scope-Agree, key_value-Agree}
use evobench.Evaluator.LogDataTree.Ending.{closed-Related}

abbrev some_frame : Frame → Option Frame → Frame
some_frame f none = f
some_frame f (some g) = g

module _ (p : Parsing) (s : Frames) (rel : Related p s) (kind : ScopeKind) (timing : Timing) where
  at_frame-Agree :
      (id : ℕ) (ids : List ℕ) (f : Frame) (fs : List Frame) (next : Parse Parsing)
      (d : Option SpanData)
      → data_at id p.slf.spans ≡ d
      → frame_of d ≡ some f
      → thread_of f ≡ timing.tid
      → id < suc (length p.slf.spans)
      → Stacked p.slf.spans timing.tid id ids fs
      → Agree Related next (end_frame kind timing fs s)
      → Agree Related (close_frame kind timing id ids p next d) (end_frame kind timing (f ∷ fs) s)
  unfolding close_frame
  at_frame-Agree id ids f fs next none there is_frame t lt h ih = absurd (cc is_frame)
  at_frame-Agree id ids f fs next (some (SpanData.key_value kv)) there is_frame t lt h ih =
      subst (λ g. Agree Related next (end_frame kind timing (g ∷ fs) s))
        (ap (some_frame f) is_frame) ih
  at_frame-Agree id ids f fs next (some (SpanData.scope k n start (some end))) there is_frame t lt h
        ih =
      absurd (cc is_frame)
  at_frame-Agree id ids f fs next (some (SpanData.scope k n start none)) there is_frame t lt h ih =
      let same_frame = ap (some_frame f) is_frame in
      subst
        (λ g.
          Agree Related
            (close_frame kind timing id ids p next (some (SpanData.scope k n start none)))
            (end_frame kind timing (g ∷ fs) s))
        same_frame (cases (ap thread_of same_frame ∙ t))
    where
      cases :
          start.tid ≡ timing.tid
          → Agree Related
              (close_frame kind timing id ids p next (some (SpanData.scope k n start none)))
              (end_frame kind timing (Frame.scope k start ∷ fs) s)
      cases on_thread = elim (Bool-cases (same_kind k kind)) [
        | inl e ↦ elim (Bool-cases (same start.pn timing.pn)) [
          | inl e' ↦
              rw (e, e') (closed-Related p s rel k n start timing id there on_thread ids fs lt h)
          | inr e' ↦ rw (e, e') tt
        ]
        | inr e ↦ rw e refl
      ]

  end_scope-Agree :
      (bound : ℕ) (ids : List ℕ) (fs : List Frame)
      → bound < suc (suc (length p.slf.spans))
      → Stacked p.slf.spans timing.tid bound ids fs
      → Agree Related (end_scope kind timing ids p) (end_frame kind timing fs s)
  unfolding end_scope
  end_scope-Agree bound [] [] le h = refl
  end_scope-Agree bound [] (f ∷ fs) le h = absurd h
  end_scope-Agree bound (id ∷ ids) [] le h = absurd h
  end_scope-Agree bound (id ∷ ids) (f ∷ fs) le (lt, (e, (t, h))) =
      at_frame-Agree id ids f fs (end_scope kind timing ids p) (data_at id p.slf.spans) refl e t
        (omega (arith, lt, le)) h (end_scope-Agree id ids fs (omega (arith, lt, le)) h)

  end_on-Agree :
      (o : Option (List ℕ)) (o' : Option (List Frame))
      → StackOf p.slf.spans timing.tid o o'
      → Agree Related (end_on kind timing o p) (end_at kind timing o' s)
  unfolding end_on
  end_on-Agree none none h = refl
  end_on-Agree none (some fs) h = absurd h
  end_on-Agree (some ids) none h = absurd h
  end_on-Agree (some ids) (some fs) h =
      end_scope-Agree (suc (length p.slf.spans)) ids fs (omega arith) h

module _ (p : Parsing) (s : Frames) (rel : Related p s) where
  dispatch-Agree :
      (point : PointDispatch) (timing : Timing)
      → Agree Related (dispatch point timing p) (at_point point timing s)
  unfolding dispatch
  dispatch-Agree (PointDispatch.scope kind false) timing = start_scope-Agree p s rel kind timing
  dispatch-Agree (PointDispatch.scope kind true) timing =
      end_on-Agree p s rel kind timing _ _ (rel.stacks timing.tid)
  dispatch-Agree PointDispatch.t timing = rel
  dispatch-Agree PointDispatch.tio timing = rel

  step-Agree : (o : Option DataMessage) → Agree Related (step o p) (frames_step o s)
  unfolding step frames_step
  step-Agree none = tt
  step-Agree (some (DataMessage.key_value kv)) = key_value-Agree p s rel kv
  step-Agree (some (DataMessage.timing kind timing)) = dispatch-Agree (from_point_kind kind) timing

Agree-and_then :
    {A B A' B' : Type 0} (R : A → B → Type 0) (Q : A' → B' → Type 0) (x : Parse A) (y : Parse B)
    (f : A → Parse A') (g : B → Parse B')
    → Agree R x y
    → ((a : A) (b : B) → R a b → Agree Q (f a) (g b))
    → Agree Q (and_then x f) (and_then y g)
Agree-and_then R Q (ok a) (ok b) f g h k = k a b h
Agree-and_then R Q (ok a) (err e) f g h k = absurd h
Agree-and_then R Q (ok a) panic f g h k = absurd h
Agree-and_then R Q (err e) (ok b) f g h k = absurd h
Agree-and_then R Q (err e) (err e') f g h k = h
Agree-and_then R Q (err e) panic f g h k = absurd h
Agree-and_then R Q panic (ok b) f g h k = absurd h
Agree-and_then R Q panic (err e) f g h k = absurd h
Agree-and_then R Q panic panic f g h k = tt

steps-Agree :
    (messages : List LogMessage) (p : Parsing) (s : Frames)
    → Related p s
    → Agree Related (steps messages p) (frames_steps messages s)
unfolding steps frames_steps
steps-Agree [] p s rel = rel
steps-Agree (message ∷ messages) p s rel =
    Agree-and_then Related Related (step (opt_data_message message) p)
      (frames_step (opt_data_message message) s) (steps messages) (frames_steps messages)
      (step-Agree p s rel (opt_data_message message)) (steps-Agree messages)

no_span : (id parent : ℕ) → parent_of (get_from_db id []) ≡ some parent → ⊥
unfolding get_from_db
no_span id parent h = absurd (cc h)

new-Related : Related new no_frames
new-Related = record {
  num = refl;
  numbers = omega arith;
  stacks = λ tid. tt;
  indexed = λ pn. tt;
  ordered = λ id parent h. absurd (no_span id parent h);
}

-- What a tree has of the frames: as many spans, with parents that are older, and for each name the spans of its pairs.
abbrev pub Shows : LogDataTree → Frames → Type 0
Shows tree s =
    (length tree.spans ≡ s.num_spans)
    × (((pn : Bytes) → Timed tree.spans (stack_of (tree.spans_by_pn pn)) (s.pairs pn))
        × Ordered tree.spans)

-- Reading a log into a tree of spans refines the stacks of frames: for every log, either both panic, or both give the
-- same error, or the tree shows what the frames have, with the pairs of each probe name in the same order.
pub from_logdata-Agree :
    (messages : List LogMessage)
    → Agree Shows (from_logdata messages) (frames_steps messages no_frames)
unfolding from_logdata
from_logdata-Agree messages =
    ended (steps messages new) (frames_steps messages no_frames)
      (steps-Agree messages new no_frames new-Related)
  where
    ended :
        (x : Parse Parsing) (y : Parse Frames)
        → Agree Related x y
        → Agree Shows (and_then x λ p. ok p.slf) y
    ended (ok p) (ok s) rel = (rel.num, (rel.indexed, rel.ordered))
    ended (ok p) (err e) h = h
    ended (ok p) panic h = h
    ended (err e) (ok s) h = h
    ended (err e) (err f) h = h
    ended (err e) panic h = h
    ended panic (ok s) h = h
    ended panic (err e) h = h
    ended panic panic h = h

pub from_logdata-Ordered :
    (messages : List LogMessage) (tree : LogDataTree)
    → from_logdata messages ≡ ok tree
    → Ordered tree.spans
from_logdata-Ordered messages tree e =
    from_frames (frames_steps messages no_frames)
      (subst (λ x. Agree Shows x (frames_steps messages no_frames)) e (from_logdata-Agree messages))
  where
    from_frames :
        (y : Parse Frames) → Agree {A = LogDataTree} Shows (ok tree) y → Ordered tree.spans
    from_frames (ok s) (num, (indexed, ordered)) = ordered
    from_frames (err f) h = absurd h
    from_frames panic h = absurd h
