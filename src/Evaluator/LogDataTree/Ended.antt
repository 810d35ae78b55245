-- ===== src/Evaluator/LogDataTree/Ended.antt =====
-- The spans that are found by a probe name have ended.
use mathlib.Core.Option
use mathlib.Core.Path.{subst}
use evobench.Prelude.{
  ℕ, ◌+◌, ◌≡◌, inl, inr, refl, sym, ap, true, false, Option, none, some, List, [], ◌∷◌, ◌++◌, leb,
  ◌==◌, ==_iff, Bool-cases, All, All-append,
}
use evobench.Prelude.Bytes.{Bytes, same, same_iff}
use evobench.Prelude.Outcome.{ok, err, panic}
use evobench.Times.{u32_max}
use evobench.Evaluator.LogMessage.{Timing, KeyValue, LogMessage, DataMessage, opt_data_message}
use evobench.Evaluator.LogDataTree.{
  ScopeKind, PointDispatch, from_point_kind, SpanData, Span, LogDataTree, Parse, and_then, put,
  same_kind, get_from_db, start_and_end, start_and_end_of,
}
use evobench.Evaluator.LogDataTree.FromLogdata.{data_at, stack_of, from_logdata}
use evobench.Evaluator.LogDataTree.Frames.{
  Frame, Frames, frames_of, open_frame, end_frame, end_at, key_value_at, at_point, frames_step,
  frames_steps, no_frames, paired,
}
use evobench.Evaluator.LogDataTree.Related.{timings_of, thread_of, Timed}
use evobench.Evaluator.LogDataTree.Opening.{Agree}
use evobench.Evaluator.LogDataTree.Refine.{Shows, from_logdata-Agree}

-- A start and an end of the probe, on one thread.
abbrev pub Matching : Bytes → Timing × Timing → Type 0
Matching pn (start, end) = (start.pn ≡ pn) × ((end.pn ≡ pn) × (start.tid ≡ end.tid))

record Valid (s : Frames) : Type 0 where
  on_thread : (tid : ℕ) → All (λ f. thread_of f ≡ tid) (frames_of (s.open_frames tid))
  named : (pn : Bytes) → All (Matching pn) (s.pairs pn)

abbrev Good : Parse Frames → Type 0
Good (ok s) = Valid s
Good (err e) = Unit
Good panic = Unit

-- One thread has other frames.
put_frames :
    (s : Frames) (tid : ℕ) (fs : List Frame)
    → Valid s
    → All (λ f. thread_of f ≡ tid) fs
    → (j : ℕ) → All (λ f. thread_of f ≡ j) (frames_of (put tid (some fs) s.open_frames j))
put_frames s tid fs v h j = elim (Bool-cases (tid == j)) [
  | inl e ↦ rw e (subst (λ t. All (λ f. thread_of f ≡ t) fs) ((==_iff tid j).0 e) h)
  | inr e ↦ rw e (v.on_thread j)
]

open_frame-Good :
    (tid : ℕ) (f : Frame) (fs : List Frame) (s : Frames)
    → Valid s
    → thread_of f ≡ tid
    → All (λ f. thread_of f ≡ tid) fs
    → Good (open_frame tid f fs s)
open_frame-Good tid f fs s v t h = elim (Bool-cases (leb (s.num_spans + 1) u32_max)) [
  | inl e ↦ rw e (record { on_thread = put_frames s tid (f ∷ fs) v (t, h); named = v.named })
  | inr e ↦ rw e tt
]

paired-Valid :
    (start end : Timing) (fs : List Frame) (s : Frames)
    → Valid s
    → same start.pn end.pn ≡ true
    → start.tid ≡ end.tid
    → All (λ f. thread_of f ≡ end.tid) fs
    → Valid (paired start end fs s)
paired-Valid start end fs s v e t h = record {
  on_thread = put_frames s end.tid fs v h;
  named = named;
}
  where
    named : (pn : Bytes) → All (Matching pn) ((paired start end fs s).pairs pn)
    named pn = elim (Bool-cases (same start.pn pn)) [
      | inl f ↦
          let q : start.pn ≡ pn = (same_iff start.pn pn).0 f in
          rw f (
            subst (λ n. All (Matching n) (s.pairs start.pn ++ (start, end) ∷ [])) q
              (All-append (Matching start.pn) (s.pairs start.pn) ((start, end) ∷ [])
                (v.named start.pn) ((refl, (sym ((same_iff start.pn end.pn).0 e), t)), tt)))
      | inr f ↦ rw f (v.named pn)
    ]

end_frame-Good :
    (kind : ScopeKind) (timing : Timing) (fs : List Frame) (s : Frames)
    → Valid s
    → All (λ f. thread_of f ≡ timing.tid) fs
    → Good (end_frame kind timing fs s)
end_frame-Good kind timing [] s v h = tt
end_frame-Good kind timing (Frame.key_value kv ∷ fs) s v (t, h) =
    end_frame-Good kind timing fs s v h
end_frame-Good kind timing (Frame.scope k start ∷ fs) s v (t, h) =
    elim (Bool-cases (same_kind k kind)) [
      | inl e ↦ elim (Bool-cases (same start.pn timing.pn)) [
        | inl f ↦ rw (e, f) (paired-Valid start timing fs s v f t h)
        | inr f ↦ rw (e, f) tt
      ]
      | inr e ↦ rw e tt
    ]

end_at-Good :
    (kind : ScopeKind) (timing : Timing) (o : Option (List Frame)) (s : Frames)
    → Valid s
    → All (λ f. thread_of f ≡ timing.tid) (frames_of o)
    → Good (end_at kind timing o s)
end_at-Good kind timing none s v h = tt
end_at-Good kind timing (some fs) s v h = end_frame-Good kind timing fs s v h

key_value_at-Good :
    (kv : KeyValue) (o : Option (List Frame)) (s : Frames)
    → Valid s
    → All (λ f. thread_of f ≡ kv.tid) (frames_of o)
    → Good (key_value_at kv o s)
key_value_at-Good kv none s v h = tt
key_value_at-Good kv (some fs) s v h = open_frame-Good kv.tid (Frame.key_value kv) fs s v refl h

at_point-Good :
    (point : PointDispatch) (timing : Timing) (s : Frames)
    → Valid s
    → Good (at_point point timing s)
at_point-Good (PointDispatch.scope kind false) timing s v =
    open_frame-Good timing.tid (Frame.scope kind timing) _ s v refl (v.on_thread timing.tid)
at_point-Good (PointDispatch.scope kind true) timing s v =
    end_at-Good kind timing (s.open_frames timing.tid) s v (v.on_thread timing.tid)
at_point-Good PointDispatch.t timing s v = v
at_point-Good PointDispatch.tio timing s v = v

frames_step-Good : (o : Option DataMessage) (s : Frames) → Valid s → Good (frames_step o s)
unfolding frames_step
frames_step-Good none s v = tt
frames_step-Good (some (DataMessage.key_value kv)) s v =
    key_value_at-Good kv (s.open_frames kv.tid) s v (v.on_thread kv.tid)
frames_step-Good (some (DataMessage.timing kind timing)) s v =
    at_point-Good (from_point_kind kind) timing s v

frames_steps-Good :
    (messages : List LogMessage) (s : Frames) → Valid s → Good (frames_steps messages s)
unfolding frames_steps
frames_steps-Good [] s v = v
frames_steps-Good (message ∷ messages) s v =
    next (frames_step (opt_data_message message) s)
      (frames_step-Good (opt_data_message message) s v) (frames_steps-Good messages)
  where
    next :
        (x : Parse Frames)
        → Good x
        → ((t : Frames) → Valid t → Good (frames_steps messages t))
        → Good (and_then x λ t. frames_steps messages t)
    next (ok t) h k = k t h
    next (err e) h k = tt
    next panic h k = tt

-- The span is there, and `start_and_end` gives matching messages of the probe.
abbrev pub HasEnded : Bytes → List Span → ℕ → Type 0
HasEnded pn spans id =
    (span : Span) × ((get_from_db id spans ≡ some span)
      × ((x : Timing × Timing) × ((start_and_end span ≡ ok (some x)) × Matching pn x)))

ended_span :
    (pn : Bytes) (spans : List Span) (id : ℕ) (x : Timing × Timing)
    → timings_of (data_at id spans) ≡ some x
    → Matching pn x
    → HasEnded pn spans id
unfolding start_and_end start_and_end_of
ended_span pn spans id x e m = at (get_from_db id spans) refl e
  where
    at :
        (o : Option Span)
        → get_from_db id spans ≡ o
        → timings_of (Option.map (λ (s : Span). s.span_data) o) ≡ some x
        → HasEnded pn spans id
    at none f h = absurd (cc h)
    at (some span) f h = (span, (f, (x, (of_data span.span_data h, m))))
      where
        of_data : (d : SpanData) → timings_of (some d) ≡ some x → start_and_end_of d ≡ ok (some x)
        of_data (SpanData.key_value kv) h = absurd (cc h)
        of_data (SpanData.scope k n start none) h = absurd (cc h)
        of_data (SpanData.scope k n start (some end)) h = ap (λ o. ok o) h

Timed-HasEnded :
    (pn : Bytes) (spans : List Span) (ids : List ℕ) (xs : List (Timing × Timing))
    → Timed spans ids xs
    → All (Matching pn) xs
    → All (HasEnded pn spans) ids
Timed-HasEnded pn spans [] [] h m = tt
Timed-HasEnded pn spans [] (x ∷ xs) h m = absurd h
Timed-HasEnded pn spans (id ∷ ids) [] h m = absurd h
Timed-HasEnded pn spans (id ∷ ids) (x ∷ xs) (e, h) (m, ms) =
    (ended_span pn spans id x e m, Timed-HasEnded pn spans ids xs h ms)

-- In a tree that was read, each span that is found by a probe name is there and has ended: its start and its end are
-- messages of the same thread with that name, so `start_and_end` does not panic.
pub spans_by_pn-HasEnded :
    (messages : List LogMessage) (tree : LogDataTree) (pn : Bytes)
    → from_logdata messages ≡ ok tree
    → All (HasEnded pn tree.spans) (stack_of (tree.spans_by_pn pn))
spans_by_pn-HasEnded messages tree pn e =
    from_frames (frames_steps messages no_frames)
      (subst (λ x. Agree Shows x (frames_steps messages no_frames)) e (from_logdata-Agree messages))
      (frames_steps-Good messages no_frames (record { on_thread = λ tid. tt; named = λ n. tt }))
  where
    from_frames :
        (y : Parse Frames)
        → Agree {A = LogDataTree} Shows (ok tree) y
        → Good y
        → All (HasEnded pn tree.spans) (stack_of (tree.spans_by_pn pn))
    from_frames (ok s) (num, (indexed, ordered)) v =
        Timed-HasEnded pn tree.spans _ _ (indexed pn) (v.named pn)
    from_frames (err f) h v = absurd h
    from_frames panic h v = absurd h
