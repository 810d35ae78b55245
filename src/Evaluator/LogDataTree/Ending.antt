-- ===== src/Evaluator/LogDataTree/Ending.antt =====
-- The end of a scope does what the frames do: the scope on top of the stack, below key-values, is closed.
use mathlib.Core.Option
use mathlib.Core.Path.{subst}
use evobench.Prelude.{
  ℕ, suc, ◌≤◌, ◌<◌, ◌≡◌, ◌≢◌, inl, inr, refl, sym, ap, ◌∙◌, Option, none, some, List, [], ◌∷◌, ◌++◌,
  length, ◌==◌, ==_iff, Bool-cases, arith,
}
use evobench.Prelude.Bytes.{Bytes, same}
use evobench.Evaluator.LogMessage.{Timing}
use evobench.Evaluator.LogDataTree.{
  ScopeKind, SpanData, Span, ThreadIdMapper, Parsing, put, get_from_db, update_in_db,
  remove_thread_id,
}
use evobench.Evaluator.LogDataTree.FromLogdata.{
  with_data, data_at, stack_of, push_to, mapper_after, closed,
}
use evobench.Evaluator.LogDataTree.Frames.{Frame, Frames, paired}
use evobench.Evaluator.LogDataTree.Spans.{get-update_self, get-update_ne, length-update}
use evobench.Evaluator.LogDataTree.Related.{
  frame_of, timings_of, thread_of, Stacked, StackOf, Timed, Timed-append, Related, update-Ordered,
}

mapper_after-le :
    (kind : ScopeKind) (tid : ℕ) (m : ThreadIdMapper) (n : ℕ)
    → m.current_thread_number ≤ n
    → (mapper_after kind tid m).current_thread_number ≤ n
unfolding remove_thread_id
mapper_after-le ScopeKind.thread tid m n h = h
mapper_after-le ScopeKind.process tid m n h = h
mapper_after-le ScopeKind.scope tid m n h = h

push_to-append : (id : ℕ) (o : Option (List ℕ)) → push_to id o ≡ stack_of o ++ id ∷ []
push_to-append id none = refl
push_to-append id (some ids) = refl

module _ (p : Parsing) (s : Frames) (rel : Related p s) (kind : ScopeKind) (n : ℕ)
    (start timing : Timing) (id : ℕ)
    (is_open : data_at id p.slf.spans ≡ some (SpanData.scope kind n start none))
    (on_thread : start.tid ≡ timing.tid) where
  abbrev pub ended : SpanData
  ended = SpanData.scope kind n start (some timing)

  abbrev pub spans' : List Span
  spans' = update_in_db id (with_data ended) p.slf.spans

  others : (j : ℕ) → j ≢ id → data_at j spans' ≡ data_at j p.slf.spans
  others j ne =
      ap (Option.map (λ (y : Span). y.span_data))
        (get-update_ne j id (with_data ended) p.slf.spans ne)

  closed_data : data_at id spans' ≡ some ended
  closed_data =
      ap (Option.map (λ (y : Span). y.span_data)) (get-update_self id (with_data ended) p.slf.spans)
      ∙ at_self (get_from_db id p.slf.spans) is_open
    where
      at_self :
          (o : Option Span)
          → Option.map (λ (y : Span). y.span_data) o ≡ some (SpanData.scope kind n start none)
          → Option.map (λ (y : Span). y.span_data) (Option.map (with_data ended) o) ≡ some ended
      at_self none h = absurd (cc h)
      at_self (some y) h = refl

  Stacked-closed :
      (tid bound bound' : ℕ) (ids : List ℕ) (fs : List Frame)
      → bound ≤ bound'
      → ((j : ℕ) (f : Frame)
          → j < bound
          → frame_of (data_at j p.slf.spans) ≡ some f
          → thread_of f ≡ tid
          → j ≢ id)
      → Stacked p.slf.spans tid bound ids fs
      → Stacked spans' tid bound' ids fs
  Stacked-closed tid bound bound' [] [] le apart h = tt
  Stacked-closed tid bound bound' [] (f ∷ fs) le apart h = absurd h
  Stacked-closed tid bound bound' (j ∷ ids) [] le apart h = absurd h
  Stacked-closed tid bound bound' (j ∷ ids) (f ∷ fs) le apart (lt, (e, (t, h))) = (
    omega arith,
    (
      ap frame_of (others j (apart j f lt e t)) ∙ e,
      (
        t,
        Stacked-closed tid j j ids fs (omega arith) (λ i g l. apart i g (omega (arith, lt, l))) h,
      ),
    ),
  )

  -- The frames of another thread are other spans.
  StackOf-closed :
      (tid : ℕ) (o : Option (List ℕ)) (o' : Option (List Frame))
      → timing.tid ≢ tid
      → StackOf p.slf.spans tid o o'
      → StackOf spans' tid o o'
  StackOf-closed tid none none ne h = tt
  StackOf-closed tid none (some fs) ne h = absurd h
  StackOf-closed tid (some ids) none ne h = absurd h
  StackOf-closed tid (some ids) (some fs) ne h =
      Stacked-closed tid (suc (length p.slf.spans)) (suc (length spans')) ids fs
        (omega (arith, length-update id (with_data ended) p.slf.spans))
        (λ j f lt e t same_id. ne (other_thread j f e t same_id)) h
    where
      thread : Option Frame → ℕ
      thread none = 0
      thread (some f) = thread_of f

      other_thread :
          (j : ℕ) (f : Frame)
          → frame_of (data_at j p.slf.spans) ≡ some f
          → thread_of f ≡ tid
          → j ≡ id
          → timing.tid ≡ tid
      other_thread j f e t same_id =
          sym on_thread
          ∙ sym (ap (λ d. thread (frame_of d)) is_open)
          ∙ sym (ap (λ i. thread (frame_of (data_at i p.slf.spans))) same_id)
          ∙ ap thread e
          ∙ t

  Timed-closed :
      (ids : List ℕ) (xs : List (Timing × Timing)) → Timed p.slf.spans ids xs → Timed spans' ids xs
  Timed-closed [] [] h = tt
  Timed-closed [] (x ∷ xs) h = absurd h
  Timed-closed (j ∷ ids) [] h = absurd h
  Timed-closed (j ∷ ids) (x ∷ xs) (e, h) =
      (ap timings_of (others j (not_open e)) ∙ e, Timed-closed ids xs h)
    where
      not_open : timings_of (data_at j p.slf.spans) ≡ some x → j ≢ id
      not_open e same_id =
          absurd
            (cc (e, ap (λ i. timings_of (data_at i p.slf.spans)) same_id, ap timings_of is_open))

  pub closed-Related :
      (ids : List ℕ) (fs : List Frame)
      → id < suc (length p.slf.spans)
      → Stacked p.slf.spans timing.tid id ids fs
      → Related (closed kind n start id timing ids p) (paired start timing fs s)
  closed-Related ids fs lt h = record {
    num = length-update id (with_data ended) p.slf.spans ∙ rel.num;
    numbers = mapper_after-le kind timing.tid p.thread_id_mapper s.num_spans rel.numbers;
    stacks = stacks;
    indexed = indexed;
    ordered = update-Ordered id (with_data ended) p.slf.spans (λ y. refl) rel.ordered;
  }
    where
      stacks :
          (j : ℕ)
          → StackOf spans' j
              (put timing.tid (some ids) p.start_by_thread j)
              (put timing.tid (some fs) s.open_frames j)
      stacks j = elim (Bool-cases (timing.tid == j)) [
        | inl e ↦ rw e (
            subst (λ t. Stacked spans' t (suc (length spans')) ids fs) ((==_iff timing.tid j).0 e)
              (Stacked-closed timing.tid id (suc (length spans')) ids fs
                (omega (arith, lt, length-update id (with_data ended) p.slf.spans))
                (λ i f l e' t same_id. omega (arith, l, same_id)) h))
        | inr e ↦ rw e (
            StackOf-closed j _ _ (λ same_tid. absurd (cc (e, (==_iff timing.tid j).1 same_tid)))
              (rel.stacks j))
      ]

      indexed :
          (pn : Bytes)
          → Timed spans'
              (stack_of ((closed kind n start id timing ids p).slf.spans_by_pn pn))
              ((paired start timing fs s).pairs pn)
      indexed pn = elim (Bool-cases (same start.pn pn)) [
        | inl e ↦ rw e (
            subst (λ l. Timed spans' l (s.pairs start.pn ++ (start, timing) ∷ []))
              (sym (push_to-append id (p.slf.spans_by_pn start.pn)))
              (Timed-append spans' _ _ id (start, timing) (Timed-closed _ _ (rel.indexed start.pn))
                (ap timings_of closed_data)))
        | inr e ↦ rw e (Timed-closed _ _ (rel.indexed pn))
      ]
