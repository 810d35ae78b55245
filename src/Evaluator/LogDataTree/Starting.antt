-- ===== src/Evaluator/LogDataTree/Starting.antt =====
-- The start of a scope, and a key-value, do what the frames do.
use evobench.Prelude.{
  ℕ, suc, ◌+◌, ◌≤◌, ◌<◌, ◌≡◌, ◌⊎◌, inl, inr, refl, ◌∙◌, true, false, Option, none, some, List, [],
  ◌∷◌, ◌++◌, length, leb, Bool-cases, length-append, arith,
}
use evobench.Prelude.Outcome.{ok, panic}
use evobench.Times.{u32_max}
use evobench.Evaluator.LogMessage.{Timing, KeyValue}
use evobench.Evaluator.LogDataTree.{
  ScopeKind, SpanData, Span, ThreadIdMapper, Parsing, put, and_then, get_from_db, update_in_db,
  new_thread_number, to_thread_number, add_span,
}
use evobench.Evaluator.LogDataTree.FromLogdata.{
  with_child, stack_of, last, start_scope, key_value_below, add_child, add_child_at,
}
use evobench.Evaluator.LogDataTree.Frames.{Frame, Frames, frames_of, open_frame, key_value_at}
use evobench.Evaluator.LogDataTree.Spans.{get_within, length-update}
use evobench.Evaluator.LogDataTree.Related.{
  Stacked, StackOf, Ordered, Related, Extends, append-Ordered, update-Ordered,
}
use evobench.Evaluator.LogDataTree.Opening.{Agree, child-Extends, top_within, opened-Related}

length_snoc : (spans : List Span) (x : Span) → length (spans ++ x ∷ []) ≡ length spans + 1
length_snoc spans x = omega (arith, length-append spans (x ∷ []))

numbered :
    (tid : ℕ) (m : ThreadIdMapper) (o : Option ℕ)
    → ((new_thread_number tid m o ≡ panic) × (u32_max < m.current_thread_number + 1))
      ⊎ ((n : ℕ) × ((m' : ThreadIdMapper) × ((new_thread_number tid m o ≡ ok (n, m'))
              × (m'.current_thread_number ≤ m.current_thread_number + 1))))
unfolding new_thread_number
numbered tid m (some n) = inr (n, (m, (refl, omega arith)))
numbered tid m none = elim (Bool-cases (leb (m.current_thread_number + 1) u32_max)) [
  | inl e ↦ rw e (inr (m.current_thread_number, (_, (refl, omega arith))))
  | inr e ↦ rw e (inl (refl, ground arith))
]

stack_Stacked :
    (spans : List Span) (tid : ℕ) (o : Option (List ℕ)) (o' : Option (List Frame))
    → StackOf spans tid o o'
    → Stacked spans tid (suc (length spans)) (stack_of o) (frames_of o')
stack_Stacked spans tid none none h = tt
stack_Stacked spans tid none (some fs) h = absurd h
stack_Stacked spans tid (some ids) none h = absurd h
stack_Stacked spans tid (some ids) (some fs) h = h

module _ (p : Parsing) (s : Frames) (rel : Related p s) where
  pub start_scope-Agree :
      (kind : ScopeKind) (timing : Timing)
      → Agree Related
          (start_scope kind timing (stack_of (p.start_by_thread timing.tid)) p)
          (open_frame timing.tid (Frame.scope kind timing) (frames_of (s.open_frames timing.tid)) s)
  unfolding start_scope to_thread_number add_span
  start_scope-Agree kind timing =
      let ids = stack_of (p.start_by_thread timing.tid) in
      let stacked = stack_Stacked p.slf.spans timing.tid _ _ (rel.stacks timing.tid) in
      elim (numbered timing.tid p.thread_id_mapper
        (p.thread_id_mapper.thread_number_by_thread_id timing.tid)) [
          | inl (e, full) ↦
              let f : leb (s.num_spans + 1) u32_max ≡ false = ground (arith, full, rel.numbers) in
              rw (e, f) tt
          | inr (n, (m', (e, le))) ↦
              let x : Span = record {
                parent = last ids;
                children = [];
                span_data = SpanData.scope kind n timing none;
              } in
              elim (Bool-cases (leb (s.num_spans + 1) u32_max)) [
                | inl f ↦
                    let g : leb (length p.slf.spans + 1) u32_max ≡ true = rw rel.num f in
                    rw (e, f, g)
                      (opened-Related p s rel timing.tid ids (frames_of (s.open_frames timing.tid))
                        stacked x (Frame.scope kind timing) refl refl (p.slf.spans ++ x ∷ []) m'
                        (record { keeps = λ j d h. h; longer = omega arith })
                        (length_snoc p.slf.spans x)
                        (append-Ordered p.slf.spans x
                          (λ q h. top_within p.slf.spans timing.tid _ ids _ q stacked h)
                          rel.ordered)
                        (omega (arith, le, rel.numbers)))
                | inr f ↦
                    let g : leb (length p.slf.spans + 1) u32_max ≡ false = rw rel.num f in
                    rw (e, f, g) tt
              ]
        ]

  key_value_on-Agree :
      (kv : KeyValue) (o : Option (List ℕ)) (o' : Option (List Frame))
      → StackOf p.slf.spans kv.tid o o'
      → Agree Related (key_value_below kv o p) (key_value_at kv o' s)
  unfolding key_value_below add_span add_child add_child_at
  key_value_on-Agree kv none none h = refl
  key_value_on-Agree kv none (some fs) h = absurd h
  key_value_on-Agree kv (some ids) none h = absurd h
  key_value_on-Agree kv (some ids) (some fs) h = elim (Bool-cases (leb (s.num_spans + 1) u32_max)) [
    | inl f ↦
        let g : leb (length p.slf.spans + 1) u32_max ≡ true = rw rel.num f in
        rw (f, g) (below (last ids) refl)
    | inr f ↦ let g : leb (length p.slf.spans + 1) u32_max ≡ false = rw rel.num f in rw (f, g) tt
  ]
    where
      x : Span
      x = record { parent = last ids; children = []; span_data = SpanData.key_value kv }

      longer : List Span
      longer = p.slf.spans ++ x ∷ []

      opened : List Span → Parsing
      opened spans' = record {
        slf = record { spans = spans'; spans_by_pn = p.slf.spans_by_pn };
        thread_id_mapper = p.thread_id_mapper;
        start_by_thread = put kv.tid (some ((length p.slf.spans + 1) ∷ ids)) p.start_by_thread;
      }

      framed : Frames
      framed = record {
        num_spans = s.num_spans + 1;
        open_frames = put kv.tid (some (Frame.key_value kv ∷ fs)) s.open_frames;
        pairs = s.pairs;
      }

      ordered : Ordered longer
      ordered =
          append-Ordered p.slf.spans x (λ q e. top_within p.slf.spans kv.tid _ ids fs q h e)
            rel.ordered

      related :
          (spans' : List Span)
          → Extends longer spans'
          → length spans' ≡ length p.slf.spans + 1
          → Ordered spans'
          → Related (opened spans') framed
      related spans' ext len ord =
          opened-Related p s rel kv.tid ids fs h x (Frame.key_value kv) refl refl spans'
            p.thread_id_mapper ext len ord (omega (arith, rel.numbers))

      child_of :
          (q : ℕ) (o : Option Span)
          → (y : Span) × (o ≡ some y)
          → Agree Related
              (and_then
                (add_child_at q
                  (length p.slf.spans + 1)
                  (record { spans = longer; spans_by_pn = p.slf.spans_by_pn })
                  o)
                λ slf. ok (record {
                  slf = slf;
                  thread_id_mapper = p.thread_id_mapper;
                  start_by_thread =
                      put kv.tid (some ((length p.slf.spans + 1) ∷ ids)) p.start_by_thread;
                }))
              (ok framed)
      child_of q none (y, e) = absurd (cc e)
      child_of q (some z) there =
          related (update_in_db q (with_child (length p.slf.spans + 1)) longer)
            (child-Extends q (length p.slf.spans + 1) longer)
            (length-update q (with_child (length p.slf.spans + 1)) longer
              ∙ length_snoc p.slf.spans x)
            (update-Ordered q (with_child (length p.slf.spans + 1)) longer (λ y. refl) ordered)

      below :
          (o : Option ℕ)
          → last ids ≡ o
          → Agree Related
              (and_then
                (add_child o
                  (length p.slf.spans + 1)
                  (record { spans = longer; spans_by_pn = p.slf.spans_by_pn }))
                λ slf. ok (record {
                  slf = slf;
                  thread_id_mapper = p.thread_id_mapper;
                  start_by_thread =
                      put kv.tid (some ((length p.slf.spans + 1) ∷ ids)) p.start_by_thread;
                }))
              (ok framed)
      below none e =
          related longer (record { keeps = λ j d k. k; longer = omega arith })
            (length_snoc p.slf.spans x) ordered
      below (some q) e =
          let (l, u) = top_within p.slf.spans kv.tid _ ids fs q h e in
          child_of q (get_from_db q longer)
            (get_within q longer l (omega (arith, u, length_snoc p.slf.spans x)))

  pub key_value-Agree :
      (kv : KeyValue)
      → Agree Related
          (key_value_below kv (p.start_by_thread kv.tid) p)
          (key_value_at kv (s.open_frames kv.tid) s)
  key_value-Agree kv = key_value_on-Agree kv _ _ (rel.stacks kv.tid)
