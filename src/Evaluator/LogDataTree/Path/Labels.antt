-- ===== src/Evaluator/LogDataTree/Path/Labels.antt =====
-- The text of a path is made of the labels of the span and of the spans above it.
use mathlib.Core.List.{append_assoc}
use evobench.Prelude.{
  ℕ, zero, suc, ◌≤◌, ◌≡◌, inl, inr, refl, sym, ap, ◌∙◌, Bool, true, false, none, some, List, [],
  ◌∷◌, Option-cases, arith,
}
use evobench.Prelude.Bytes.{Bytes}
use evobench.Prelude.Outcome.{ok}
use evobench.Evaluator.LogMessage.{LogMessage}
use evobench.Evaluator.LogDataTree.{SpanData, Span, LogDataTree, get_from_db}
use evobench.Evaluator.LogDataTree.FromLogdata.{from_logdata}
use evobench.Evaluator.LogDataTree.Refine.{from_logdata-Ordered}
use evobench.Evaluator.LogDataTree.Spans.{get_within, get-bounds}
use evobench.Evaluator.LogDataTree.Related.{Ordered, parent_of}
use evobench.Evaluator.LogDataTree.Path.{
  PathStringOptions, Out, push_str, stop, push_self, Written, also, at_parent, below_parent, above,
  stopping, path_string,
}

-- The labels from a span upwards, to the top of the tree or to where the options stop.
pub data Labels (opts : PathStringOptions) (spans : List Span) : Span → List Out → Type 0 where
  stopped :
      {span : Span} {o : Out} → stop opts span.span_data ≡ some o → Labels opts spans span (o ∷ [])
  top :
      {span : Span}
      → stop opts span.span_data ≡ none
      → span.parent ≡ none
      → Labels opts spans span (push_self opts span.span_data ∷ [])
  up :
      {span parent : Span} {parent_id : ℕ} {labels : List Out}
      → stop opts span.span_data ≡ none
      → span.parent ≡ some parent_id
      → get_from_db parent_id spans ≡ some parent
      → Labels opts spans parent labels
      → Labels opts spans span (push_self opts span.span_data ∷ labels)

-- The labels of a reversed path, the span in front.
abbrev pub joined : Bytes → List Out → Out
joined separator [] = ([], [])
joined separator (o ∷ []) = o
joined separator (o ∷ o' ∷ os) = push_str (push_str o ([], separator)) (joined separator (o' ∷ os))

-- The labels of a normal path, the span at the end.
abbrev pub joined_up : Bytes → List Out → Out
joined_up separator [] = ([], [])
joined_up separator (o ∷ []) = o
joined_up separator (o ∷ o' ∷ os) =
    push_str (push_str (joined_up separator (o' ∷ os)) ([], separator)) o

abbrev pub text_of : Bool → PathStringOptions → List Out → Out
text_of true opts labels = joined opts.reverse_separator labels
text_of false opts labels = joined_up opts.normal_separator labels

push_assoc : (a b c : Out) → push_str (push_str a b) c ≡ push_str a (push_str b c)
push_assoc (a, a') (b, b') (c, c') = λ i. (append_assoc a b c i, append_assoc a' b' c' i)

-- No label is missing.
data NotEmpty : List Out → Type 0 where
  cons : {o : Out} {os : List Out} → NotEmpty (o ∷ os)

joined_cons :
    (separator : Bytes) (o : Out) (os : List Out)
    → NotEmpty os
    → joined separator (o ∷ os) ≡ push_str (push_str o ([], separator)) (joined separator os)
joined_cons separator o (o' ∷ os) h = refl
joined_cons separator o [] h = elim h [ ]

joined_up_cons :
    (separator : Bytes) (o : Out) (os : List Out)
    → NotEmpty os
    → joined_up separator (o ∷ os) ≡ push_str (push_str (joined_up separator os) ([], separator)) o
joined_up_cons separator o (o' ∷ os) h = refl
joined_up_cons separator o [] h = elim h [ ]

-- Of a span: labels, and that the text of them is written after what is there.
Shown : ℕ → PathStringOptions → List Span → Span → Type 0
Shown fuel opts spans span =
    (labels : List Out) × (Labels opts spans span labels
      × (NotEmpty labels
          × ((out : Out)
              → path_string fuel opts spans span out
                ≡ ok (push_str out (text_of opts.reversed opts labels)))))

below_parent-text_of :
    (r : Bool) (path : Span → Out → Written) (opts : PathStringOptions) (d : SpanData)
    (parent : Span) (labels : List Out)
    → NotEmpty labels
    → ((out : Out) → path parent out ≡ ok (push_str out (text_of r opts labels)))
    → (out : Out)
    → below_parent r path opts d (some parent) out
      ≡ ok (push_str out (text_of r opts (push_self opts d ∷ labels)))
unfolding below_parent at_parent
below_parent-text_of true path opts d parent labels some_label ih out =
    let self = push_self opts d in
    let sep = opts.reverse_separator in
    ih (push_str (push_str out self) ([], sep))
    ∙ ap (λ o. ok o)
        (ap (λ o. push_str o (joined sep labels)) (push_assoc out self ([], sep))
          ∙ push_assoc out (push_str self ([], sep)) (joined sep labels)
          ∙ ap (push_str out) (sym (joined_cons sep self labels some_label)))
below_parent-text_of false path opts d parent labels some_label ih out =
    let self = push_self opts d in
    let sep = opts.normal_separator in
    ap (λ w. also w (λ o. push_str (push_str o ([], sep)) self)) (ih out)
    ∙ ap (λ o. ok o)
        (ap (λ o. push_str o self) (push_assoc out (joined_up sep labels) ([], sep))
          ∙ push_assoc out (push_str (joined_up sep labels) ([], sep)) self
          ∙ ap (push_str out) (sym (joined_up_cons sep self labels some_label)))

module _ (opts : PathStringOptions) (spans : List Span) (ordered : Ordered spans) where
  path_string-Shown :
      (fuel id : ℕ) (span : Span)
      → id ≤ fuel
      → get_from_db id spans ≡ some span
      → Shown fuel opts spans span
  unfolding path_string stopping above Shown
  path_string-Shown zero id span le got =
      let (l, u) = get-bounds id spans span got in absurd (omega (arith, l, le))
  path_string-Shown (suc fuel) id span le got = elim (Option-cases (stop opts span.span_data)) [
    | inr (o, e) ↦ (
      o ∷ [],
      (Labels.stopped e, (NotEmpty.cons, λ out. rw (e, stopping) (single opts.reversed o out))),
    )
    | inl e ↦ elim (Option-cases span.parent) [
      | inl f ↦ (
        push_self opts span.span_data ∷ [],
        (
          Labels.top e f,
          (
            NotEmpty.cons,
            λ out. rw (e, f) (single opts.reversed (push_self opts span.span_data) out),
          ),
        ),
      )
      | inr (q, f) ↦
          let (l, (lt, u)) = ordered id q (ap parent_of got ∙ f) in
          let (parent, there) = get_within q spans l (omega (arith, lt, u)) in
          let (labels, (are, (some_label, shown))) =
            path_string-Shown fuel q parent (omega (arith, lt, le)) there in
          (
            push_self opts span.span_data ∷ labels,
            (
              Labels.up e f there are,
              (
                NotEmpty.cons,
                λ out.
                    rw (e, f, there)
                      (below_parent-text_of opts.reversed (λ s o. path_string fuel opts spans s o)
                        opts span.span_data parent labels some_label shown out),
              ),
            ),
          )
    ]
  ]
    where
      single :
          (r : Bool) (o out : Out)
          → ◌≡◌ {A = Written} (ok (push_str out o)) (ok (push_str out (text_of r opts (o ∷ []))))
      single true o out = refl
      single false o out = refl

-- In a tree that was read, the path of each span is there, with its number as fuel: it is made of the labels of the
-- span and of the spans above it, to the top or to where the options stop, joined by the separator, with the span
-- at the end, or in front where the path is reversed. It stands after what was written before.
pub path_string_lem :
    (messages : List LogMessage) (tree : LogDataTree) (opts : PathStringOptions) (id : ℕ)
    (span : Span)
    → from_logdata messages ≡ ok tree
    → get_from_db id tree.spans ≡ some span
    → (labels : List Out) × (Labels opts tree.spans span labels
        × ((out : Out)
            → path_string id opts tree.spans span out
              ≡ ok (push_str out (text_of opts.reversed opts labels))))
unfolding Shown
path_string_lem messages tree opts id span e got =
    let (labels, (are, (some_label, shown))) =
      path_string-Shown opts tree.spans (from_logdata-Ordered messages tree e) id id span
        (omega arith) got in
    (labels, (are, shown))
