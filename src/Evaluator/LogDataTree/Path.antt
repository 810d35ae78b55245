-- ===== src/Evaluator/LogDataTree/Path.antt =====
-- `Span::path_string`: the path from a span to the top of the tree, or where the options stop it. Going up takes fuel; a
-- parent is an older span, so the span's number is enough.
pub mod Labels
use evobench.Prelude.{
  ℕ, zero, suc, ◌≡◌, Bool, true, false, Option, none, some, List, [], ◌∷◌, ◌++◌, ltb, if◌then◌else◌,
}
use evobench.Prelude.Bytes.{Bytes, codes}
use evobench.Prelude.Decimal.{decimal}
use evobench.Prelude.Outcome.{Outcome, ok, err, panic}
use evobench.Evaluator.LogDataTree.{ScopeKind, SpanData, Span, get_from_db}

pub record PathStringOptions : Type 0 where
  pub normal_separator : Bytes
  pub reverse_separator : Bytes
  pub ignore_process : Bool
  pub skip_process : Bool
  pub ignore_thread : Bool
  pub include_thread_number_in_path : Bool
  pub reversed : Bool
  pub prefix : Bytes

-- What is added to `out_prefix` and to `out_main`.
abbrev pub Out : Type 0
Out = Bytes × Bytes

abbrev pub push_str : Out → Out → Out
push_str (a, b) (c, d) = (a ++ c, b ++ d)

-- `thread{:02}`
thread_name : ℕ → Bytes
thread_name n = codes "thread" ++ ((if ltb n 10 then b'0' ∷ [] else []) ++ decimal n)

-- The span at which the path stops.
unfoldable pub stop : PathStringOptions → SpanData → Option Out
unfolding thread_name
stop opts (SpanData.key_value kv) = none
stop opts (SpanData.scope ScopeKind.process n start end) =
    if opts.skip_process
    then some ([], [])
    else (if opts.ignore_process then some (opts.prefix, codes "main thread") else none)
stop opts (SpanData.scope ScopeKind.thread n start end) =
    if opts.ignore_thread
    then some
        (opts.prefix, if opts.include_thread_number_in_path then thread_name n else codes "thread")
    else none
stop opts (SpanData.scope ScopeKind.scope n start end) = none

unfoldable pub push_self : PathStringOptions → SpanData → Out
unfolding thread_name
push_self opts (SpanData.scope ScopeKind.process n start end) = (codes "P:", start.pn)
push_self opts (SpanData.scope ScopeKind.thread n start end) = (
  [],
  codes "T:" ++ ((if opts.include_thread_number_in_path then thread_name n else []) ++ start.pn),
)
push_self opts (SpanData.scope ScopeKind.scope n start end) = ([], start.pn)
push_self opts (SpanData.key_value kv) = ([], kv.k ++ (b'=' ∷ kv.v))

-- The errors: there is no fuel left.
abbrev pub Written : Type 0
Written = Outcome (Unit {0}) Out

abbrev pub also : Written → (Out → Out) → Written
also (ok o) f = ok (f o)
also (err e) f = err e
also panic f = panic

at_parent : (Span → Out → Written) → Option Span → Out → Written
at_parent path none out = panic
at_parent path (some parent) out = path parent out

-- `reversed` or not.
below_parent :
    Bool → (Span → Out → Written) → PathStringOptions → SpanData → Option Span → Out → Written
unfolding at_parent
below_parent true path opts d parent out =
    at_parent path parent (push_str (push_str out (push_self opts d)) ([], opts.reverse_separator))
below_parent false path opts d parent out =
    also (at_parent path parent out)
      λ o. push_str (push_str o ([], opts.normal_separator)) (push_self opts d)

above : (Span → Out → Written) → PathStringOptions → List Span → SpanData → Option ℕ → Out → Written
unfolding below_parent
above path opts spans d none out = ok (push_str out (push_self opts d))
above path opts spans d (some parent_id) out =
    below_parent opts.reversed path opts d (get_from_db parent_id spans) out

stopping : Option Out → Out → Written → Written
stopping none out go_on = go_on
stopping (some o) out go_on = ok (push_str out o)

unfoldable pub path_string : ℕ → PathStringOptions → List Span → Span → Out → Written
unfolding above stopping
path_string zero opts spans span out = err tt
path_string (suc fuel) opts spans span out =
    stopping (stop opts span.span_data) out
      (above (λ s o. path_string fuel opts spans s o) opts spans span.span_data span.parent out)
