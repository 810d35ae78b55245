-- ===== src/Evaluator/LogDataTree/FromLogdata.antt =====
-- `LogDataTree::from_logdata`: the messages of a log, one after the other. A failing step loses the tree, so a step
-- gives the new variables only where it succeeds.
use mathlib.Core.Option
use evobench.Prelude.{ℕ, true, false, Option, none, some, List, [], ◌∷◌, ◌++◌, if◌then◌else◌}
use evobench.Prelude.Bytes.{Bytes, same}
use evobench.Prelude.Outcome.{ok, err, panic}
use evobench.Evaluator.LogMessage.{Timing, KeyValue, LogMessage, DataMessage, opt_data_message}
use evobench.Evaluator.LogDataTree.{
  ScopeKind, PointDispatch, from_point_kind, same_kind, SpanData, Span, LogDataTree, ThreadIdMapper,
  Parsing, key_value_outside, missing_start, end_before_start, expected_closing, Parse, and_then,
  put, get_from_db, update_in_db, add_span, to_thread_number, remove_thread_id,
}

abbrev pub new : Parsing
new = record {
  slf = record { spans = []; spans_by_pn = λ pn. none };
  thread_id_mapper = record { current_thread_number = 0; thread_number_by_thread_id = λ tid. none };
  start_by_thread = λ tid. none;
}

abbrev pub last : List ℕ → Option ℕ
last [] = none
last (id ∷ ids) = some id

abbrev pub with_child : ℕ → Span → Span
with_child id s = record {
  parent = s.parent;
  children = s.children ++ id ∷ [];
  span_data = s.span_data;
}

abbrev pub with_spans : LogDataTree → List Span → LogDataTree
with_spans slf spans = record { spans = spans; spans_by_pn = slf.spans_by_pn }

unfoldable pub add_child_at : ℕ → ℕ → LogDataTree → Option Span → Parse LogDataTree
add_child_at parent id slf none = panic
add_child_at parent id slf (some s) =
    ok (with_spans slf (update_in_db parent (with_child id) slf.spans))

unfoldable pub add_child : Option ℕ → ℕ → LogDataTree → Parse LogDataTree
unfolding add_child_at
add_child none id slf = ok slf
add_child (some parent) id slf = add_child_at parent id slf (get_from_db parent slf.spans)

abbrev pub pushed : ℕ → ℕ → List ℕ → Parsing → LogDataTree → Parsing
pushed tid id stack p slf = record {
  slf = slf;
  thread_id_mapper = p.thread_id_mapper;
  start_by_thread = put tid (some (id ∷ stack)) p.start_by_thread;
}

unfoldable pub key_value_below : KeyValue → Option (List ℕ) → Parsing → Parse Parsing
unfolding add_child add_span
key_value_below kv none p = err key_value_outside
key_value_below kv (some stack) p =
    and_then
      (add_span (record { parent = last stack; children = []; span_data = SpanData.key_value kv })
        p.slf)
      λ added.
        and_then (add_child (last stack) added.0 added.1)
          λ slf. ok (pushed kv.tid added.0 stack p slf)

-- The stack, which is empty for a new thread.
abbrev pub stack_of : Option (List ℕ) → List ℕ
stack_of none = []
stack_of (some stack) = stack

abbrev pub with_mapper : Parsing → ThreadIdMapper → Parsing
with_mapper p m = record { slf = p.slf; thread_id_mapper = m; start_by_thread = p.start_by_thread }

unfoldable pub start_scope : ScopeKind → Timing → List ℕ → Parsing → Parse Parsing
unfolding to_thread_number add_span
start_scope kind timing stack p =
    and_then (to_thread_number timing.tid p.thread_id_mapper) λ numbered.
      and_then
        (add_span
          (record {
            parent = last stack;
            children = [];
            span_data = SpanData.scope kind numbered.0 timing none;
          })
          p.slf)
        λ added. ok (pushed timing.tid added.0 stack (with_mapper p numbered.1) added.1)

abbrev pub with_data : SpanData → Span → Span
with_data d s = record { parent = s.parent; children = s.children; span_data = d }

abbrev pub push_to : ℕ → Option (List ℕ) → List ℕ
push_to id none = id ∷ []
push_to id (some ids) = ids ++ id ∷ []

abbrev pub put_name : Bytes → List ℕ → (Bytes → Option (List ℕ)) → Bytes → Option (List ℕ)
put_name pn ids f j = if same pn j then some ids else f j

abbrev pub mapper_after : ScopeKind → ℕ → ThreadIdMapper → ThreadIdMapper
mapper_after ScopeKind.thread tid m = remove_thread_id tid m
mapper_after ScopeKind.process tid m = m
mapper_after ScopeKind.scope tid m = m

-- The scope is closed, and is found by its name from now on.
abbrev pub closed : ScopeKind → ℕ → Timing → ℕ → Timing → List ℕ → Parsing → Parsing
closed kind thread_number start id timing stack p = record {
  slf = record {
    spans =
        update_in_db id (with_data (SpanData.scope kind thread_number start (some timing)))
          p.slf.spans;
    spans_by_pn = put_name start.pn (push_to id (p.slf.spans_by_pn start.pn)) p.slf.spans_by_pn;
  };
  thread_id_mapper = mapper_after kind timing.tid p.thread_id_mapper;
  start_by_thread = put timing.tid (some stack) p.start_by_thread;
}

-- The frame that was popped; `next` is the next round of the loop. The names are asserted to be equal.
unfoldable pub close_frame :
    ScopeKind → Timing → ℕ → List ℕ → Parsing → Parse Parsing → Option SpanData → Parse Parsing
close_frame kind timing id stack p next none = panic
close_frame kind timing id stack p next (some (SpanData.key_value kv)) = next
close_frame kind timing id stack p next (some (SpanData.scope k thread_number start end)) =
    if same_kind k kind
    then (if same start.pn timing.pn
        then ok (closed k thread_number start id timing stack p)
        else panic)
    else err (expected_closing k kind)

abbrev pub data_at : ℕ → List Span → Option SpanData
data_at id spans = Option.map (λ s. s.span_data) (get_from_db id spans)

unfoldable pub end_scope : ScopeKind → Timing → List ℕ → Parsing → Parse Parsing
unfolding close_frame
end_scope kind timing [] p = err missing_start
end_scope kind timing (id ∷ stack) p =
    close_frame kind timing id stack p (end_scope kind timing stack p) (data_at id p.slf.spans)

unfoldable pub end_on : ScopeKind → Timing → Option (List ℕ) → Parsing → Parse Parsing
unfolding end_scope
end_on kind timing none p = err end_before_start
end_on kind timing (some stack) p = end_scope kind timing stack p

unfoldable pub dispatch : PointDispatch → Timing → Parsing → Parse Parsing
unfolding start_scope end_on
dispatch (PointDispatch.scope kind false) timing p =
    start_scope kind timing (stack_of (p.start_by_thread timing.tid)) p
dispatch (PointDispatch.scope kind true) timing p =
    end_on kind timing (p.start_by_thread timing.tid) p
dispatch PointDispatch.t timing p = ok p
dispatch PointDispatch.tio timing p = ok p

unfoldable pub step : Option DataMessage → Parsing → Parse Parsing
unfolding key_value_below dispatch
step none p = panic
step (some (DataMessage.key_value kv)) p = key_value_below kv (p.start_by_thread kv.tid) p
step (some (DataMessage.timing kind timing)) p = dispatch (from_point_kind kind) timing p

unfoldable pub steps : List LogMessage → Parsing → Parse Parsing
unfolding step
steps [] p = ok p
steps (message ∷ messages) p = and_then (step (opt_data_message message) p) λ q. steps messages q

unfoldable pub from_logdata : List LogMessage → Parse LogDataTree
unfolding steps
from_logdata messages = and_then (steps messages new) λ p. ok p.slf
