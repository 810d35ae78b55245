-- ===== src/Evaluator/LogDataTree.antt =====
-- The tree of the spans of a log, evobench-tools/src/evaluator/data/log_data_tree.rs. The log that a tree is made of
-- is left out of it. A `HashMap` is a function; the stack of a thread, a `Vec`, is a list with its last element in front.
pub mod FromLogdata
pub mod Frames
pub mod Spans
pub mod Related
pub mod Opening
pub mod Starting
pub mod Ending
pub mod Refine
pub mod Ended
pub mod Path
use mathlib.Core.Option
use evobench.Prelude.{
  ℕ, zero, suc, ◌+◌, ◌≡◌, Bool, true, false, Option, none, some, List, [], ◌∷◌, ◌++◌, leb, ◌==◌,
  if◌then◌else◌, length,
}
use evobench.Prelude.Bytes.{Bytes, same}
use evobench.Prelude.Outcome.{Outcome, ok, err, panic}
use evobench.Times.{u32_max}
use evobench.Evaluator.LogMessage.{
  Timing, KeyValue, PointKind, LogMessage, DataMessage, opt_data_message,
}

pub data ScopeKind : Type 0 where
  process thread scope : ScopeKind

pub data PointDispatch : Type 0 where
  -- The kind, and whether it is ending.
  scope : ScopeKind → Bool → PointDispatch
  t tio : PointDispatch

unfoldable pub from_point_kind : PointKind → PointDispatch
from_point_kind PointKind.t_start = PointDispatch.scope ScopeKind.process false
from_point_kind PointKind.t = PointDispatch.t
from_point_kind PointKind.ts = PointDispatch.scope ScopeKind.scope false
from_point_kind PointKind.te = PointDispatch.scope ScopeKind.scope true
from_point_kind PointKind.t_thread_start = PointDispatch.scope ScopeKind.thread false
from_point_kind PointKind.t_thread_end = PointDispatch.scope ScopeKind.thread true
from_point_kind PointKind.t_end = PointDispatch.scope ScopeKind.process true
from_point_kind PointKind.tio = PointDispatch.tio

-- The derived equality.
abbrev pub same_kind : ScopeKind → ScopeKind → Bool
same_kind ScopeKind.process ScopeKind.process = true
same_kind ScopeKind.process ScopeKind.thread = false
same_kind ScopeKind.process ScopeKind.scope = false
same_kind ScopeKind.thread ScopeKind.process = false
same_kind ScopeKind.thread ScopeKind.thread = true
same_kind ScopeKind.thread ScopeKind.scope = false
same_kind ScopeKind.scope ScopeKind.process = false
same_kind ScopeKind.scope ScopeKind.thread = false
same_kind ScopeKind.scope ScopeKind.scope = true

pub data SpanData : Type 0 where
  -- The kind, the thread number, the start, and the end once it is there.
  scope : ScopeKind → ℕ → Timing → Option Timing → SpanData
  key_value : KeyValue → SpanData

-- Identifiers of spans count from 1.
pub record Span : Type 0 where
  pub parent : Option ℕ
  pub children : List ℕ
  pub span_data : SpanData

pub record LogDataTree : Type 0 where
  pub spans : List Span
  pub spans_by_pn : Bytes → Option (List ℕ)

pub record ThreadIdMapper : Type 0 where
  pub current_thread_number : ℕ
  pub thread_number_by_thread_id : ℕ → Option ℕ

-- The variables of `from_logdata`.
pub record Parsing : Type 0 where
  pub slf : LogDataTree
  pub thread_id_mapper : ThreadIdMapper
  pub start_by_thread : ℕ → Option (List ℕ)

pub data TreeError : Type 0 where
  key_value_outside missing_start end_before_start : TreeError
  expected_closing : ScopeKind → ScopeKind → TreeError

abbrev pub Parse : Type 0 → Type 0
Parse A = Outcome TreeError A

abbrev pub and_then : {A B : Type 0} → Parse A → (A → Parse B) → Parse B
and_then (ok a) f = f a
and_then (err e) f = err e
and_then panic f = panic

abbrev pub put : {A : Type 0} → ℕ → A → (ℕ → A) → ℕ → A
put k a f j = if k == j then a else f j

unfoldable pub get_from_db : ℕ → List Span → Option Span
get_from_db id [] = none
get_from_db zero (x ∷ spans) = none
get_from_db (suc zero) (x ∷ spans) = some x
get_from_db (suc (suc n)) (x ∷ spans) = get_from_db (suc n) spans

-- Assignment by way of `get_mut_from_db`.
unfoldable pub update_in_db : ℕ → (Span → Span) → List Span → List Span
update_in_db id f [] = []
update_in_db zero f (x ∷ spans) = x ∷ spans
update_in_db (suc zero) f (x ∷ spans) = f x ∷ spans
update_in_db (suc (suc n)) f (x ∷ spans) = x ∷ update_in_db (suc n) f spans

unfoldable pub add_span : Span → LogDataTree → Parse (ℕ × LogDataTree)
add_span value slf =
    if leb (length slf.spans + 1) u32_max
    then ok (
      length slf.spans + 1,
      record { spans = slf.spans ++ value ∷ []; spans_by_pn = slf.spans_by_pn },
    )
    else panic

pub new_thread_number : ℕ → ThreadIdMapper → Option ℕ → Parse (ℕ × ThreadIdMapper)
new_thread_number thread_id m (some thread_number) = ok (thread_number, m)
new_thread_number thread_id m none =
    if leb (m.current_thread_number + 1) u32_max
    then ok (
      m.current_thread_number,
      record {
        current_thread_number = m.current_thread_number + 1;
        thread_number_by_thread_id =
            put thread_id (some m.current_thread_number) m.thread_number_by_thread_id;
      },
    )
    else panic

unfoldable pub to_thread_number : ℕ → ThreadIdMapper → Parse (ℕ × ThreadIdMapper)
unfolding new_thread_number
to_thread_number thread_id m =
    new_thread_number thread_id m (m.thread_number_by_thread_id thread_id)

unfoldable pub remove_thread_id : ℕ → ThreadIdMapper → ThreadIdMapper
remove_thread_id thread_id m = record {
  current_thread_number = m.current_thread_number;
  thread_number_by_thread_id = put thread_id none m.thread_number_by_thread_id;
}

-- A scope without its end is a panic.
start_and_end_of : SpanData → Parse (Option (Timing × Timing))
start_and_end_of (SpanData.scope kind thread_number start none) = panic
start_and_end_of (SpanData.scope kind thread_number start (some end)) = ok (some (start, end))
start_and_end_of (SpanData.key_value kv) = ok none

unfoldable pub start_and_end : Span → Parse (Option (Timing × Timing))
unfolding start_and_end_of
start_and_end s = start_and_end_of s.span_data

unfoldable pub spans_by_pn : Bytes → LogDataTree → Option (List ℕ)
spans_by_pn pn slf = slf.spans_by_pn pn
