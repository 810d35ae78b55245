-- ===== src/Tests/Evaluation.antt =====
-- The theorems on the tree of a log at a concrete log.
use evobench.Prelude.{ℕ, ◌≡◌, refl, true, false, none, some, List, [], ◌∷◌, All}
use evobench.Prelude.Bytes.{Bytes, codes, same}
use evobench.Prelude.Outcome.{ok, err, panic}
use evobench.Evaluator.LogMessage.{Timing, LogMessage, opt_data_message}
use evobench.Evaluator.LogDataTree.{
  SpanData, Span, LogDataTree, Parse, get_from_db, update_in_db, from_point_kind,
}
use evobench.Evaluator.LogDataTree.FromLogdata.{stack_of, from_logdata}
use evobench.Evaluator.LogDataTree.Frames.{frames_steps, no_frames}
use evobench.Evaluator.LogDataTree.Opening.{Agree}
use evobench.Evaluator.LogDataTree.Refine.{Shows, from_logdata-Agree}
use evobench.Evaluator.LogDataTree.Ended.{HasEnded, spans_by_pn-HasEnded}
use evobench.Evaluator.LogDataTree.Path.{PathStringOptions, Out, path_string, push_str}
use evobench.Evaluator.LogDataTree.Path.Labels.{Labels, text_of, path_string_lem}

abbrev at : Bytes → ℕ → Timing
at pn tid = record {
  pn = pn;
  pid = 1;
  tid = tid;
  n = none;
  r = record { sec = 0; part = 0 };
  u = record { sec = 0; part = 0 };
  s = record { sec = 0; part = 0 };
  maxrss = none;
  minflt = none;
  majflt = none;
  inblock = none;
  oublock = none;
  nvcsw = none;
  nivcsw = none;
}

-- A process with a scope and a key-value, while another thread starts and ends.
abbrev messages : List LogMessage
messages =
    LogMessage.t_start (at (codes "main") 7)
    ∷ LogMessage.t_thread_start (at (codes "worker") 8)
    ∷ LogMessage.ts (at (codes "sum") 7)
    ∷ LogMessage.key_value (record { tid = 7; k = codes "rows"; v = codes "3" })
    ∷ LogMessage.t_thread_end (at (codes "worker") 8)
    ∷ LogMessage.te (at (codes "sum") 7)
    ∷ LogMessage.t_end (at (codes "main") 7)
    ∷ []

from_logdata-Agree_example : Agree Shows (from_logdata messages) (frames_steps messages no_frames)
from_logdata-Agree_example = from_logdata-Agree messages

tree_of : Parse LogDataTree → LogDataTree
tree_of (ok tree) = tree
tree_of (err e) = record { spans = []; spans_by_pn = λ pn. none }
tree_of panic = record { spans = []; spans_by_pn = λ pn. none }

tree : LogDataTree
unfolding tree_of from_logdata
tree = tree_of (from_logdata messages)

is_tree : from_logdata messages ≡ ok tree
unfolding tree tree_of from_logdata opt_data_message from_point_kind get_from_db update_in_db same
is_tree = refl

spans_by_pn-HasEnded_example :
    All (HasEnded (codes "sum") tree.spans) (stack_of (tree.spans_by_pn (codes "sum")))
spans_by_pn-HasEnded_example = spans_by_pn-HasEnded messages tree (codes "sum") is_tree

abbrev opts : PathStringOptions
opts = record {
  normal_separator = codes ">";
  reverse_separator = codes "<";
  ignore_process = true;
  skip_process = false;
  ignore_thread = false;
  include_thread_number_in_path = true;
  reversed = false;
  prefix = codes "N:";
}

rows : Span
rows = record {
  parent = some 3;
  children = [];
  span_data = SpanData.key_value (record { tid = 7; k = codes "rows"; v = codes "3" });
}

rows_there : get_from_db 4 tree.spans ≡ some rows
unfolding tree tree_of from_logdata opt_data_message from_point_kind get_from_db update_in_db same
    rows
rows_there = refl

path_string_lem_example :
    (labels : List Out) × (Labels opts tree.spans rows labels
      × ((out : Out)
          → path_string 4 opts tree.spans rows out ≡ ok (push_str out (text_of false opts labels))))
path_string_lem_example = path_string_lem messages tree opts 4 rows is_tree rows_there
