-- ===== src/Evaluator/LogDataTree/Frames.antt =====
-- What the tree of a log promises, without identifiers and spans: each thread has a stack of open frames, and each probe
-- name has the pairs of the start and the end of a scope, in the order of the ends.
use evobench.Prelude.{
  ℕ, ◌+◌, true, false, Option, none, some, List, [], ◌∷◌, ◌++◌, leb, if◌then◌else◌,
}
use evobench.Prelude.Bytes.{Bytes, same}
use evobench.Prelude.Outcome.{ok, err, panic}
use evobench.Times.{u32_max}
use evobench.Evaluator.LogMessage.{Timing, KeyValue, LogMessage, DataMessage, opt_data_message}
use evobench.Evaluator.LogDataTree.{
  ScopeKind, PointDispatch, from_point_kind, same_kind, key_value_outside, missing_start,
  end_before_start, expected_closing, Parse, and_then, put,
}

pub data Frame : Type 0 where
  scope : ScopeKind → Timing → Frame
  key_value : KeyValue → Frame

pub record Frames : Type 0 where
  pub num_spans : ℕ
  pub open_frames : ℕ → Option (List Frame)
  pub pairs : Bytes → List (Timing × Timing)

abbrev pub frames_of : Option (List Frame) → List Frame
frames_of none = []
frames_of (some fs) = fs

-- A span more, of which there are at most `u32_max`.
abbrev pub open_frame : ℕ → Frame → List Frame → Frames → Parse Frames
open_frame tid f fs s =
    if leb (s.num_spans + 1) u32_max
    then ok (record {
      num_spans = s.num_spans + 1;
      open_frames = put tid (some (f ∷ fs)) s.open_frames;
      pairs = s.pairs;
    })
    else panic

abbrev pub put_pair :
    Bytes → Timing × Timing → (Bytes → List (Timing × Timing)) → Bytes → List (Timing × Timing)
put_pair pn pair f j = if same pn j then f pn ++ pair ∷ [] else f j

abbrev pub paired : Timing → Timing → List Frame → Frames → Frames
paired start end fs s = record {
  num_spans = s.num_spans;
  open_frames = put end.tid (some fs) s.open_frames;
  pairs = put_pair start.pn (start, end) s.pairs;
}

-- Key-values on top end with the scope below them.
abbrev pub end_frame : ScopeKind → Timing → List Frame → Frames → Parse Frames
end_frame kind timing [] s = err missing_start
end_frame kind timing (Frame.key_value kv ∷ fs) s = end_frame kind timing fs s
end_frame kind timing (Frame.scope k start ∷ fs) s =
    if same_kind k kind
    then (if same start.pn timing.pn then ok (paired start timing fs s) else panic)
    else err (expected_closing k kind)

abbrev pub end_at : ScopeKind → Timing → Option (List Frame) → Frames → Parse Frames
end_at kind timing none s = err end_before_start
end_at kind timing (some fs) s = end_frame kind timing fs s

abbrev pub key_value_at : KeyValue → Option (List Frame) → Frames → Parse Frames
key_value_at kv none s = err key_value_outside
key_value_at kv (some fs) s = open_frame kv.tid (Frame.key_value kv) fs s

abbrev pub at_point : PointDispatch → Timing → Frames → Parse Frames
at_point (PointDispatch.scope kind false) timing s =
    open_frame timing.tid (Frame.scope kind timing) (frames_of (s.open_frames timing.tid)) s
at_point (PointDispatch.scope kind true) timing s = end_at kind timing (s.open_frames timing.tid) s
at_point PointDispatch.t timing s = ok s
at_point PointDispatch.tio timing s = ok s

unfoldable pub frames_step : Option DataMessage → Frames → Parse Frames
frames_step none s = panic
frames_step (some (DataMessage.key_value kv)) s = key_value_at kv (s.open_frames kv.tid) s
frames_step (some (DataMessage.timing kind timing)) s = at_point (from_point_kind kind) timing s

unfoldable pub frames_steps : List LogMessage → Frames → Parse Frames
frames_steps [] s = ok s
frames_steps (message ∷ messages) s =
    and_then (frames_step (opt_data_message message) s) λ s'. frames_steps messages s'

abbrev pub no_frames : Frames
no_frames = record { num_spans = 0; open_frames = λ tid. none; pairs = λ pn. [] }
