-- ===== src/Evaluator/LogMessage.antt =====
-- The messages of a benchmark log, evobench-tools/src/evaluator/data/log_message.rs.
use evobench.Prelude.{ℕ, Option, none, some}
use evobench.Prelude.Bytes.{Bytes}
use evobench.Times.{Time}

pub data ℤ : Type 0 where
  pos : ℕ → ℤ
  negsuc : ℕ → ℤ

pub record UName : Type 0 where
  pub sysname : Bytes
  pub nodename : Bytes
  pub release : Bytes
  pub version : Bytes
  pub machine : Bytes

pub record Metadata : Type 0 where
  pub hostname : Bytes
  pub username : Bytes
  pub uname : UName
  pub compiler : Bytes

-- `pid` and `tid` are a ProcessId and a ThreadId, which wrap numbers; `r` is a NanoTime, `u` and `s` are MicroTimes.
pub record Timing : Type 0 where
  pub pn : Bytes
  pub pid : ℕ
  pub tid : ℕ
  pub n : Option ℕ
  pub r : Time
  pub u : Time
  pub s : Time
  pub maxrss : Option ℤ
  pub minflt : Option ℤ
  pub majflt : Option ℤ
  pub inblock : Option ℤ
  pub oublock : Option ℤ
  pub nvcsw : Option ℤ
  pub nivcsw : Option ℤ

pub record KeyValue : Type 0 where
  pub tid : ℕ
  pub k : Bytes
  pub v : Bytes

pub data PointKind : Type 0 where
  t_start t ts te t_thread_start t_thread_end t_end tio : PointKind

pub data LogMessage : Type 0 where
  start : ℕ → Bytes → LogMessage
  metadata : Metadata → LogMessage
  key_value : KeyValue → LogMessage
  t_start t ts te t_thread_start t_thread_end t_end tio : Timing → LogMessage

pub data DataMessage : Type 0 where
  key_value : KeyValue → DataMessage
  timing : PointKind → Timing → DataMessage

unfoldable pub opt_data_message : LogMessage → Option DataMessage
opt_data_message (LogMessage.start evobench_log_version evobench_version) = none
opt_data_message (LogMessage.metadata m) = none
opt_data_message (LogMessage.key_value kv) = some (DataMessage.key_value kv)
opt_data_message (LogMessage.t_start x) = some (DataMessage.timing PointKind.t_start x)
opt_data_message (LogMessage.t x) = some (DataMessage.timing PointKind.t x)
opt_data_message (LogMessage.ts x) = some (DataMessage.timing PointKind.ts x)
opt_data_message (LogMessage.te x) = some (DataMessage.timing PointKind.te x)
opt_data_message (LogMessage.t_thread_start x) =
    some (DataMessage.timing PointKind.t_thread_start x)
opt_data_message (LogMessage.t_thread_end x) = some (DataMessage.timing PointKind.t_thread_end x)
opt_data_message (LogMessage.t_end x) = some (DataMessage.timing PointKind.t_end x)
opt_data_message (LogMessage.tio x) = some (DataMessage.timing PointKind.tio x)
