-- ===== src/KeyValFs/TimeKey.antt =====
-- The keys of queue entries, `TimeKey` of evobench-tools/src/key_val_fs/queue.rs: a time with the
-- process and a counter, as a file name and back.
pub mod RoundTrip
use Prim.Native.Nat.{compare, Ordering}
use evobench.Prelude.{
  ℕ, ◌+◌, ◌-◌, ◌/◌, ◌%◌, ◌^◌, Option, none, some, [], ◌∷◌, ◌++◌, ◌==◌, if◌then◌else◌,
}
use evobench.Prelude.Bytes.{Bytes}
use evobench.Prelude.Chain.{◌>>=◌}
use evobench.Prelude.Decimal.{decimal, parse_uint}
use evobench.KeyValFs.Disk.{Disk}

abbrev pub max_u32 : ℕ
max_u32 = 2 ^ 32 - 1

abbrev pub max_u64 : ℕ
max_u64 = 2 ^ 64 - 1

abbrev pub max_u128 : ℕ
max_u128 = 2 ^ 128 - 1

pub record TimeKey : Type 0 where
  -- nanoseconds since the epoch
  pub nanos : ℕ
  pub pid : ℕ
  pub id : ℕ

-- The counter is shared by all keys of the process; it wraps around.
unfoldable pub next_id : Disk → ℕ × Disk
next_id w = (w.ids, record w { ids = (w.ids + 1) % 2 ^ 64 })

unfoldable pub now : Disk → TimeKey × Disk
unfolding next_id
now w = let (id, w') = next_id w in (record { nanos = w.clock w.ids; pid = w.pid; id = id }, w')

unfoldable pub unixtime_seconds_and_nanoseconds : TimeKey → ℕ × ℕ
unixtime_seconds_and_nanoseconds key =
    ((key.nanos / 1_000_000_000) % 2 ^ 64, (key.nanos % 1_000_000_000) % 2 ^ 32)

-- The derived order: by time, then process, then counter.
unfoldable pub cmp : TimeKey → TimeKey → Ordering
cmp a b = elim (compare a.nanos b.nanos) [
  | Ordering.eq ↦ elim (compare a.pid b.pid) [
    | Ordering.eq ↦ compare a.id b.id
    | Ordering.lt ↦ Ordering.lt
    | Ordering.gt ↦ Ordering.gt
  ]
  | Ordering.lt ↦ Ordering.lt
  | Ordering.gt ↦ Ordering.gt
]

unfoldable pub as_filename_str : TimeKey → Bytes
as_filename_str key = decimal key.nanos ++ (b'-' ∷ (decimal key.pid ++ (b'-' ∷ decimal key.id)))

-- `str::split_once`
unfoldable pub split_once : ℕ → Bytes → Option (Bytes × Bytes)
split_once sep [] = none
split_once sep (c ∷ cs) =
    if c == sep
    then some ([], cs)
    else elim (split_once sep cs) [ none ↦ none | some (front, back) ↦ some (c ∷ front, back) ]

unfoldable pub try_from_filename_str : Bytes → Option TimeKey
try_from_filename_str file_name = do
  (nanos, pid_id) ← split_once b'-' file_name
  (pid, id) ← split_once b'-' pid_id
  nanos ← parse_uint max_u128 nanos
  pid ← parse_uint max_u32 pid
  id ← parse_uint max_u64 id
  some (record { nanos = nanos; pid = pid; id = id })
