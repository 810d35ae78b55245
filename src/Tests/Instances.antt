-- ===== src/Tests/Instances.antt =====
-- Instances of the interfaces that the examples run with.
use Prim.Native.Nat.{Ordering}
use evobench.Prelude.{
  ◌&&◌, ℕ, ◌+◌, ◌*◌, ◌/◌, ◌<◌, ◌≡◌, ◌≢◌, refl, zero, suc, Bool, true, false, not, Option, none,
  some, [], ltb, arith, if◌then◌else◌,
}
use evobench.Prelude.Bytes.{Bytes, codes, same}
use evobench.KeyValFs.AsKey.{Json}
use evobench.KeyValFs.Disk.{Disk}
use evobench.KeyValFs.Disk.Files.{Dir}
use evobench.KeyValFs.KeyVal.{KeyVal, KeyValSync}
use evobench.Run.Float.{Float64, IsNumber, IsOrdered, flip}
use evobench.Run.Schedule.Window.{LocalResult, single, skipped, Chrono, IsCalendar, LocalNaiveTime}

-- Texts that stand for themselves.
abbrev pub text_json : Json Bytes
text_json = record { to_string = λ v. some v; from_str = λ s. some s; reads_back = λ v s e. cc }

-- Two priorities, a low and a high one.
abbrev cmp : Bool → Bool → Option Ordering
cmp false false = some Ordering.eq
cmp false true = some Ordering.lt
cmp true false = some Ordering.gt
cmp true true = some Ordering.eq

abbrev pub two_priorities : Float64
two_priorities = record {
  F = Bool;
  partial_cmp = cmp;
  plus = λ a b. b;
  negate = not;
  zero_f = false;
  one_f = true;
  minus_one_f = false;
  one_and_half_f = true;
  some_number_f = false;
}

pub two_priorities-IsOrdered : IsOrdered two_priorities
two_priorities-IsOrdered = record {
  total = total;
  self_eq = self_eq;
  le_trans = le_trans;
  converse = converse;
  negate_IsNumber = negate_IsNumber;
  negate_cmp = negate_cmp;
}
  where
    total :
        (x y : Bool)
        → IsNumber two_priorities x
        → IsNumber two_priorities y
        → (o : Ordering) × (cmp x y ≡ some o)
    total false false m n = (Ordering.eq, refl)
    total false true m n = (Ordering.lt, refl)
    total true false m n = (Ordering.gt, refl)
    total true true m n = (Ordering.eq, refl)

    self_eq : (x : Bool) → IsNumber two_priorities x → cmp x x ≡ some Ordering.eq
    self_eq false n = refl
    self_eq true n = refl

    le_trans :
        (x y z : Bool)
        → IsNumber two_priorities x
        → IsNumber two_priorities y
        → IsNumber two_priorities z
        → cmp x y ≢ some Ordering.gt
        → cmp y z ≢ some Ordering.gt
        → cmp x z ≢ some Ordering.gt
    le_trans false y false l m n h k = λ e. cc
    le_trans false y true l m n h k = λ e. cc
    le_trans true false false l m n h k = h
    le_trans true true false l m n h k = k
    le_trans true y true l m n h k = λ e. cc

    converse : (x y : Bool) (o : Ordering) → cmp x y ≡ some o → cmp y x ≡ some (flip o)
    converse false false o e = let p : Ordering.eq ≡ o = cc in rw (← p) refl
    converse false true o e = let p : Ordering.lt ≡ o = cc in rw (← p) refl
    converse true false o e = let p : Ordering.gt ≡ o = cc in rw (← p) refl
    converse true true o e = let p : Ordering.eq ≡ o = cc in rw (← p) refl

    negate_IsNumber : (x : Bool) → IsNumber two_priorities x → IsNumber two_priorities (not x)
    negate_IsNumber false n = (Ordering.gt, refl)
    negate_IsNumber true n = (Ordering.eq, refl)

    negate_cmp :
        (x y : Bool)
        → IsNumber two_priorities x
        → IsNumber two_priorities y
        → cmp (not x) (not y) ≡ cmp y x
    negate_cmp false false m n = refl
    negate_cmp false true m n = refl
    negate_cmp true false m n = refl
    negate_cmp true true m n = refl

-- A calendar without changes of the clock: a date is the number of its day, an instant a number of
-- seconds.
abbrev seconds : LocalNaiveTime → ℕ
seconds t = t.hour * 3600 + t.minute * 60 + t.second

abbrev day_before : ℕ → Option ℕ
day_before zero = none
day_before (suc d) = some d

abbrev from_hms : ℕ → ℕ → ℕ → Option LocalNaiveTime
from_hms hour minute second =
    if ltb hour 24 && ltb minute 60 && ltb second 60
    then some (record { hour = hour; minute = minute; second = second })
    else none

abbrev at_time : ℕ → LocalNaiveTime → LocalResult
at_time d t = if ltb (seconds t) 86400 then single (d * 86400 + seconds t) else skipped

abbrev pub utc : Chrono
utc = record {
  NaiveDate = ℕ;
  NaiveTime = LocalNaiveTime;
  from_hms_opt = from_hms;
  from_local_datetime = at_time;
  date_naive = λ now. now / 86400;
  add_day = λ d. some (d + 1);
  sub_day = day_before;
}

pub utc-IsCalendar : IsCalendar utc
utc-IsCalendar = record {
  takes = takes;
  next_day_after = next_day_after;
  prev_day_before = prev_day_before;
}
  where
    takes :
        (hour minute second : ℕ)
        → hour < 24
        → minute < 60
        → second < 60
        → (t : LocalNaiveTime) × (from_hms hour minute second ≡ some t)
    takes hour minute second h m s =
        (record { hour = hour; minute = minute; second = second }, ground (arith, h, m, s))

    next_day_after :
        (now : ℕ) {d : ℕ} (t : LocalNaiveTime) (i : ℕ)
        → some (now / 86400 + 1) ≡ some d
        → at_time d t ≡ single i
        → now < i
    next_day_after now t i e h = ground (arith, e, h)

    prev_day_before :
        (now : ℕ) {d : ℕ} (t : LocalNaiveTime) (i : ℕ)
        → day_before (now / 86400) ≡ some d
        → at_time d t ≡ single i
        → i < now
    prev_day_before now t i e h = ground (arith, e, h)

-- A database directory, and files that no call fails on.
abbrev pub queue_dir : Bytes
queue_dir = codes "queue"

abbrev pub files_on : Dir → Disk
files_on files = record {
  dirs = λ d. if same queue_dir d then some files else none;
  faults = [];
  held = λ d f. false;
  signals = 0;
  clock = λ n. 1_000_000_000 + n;
  pid = 7;
  ids = 0;
}

abbrev pub queue_kv : KeyVal
queue_kv = record { sync = KeyValSync.all; base_dir = queue_dir; signal_change = true }
