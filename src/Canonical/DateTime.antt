-- ===== src/Canonical/DateTime.antt =====
-- What plugshub_common/canonical.py uses of Python's `datetime`, but for its texts: the constructor's
-- checks and the move to UTC. The messages of the library's own errors are left out.
use Prim.Native.Nat.{◌/◌, ◌%◌}
use plugshub_common.Common.{ℕ, ◌+◌, ◌-◌, ◌*◌, ◌&&◌, Option, none, some, [], ltb, leb, if◌then◌else◌}
use plugshub_common.Common.Int.{ℤ, pos, pos_part, neg_part}
use plugshub_common.Errors.{Exc, value_error, overflow_error}
use plugshub_common.Exec.{Result, ok, raised}
use plugshub_common.Canonical.Calendar.{Date, days_in_month, next_day, previous_day}

-- `offset` is `utcoffset()` in microseconds, `none` for a naive datetime; `micros` counts those of
-- the second.
pub record DateTime : Type 0 where
  pub date : Date
  pub hour : ℕ
  pub minute : ℕ
  pub second : ℕ
  pub micros : ℕ
  pub offset : Option ℤ

abbrev pub day_micros : ℕ
day_micros = 86400000000

-- An error of the library.
abbrev pub invalid : Exc
invalid = value_error []

abbrev pub out_of_range : Exc
out_of_range = overflow_error

-- The constructor's checks.
unfoldable pub check_datetime : DateTime → Result DateTime
unfolding days_in_month
check_datetime t =
    if leb 1 t.date.year
      && leb t.date.year 9999
      && (leb 1 t.date.month && leb t.date.month 12)
      && (leb 1 t.date.day && leb t.date.day (days_in_month t.date.year t.date.month))
      && (ltb t.hour 24 && ltb t.minute 60)
      && (ltb t.second 60 && ltb t.micros 1000000)
    then ok t
    else raised invalid

-- The time of day, in microseconds.
unfoldable pub time_of_day : DateTime → ℕ
time_of_day t = ((t.hour * 60 + t.minute) * 60 + t.second) * 1000000 + t.micros

-- The UTC datetime at a time of some day.
unfoldable pub at_time : Date → ℕ → DateTime
at_time d n = record {
  date = d;
  hour = n / 3600000000;
  minute = n / 60000000 % 60;
  second = n / 1000000 % 60;
  micros = n % 1000000;
  offset = some (pos 0);
}

abbrev pub on_day : Option Date → ℕ → Result DateTime
on_day none n = raised out_of_range
on_day (some d) n = ok (at_time d n)

-- `t.astimezone(timezone.utc)` of an aware datetime with this offset, which is less than a day.
unfoldable pub to_utc : DateTime → ℤ → Result DateTime
to_utc t offset =
    let later = time_of_day t + neg_part offset in
    let sooner = pos_part offset in
    if ltb later sooner
    then on_day (previous_day t.date) (later + day_micros - sooner)
    else if ltb (later - sooner) day_micros
    then ok (at_time t.date (later - sooner))
    else on_day (next_day t.date) (later - sooner - day_micros)
