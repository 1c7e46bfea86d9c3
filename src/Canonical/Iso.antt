-- ===== src/Canonical/Iso.antt =====
-- The ISO 8601 texts of Python's `datetime`, which plugshub_common/canonical.py writes and reads:
-- `isoformat`, and `fromisoformat` with the grammar that Python 3.9, the oldest version the package
-- supports, documents.
use Prim.Native.Nat.{◌/◌, ◌%◌}
use plugshub_common.Common.{
  ℕ, zero, suc, ◌+◌, ◌-◌, ◌*◌, ◌&&◌, ◌||◌, Option, none, some, [], ◌∷◌, ◌++◌, ltb, ◌==◌,
  if◌then◌else◌, length,
}
use plugshub_common.Common.Int.{ℤ, pos, negsuc, pos_part, neg_part}
use plugshub_common.Text.{Text, is_digit_ascii}
use plugshub_common.Exec.{Result, raised}
use plugshub_common.Canonical.Calendar.{Date}
use plugshub_common.Canonical.DateTime.{DateTime, day_micros, invalid, check_datetime}

-- `"%02d" % n`, for numbers of at most two digits, and so on.
abbrev pub digits2 : ℕ → Text
digits2 n = (b'0' + n / 10) ∷ (b'0' + n % 10) ∷ []

abbrev pub digits3 : ℕ → Text
digits3 n = (b'0' + n / 100) ∷ digits2 (n % 100)

abbrev pub digits4 : ℕ → Text
digits4 n = digits2 (n / 100) ++ digits2 (n % 100)

abbrev pub digits6 : ℕ → Text
digits6 n = digits3 (n / 1000) ++ digits3 (n % 1000)

abbrev pub fraction : ℕ → Text
fraction n = if n == 0 then [] else b'.' ∷ digits6 n

abbrev pub sign_of : ℤ → ℕ
sign_of (pos n) = b'+'
sign_of (negsuc n) = b'-'

-- `+HH:MM`, with the seconds and microseconds where there are any.
abbrev pub offset_text : Option ℤ → Text
offset_text none = []
offset_text (some z) =
    let n = pos_part z + neg_part z in
    let s = n / 1000000 in
    sign_of z ∷ digits2 (s / 3600)
    ++ b':' ∷ digits2 (s / 60 % 60)
    ++ (if n % 60000000 == 0 then [] else b':' ∷ digits2 (s % 60) ++ fraction (n % 1000000))

abbrev pub date_text : Date → Text
date_text d = digits4 d.year ++ b'-' ∷ digits2 d.month ++ b'-' ∷ digits2 d.day

abbrev pub time_text : DateTime → Text
time_text t =
    digits2 t.hour ++ b':' ∷ digits2 t.minute ++ b':' ∷ digits2 t.second ++ fraction t.micros

-- `t.isoformat()`
unfoldable pub isoformat : DateTime → Text
isoformat t = date_text t.date ++ b'T' ∷ time_text t ++ offset_text t.offset

-- A digit, and numbers of two, three and four digits.
abbrev pub read_digit : ℕ → Option ℕ
read_digit c = if is_digit_ascii c then some (c - b'0') else none

abbrev pub shift_in : ℕ → Option ℕ → Option ℕ → Option ℕ
shift_in scale none b = none
shift_in scale (some x) none = none
shift_in scale (some x) (some y) = some (x * scale + y)

unfoldable pub read2 : ℕ → ℕ → Option ℕ
read2 a b = shift_in 10 (read_digit a) (read_digit b)

unfoldable pub read3 : ℕ → ℕ → ℕ → Option ℕ
unfolding read2
read3 a b c = shift_in 100 (read_digit a) (read2 b c)

unfoldable pub read4 : ℕ → ℕ → ℕ → ℕ → Option ℕ
unfolding read2
read4 a b c d = shift_in 100 (read2 a b) (read2 c d)

-- `.fff` or `.ffffff`, or nothing.
unfoldable pub read_fraction : Text → Option ℕ
unfolding read3
read_fraction [] = some 0
read_fraction (p ∷ a ∷ b ∷ c ∷ []) =
    if p == b'.' then shift_in 1000 (read3 a b c) (some 0) else none
read_fraction (p ∷ a ∷ b ∷ c ∷ d ∷ e ∷ f ∷ []) =
    if p == b'.' then shift_in 1000 (read3 a b c) (read3 d e f) else none
read_fraction _ = none

-- Hours, minutes, seconds and microseconds.
pub record Clock : Type 0 where
  pub hours : ℕ
  pub minutes : ℕ
  pub seconds : ℕ
  pub micros : ℕ

abbrev pub clock : Option ℕ → Option ℕ → Option ℕ → Option ℕ → Option Clock
clock (some h) (some m) (some s) (some f) =
    some (record { hours = h; minutes = m; seconds = s; micros = f })
clock _ _ _ _ = none

-- `HH[:MM[:SS[.fff[fff]]]]`
unfoldable pub read_clock : Text → Option Clock
unfolding read2 read_fraction
read_clock (a ∷ b ∷ []) = clock (read2 a b) (some 0) (some 0) (some 0)
read_clock (a ∷ b ∷ p ∷ c ∷ d ∷ []) =
    if p == b':' then clock (read2 a b) (read2 c d) (some 0) (some 0) else none
read_clock (a ∷ b ∷ p ∷ c ∷ d ∷ q ∷ e ∷ f ∷ rest) =
    if (p == b':') && (q == b':')
    then clock (read2 a b) (read2 c d) (read2 e f) (read_fraction rest)
    else none
read_clock _ = none

-- The text before the first sign, and the sign with what follows it.
unfoldable pub split_zone : Text → Text × Text
split_zone [] = ([], [])
split_zone (c ∷ t) =
    let (before, zone) = split_zone t in
    if (c == b'+') || (c == b'-') then ([], c ∷ t) else (c ∷ before, zone)

abbrev pub signed : ℕ → ℕ → ℤ
signed sign zero = pos 0
signed sign (suc n) = if sign == b'-' then negsuc n else pos (suc n)

abbrev pub clock_micros : Clock → ℕ
clock_micros c = ((c.hours * 60 + c.minutes) * 60 + c.seconds) * 1000000 + c.micros

-- `+HH:MM[:SS[.ffffff]]`; `none` is an error, `some none` a naive time.
abbrev pub zone_of : ℕ → Option Clock → Option (Option ℤ)
zone_of sign none = none
zone_of sign (some c) =
    if ltb (clock_micros c) day_micros then some (some (signed sign (clock_micros c))) else none

unfoldable pub read_zone : Text → Option (Option ℤ)
unfolding read_clock
read_zone [] = some none
read_zone (sign ∷ t) =
    let n = length t in
    if (n == 5) || (n == 8) || (n == 15) then zone_of sign (read_clock t) else none

abbrev pub assemble :
    Option ℕ → Option ℕ → Option ℕ → Option Clock → Option (Option ℤ) → Result DateTime
assemble (some y) (some m) (some d) (some c) (some z) = check_datetime (record {
  date = record { year = y; month = m; day = d };
  hour = c.hours;
  minute = c.minutes;
  second = c.seconds;
  micros = c.micros;
  offset = z;
})
assemble _ _ _ _ _ = raised invalid

abbrev pub midnight : Clock
midnight = record { hours = 0; minutes = 0; seconds = 0; micros = 0 }

abbrev pub read_parts : Text × Text → Option Clock × Option (Option ℤ)
read_parts (time, zone) = (read_clock time, read_zone zone)

-- What follows the date: nothing, or any one character and a time.
unfoldable pub read_time : Text → Option Clock × Option (Option ℤ)
read_time [] = (some midnight, some none)
read_time (separator ∷ t) = read_parts (split_zone t)

-- `datetime.fromisoformat(s)`
unfoldable pub fromisoformat : Text → Result DateTime
fromisoformat (y1 ∷ y2 ∷ y3 ∷ y4 ∷ p ∷ m1 ∷ m2 ∷ q ∷ d1 ∷ d2 ∷ rest) =
    let (time, zone) = read_time rest in
    if (p == b'-') && (q == b'-')
    then assemble (read4 y1 y2 y3 y4) (read2 m1 m2) (read2 d1 d2) time zone
    else raised invalid
fromisoformat _ = raised invalid
