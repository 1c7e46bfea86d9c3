-- ===== src/Canonical/Tests.antt =====
-- Runs of plugshub_common/canonical.py, and the theorems about it at concrete inputs.
use plugshub_common.Common.{◌≡◌, refl, ◌≢◌, ◌⊎◌, some, [], ◌∷◌, arith, ◌==◌, if◌then◌else◌}
use plugshub_common.Common.Int.{ℤ, pos, negsuc, ◌+ℤ◌}
use plugshub_common.Text.{Text, codes, Unicode, upper, is_alpha}
use plugshub_common.Value.{Value, int, str}
use plugshub_common.Exec.{Result, ok, raised}
use plugshub_common.Errors.{type_error}
use plugshub_common.Canonical.Calendar.{IsDate, days_in_month, previous_day}
use plugshub_common.Canonical.DateTime.{DateTime, check_datetime, time_of_day, at_time}
use plugshub_common.Canonical.Iso.{read4, read_time, read_clock, split_zone, read_zone}
use plugshub_common.Canonical.Time.{ensure_utc, to_rfc3339, parse_rfc3339}
use plugshub_common.Canonical.Time.Instant.{IsAware}
use plugshub_common.Canonical.Time.RoundTrip.{parse_rfc3339-to_rfc3339}
use plugshub_common.Canonical.Money.{
  Money, bad_currency, differ, make_money, add, subtract, to_dict, from_dict,
}
use plugshub_common.Canonical.Money.Wire.{IsStored, from_dict-to_dict, subtract-add}

-- 2 p.m. in Berlin, in the summer of 2026, and the same instant in UTC.
abbrev berlin : DateTime
berlin = record {
  date = record { year = 2026; month = 7; day = 6 };
  hour = 14;
  minute = 0;
  second = 0;
  micros = 500000;
  offset = some (pos 7200000000);
}

abbrev noon : DateTime
noon = record berlin { hour = 12; offset = some (pos 0) }

to_rfc3339-berlin : to_rfc3339 noon (some berlin) ≡ ok (codes "2026-07-06T12:00:00.500000Z")
unfolding to_rfc3339 time_of_day at_time
to_rfc3339-berlin = refl

parse_rfc3339_leap :
    (t : DateTime) × (parse_rfc3339 (codes "2024-03-01T00:30:00+01:00") ≡ ok t)
    × (to_rfc3339 noon (some t) ≡ ok (codes "2024-02-29T23:30:00Z"))
unfolding parse_rfc3339 to_rfc3339 read4 read_time read_clock split_zone read_zone check_datetime
    time_of_day previous_day at_time
parse_rfc3339_leap = (_, refl, refl)

july : IsDate berlin.date
unfolding days_in_month
july = record { year_in = omega arith; month_in = omega arith; day_in = omega arith }

berlin-IsAware : IsAware berlin (pos 7200000000)
berlin-IsAware = record {
  fields_ok = record {
    date_ok = july;
    hour_in = omega arith;
    minute_in = omega arith;
    second_in = omega arith;
    micros_in = omega arith;
  };
  has_offset = refl;
  offset_in = omega arith;
}

ensure_utc-berlin : ensure_utc berlin ≡ ok noon
unfolding ensure_utc time_of_day at_time
ensure_utc-berlin = refl

parse_rfc3339-to_rfc3339_example :
    (text : Text) × (to_rfc3339 noon (some berlin) ≡ ok text) × (parse_rfc3339 text ≡ ok noon)
parse_rfc3339-to_rfc3339_example =
    parse_rfc3339-to_rfc3339 noon berlin noon (pos 7200000000) berlin-IsAware ensure_utc-berlin

-- The part of Python's tables that the tests need: "ß" is a letter, "SS" in capitals.
abbrev unicode : Unicode
unicode = record {
  upper_other = λ c. if c == 223 then codes "SS" else c ∷ [];
  lower_other = λ c. c ∷ [];
  is_alpha_other = λ c. c == 223;
}

abbrev to_int : Value → Result ℤ
to_int (int n) = ok n
to_int _ = raised (type_error [])

abbrev to_text : Value → Text
to_text (str t) = t
to_text _ = []

abbrev euros : ℤ → Money
euros n = record { minor_units = n; currency = codes "EUR" }

euros-IsStored : (n : ℤ) → IsStored unicode (euros n)
unfolding upper is_alpha
euros-IsStored n = record { three = refl; letters = refl; in_capitals = refl }

make_money-euros : make_money unicode (int (pos 5)) (str (codes "eur")) ≡ ok (euros (pos 5))
unfolding make_money is_alpha upper
make_money-euros = refl

from_dict-to_dict_example :
    from_dict unicode to_int to_text (to_dict unicode (euros (pos 5))) ≡ ok (euros (pos 5))
from_dict-to_dict_example =
    from_dict-to_dict unicode to_int to_text (λ n. refl) (λ t. refl) (int (pos 5)) (codes "eur")
      (euros (pos 5)) (omega arith, (omega arith, (omega arith, tt))) make_money-euros

subtract-add_example :
    ((s : Money) × (add unicode (euros (pos 5)) (euros (negsuc 6)) ≡ ok s)
      × (s.minor_units ≡ pos 5 +ℤ negsuc 6)
      × (subtract unicode s (euros (negsuc 6)) ≡ ok (euros (pos 5)))
      × (codes "EUR" ≡ codes "EUR"))
    ⊎ ((add unicode (euros (pos 5)) (euros (negsuc 6))
          ≡ raised (differ (codes "EUR") (codes "EUR")))
        × (codes "EUR" ≢ codes "EUR"))
subtract-add_example =
    subtract-add unicode (euros (pos 5)) (euros (negsuc 6)) (euros-IsStored (pos 5))

abbrev sharp_s : Text
sharp_s = 223 ∷ 223 ∷ 223 ∷ []

-- It makes an amount that is refused as soon as it is added.
sharp_s_refused :
    (m : Money) × (make_money unicode (int (pos 1)) (str sharp_s) ≡ ok m)
    × (add unicode m m ≡ raised bad_currency)
unfolding make_money add is_alpha upper
sharp_s_refused = (record { minor_units = pos 1; currency = codes "SSSSSS" }, refl, refl)
