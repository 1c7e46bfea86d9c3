-- ===== src/Canonical/Time/RoundTrip.antt =====
-- What is written as RFC 3339 is read back (plugshub_common/canonical.py).
use Prim.Native.Nat.{◌/◌, ◌%◌}
use plugshub_common.Common.{
  ℕ, ◌+◌, ◌-◌, ◌<◌, ◌≡◌, refl, sym, ap, ◌∙◌, Bool, true, false, ◌||◌, some, [], ◌∷◌, ◌++◌, arith,
  ◌==◌, length, take, drop, any, length-append,
}
use plugshub_common.Common.Int.{ℤ, pos}
use plugshub_common.Text.{Text, codes}
use plugshub_common.Text.Laws.{text_eq_iff, drop-append, take-append, length-append_sub}
use plugshub_common.Exec.{ok, try_then}
use plugshub_common.Canonical.Calendar.{days_in_month_range}
use plugshub_common.Canonical.DateTime.{DateTime, check_datetime}
use plugshub_common.Canonical.Iso.{
  isoformat, fromisoformat, fraction, read2, read3, read4, read_fraction, read_clock, split_zone,
  read_zone, read_time, read_parts, assemble, Clock, date_text, time_text, offset_text,
}
use plugshub_common.Canonical.Time.Instant.{
  IsDateTime, IsUtc, IsAware, ensure_utc_instant, ensure_utc_self, ensure_utc-IsDateTime,
}
use plugshub_common.Canonical.Time.{
  ends_with, without_last, ensure_utc, with_z, to_rfc3339, normalized, parse_rfc3339,
}

read2-digits2 : (n : ℕ) → n < 100 → read2 (b'0' + n / 10) (b'0' + n % 10) ≡ some n
unfolding read2
read2-digits2 n h = ground arith

read4-digits4 :
    (n : ℕ)
    → n < 10000
    → read4 (b'0' + n / 100 / 10) (b'0' + n / 100 % 10) (b'0' + n % 100 / 10) (b'0' + n % 100 % 10)
      ≡ some n
unfolding read4
read4-digits4 n h = ground (arith, read2-digits2 (n / 100), read2-digits2 (n % 100))

read3-digits3 :
    (n : ℕ) → n < 1000 → read3 (b'0' + n / 100) (b'0' + n % 100 / 10) (b'0' + n % 100 % 10) ≡ some n
unfolding read3
read3-digits3 n h = ground (arith, read2-digits2 (n % 100))

read_fraction-fraction : (n : ℕ) → n < 1000000 → read_fraction (fraction n) ≡ some n
unfolding read_fraction
read_fraction-fraction n h = ground (arith, read3-digits3 (n / 1000), read3-digits3 (n % 1000))

abbrev pub clock_of : DateTime → Clock
clock_of t = record { hours = t.hour; minutes = t.minute; seconds = t.second; micros = t.micros }

read_clock-time_text : (t : DateTime) → IsDateTime t → read_clock (time_text t) ≡ some (clock_of t)
unfolding read_clock
read_clock-time_text t v = ground (
  arith,
  read2-digits2 t.hour,
  read2-digits2 t.minute,
  read2-digits2 t.second,
  read_fraction-fraction t.micros,
)

abbrev is_sign : ℕ → Bool
is_sign c = (c == b'+') || (c == b'-')

split_zone-append :
    (s : Text) (c : ℕ) (t : Text)
    → any is_sign s ≡ false
    → is_sign c ≡ true
    → split_zone (s ++ c ∷ t) ≡ (s, c ∷ t)
unfolding split_zone
split_zone-append [] c t plain sign = ground arith
split_zone-append (d ∷ s) c t plain sign = ground (arith, split_zone-append s c t)

fraction_plain : (n : ℕ) → any is_sign (fraction n) ≡ false
fraction_plain n = ground arith

time_text_plain : (t : DateTime) → any is_sign (time_text t) ≡ false
time_text_plain t = ground (arith, fraction_plain t.micros)

abbrev utc_text : Text
utc_text = codes "+00:00"

read_zone-utc_text : read_zone utc_text ≡ some (some (pos 0))
unfolding read_zone read_clock read2
read_zone-utc_text = refl

read_time-time_text :
    (t : DateTime)
    → IsDateTime t
    → read_time (b'T' ∷ time_text t ++ utc_text) ≡ (some (clock_of t), some (some (pos 0)))
unfolding read_time
read_time-time_text t v =
    ap read_parts
      (split_zone-append (time_text t) b'+' (codes "00:00") (time_text_plain t) (ground arith))
    ∙ rw (read_clock-time_text t v, read_zone-utc_text)

check_datetime-IsDateTime : (t : DateTime) → IsDateTime t → check_datetime t ≡ ok t
unfolding check_datetime
check_datetime-IsDateTime t v = ground (arith, v.date_ok)

abbrev utc_iso : DateTime → Text
utc_iso t = date_text t.date ++ b'T' ∷ time_text t ++ utc_text

read_utc_iso :
    (t : DateTime)
    → IsDateTime t
    → fromisoformat (utc_iso t) ≡ check_datetime (record t { offset = some (pos 0) })
unfolding fromisoformat
read_utc_iso t v =
    let year = read4-digits4 t.date.year (omega (arith, v.date_ok.year_in)) in
    let month = read2-digits2 t.date.month (omega (arith, v.date_ok.month_in)) in
    let day =
      read2-digits2 t.date.day
        (omega (arith, v.date_ok.day_in, days_in_month_range t.date.year t.date.month)) in
    rw (year, month, day)
      (ap (λ r. assemble (some t.date.year) (some t.date.month) (some t.date.day) r.0 r.1)
        (read_time-time_text t v))

isoformat-utc : (t : DateTime) → IsUtc t → isoformat t ≡ utc_iso t
unfolding isoformat
isoformat-utc t utc = ap (λ z. date_text t.date ++ b'T' ∷ time_text t ++ offset_text z) utc

-- `fromisoformat` reads back what `isoformat` writes.
fromisoformat-utc_iso : (t : DateTime) → IsDateTime t → IsUtc t → fromisoformat (utc_iso t) ≡ ok t
fromisoformat-utc_iso t v utc =
    read_utc_iso t v
    ∙ ap (λ z. check_datetime (record t { offset = z })) (sym utc)
    ∙ check_datetime-IsDateTime t v

ends_with-append : (s p : Text) → ends_with (s ++ p) p ≡ true
unfolding ends_with
ends_with-append s p =
    let last : drop (length (s ++ p) - length p) (s ++ p) ≡ p =
      ap (λ n. drop n (s ++ p)) (length-append_sub s p) ∙ drop-append s p in
    ground (arith, length-append s p, last, text_eq_iff p p)

without_last-append : (s p : Text) → without_last (length p) (s ++ p) ≡ s
without_last-append s p = ap (λ n. take n (s ++ p)) (length-append_sub s p) ∙ take-append s p

with_z-append : (s : Text) → with_z (s ++ utc_text) ≡ s ++ codes "Z"
with_z-append s =
    rw (ends_with-append s utc_text) (ap (λ l. l ++ codes "Z") (without_last-append s utc_text))

normalized-append : (s : Text) → normalized (s ++ codes "Z") ≡ s ++ utc_text
normalized-append s =
    rw (ends_with-append s (codes "Z"))
      (ap (λ l. l ++ utc_text) (without_last-append s (codes "Z")))

abbrev body : DateTime → Text
body t = date_text t.date ++ b'T' ∷ time_text t

to_rfc3339-utc :
    (now t u : DateTime)
    → ensure_utc t ≡ ok u
    → IsUtc u
    → to_rfc3339 now (some t) ≡ ok (body u ++ codes "Z")
unfolding to_rfc3339
to_rfc3339-utc now t u h utc =
    rw h (ap (λ i. ok (with_z i)) (isoformat-utc u utc) ∙ ap ok (with_z-append (body u)))

parse_rfc3339-utc :
    (u : DateTime) → IsDateTime u → IsUtc u → parse_rfc3339 (body u ++ codes "Z") ≡ ok u
unfolding parse_rfc3339
parse_rfc3339-utc u v utc =
    ap (λ s. try_then (fromisoformat s) ensure_utc) (normalized-append (body u))
    ∙ ap (λ r. try_then r ensure_utc) (fromisoformat-utc_iso u v utc)
    ∙ ensure_utc_self u v utc

pub parse_rfc3339-now :
    (now : DateTime) → IsDateTime now → IsUtc now → parse_rfc3339 (with_z (isoformat now)) ≡ ok now
parse_rfc3339-now now v utc =
    ap (λ s. parse_rfc3339 (with_z s)) (isoformat-utc now utc)
    ∙ ap parse_rfc3339 (with_z-append (body now))
    ∙ parse_rfc3339-utc now v utc

-- The text that `to_rfc3339` gives for an aware datetime reads back as that datetime in UTC, to the
-- microsecond, whatever its offset, if its fields and offset are in range and its instant lies in
-- the years 1 to 9999.
pub parse_rfc3339-to_rfc3339 :
    (now t u : DateTime) (z : ℤ)
    → IsAware t z
    → ensure_utc t ≡ ok u
    → (text : Text) × (to_rfc3339 now (some t) ≡ ok text) × (parse_rfc3339 text ≡ ok u)
parse_rfc3339-to_rfc3339 now t u z v h =
    let (fields, utc) = ensure_utc-IsDateTime t z u (ensure_utc_instant t z v) h in
    (body u ++ codes "Z", to_rfc3339-utc now t u h utc, parse_rfc3339-utc u fields utc)
