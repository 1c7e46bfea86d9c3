-- ===== src/Canonical/Time/Instant.antt =====
-- A move to UTC keeps the instant (`ensure_utc`, plugshub_common/canonical.py).
use plugshub_common.Common.{
  ℕ, ◌+◌, ◌-◌, ◌*◌, ◌<◌, ◌≡◌, refl, sym, ap, subst, ◌⊎◌, inl, inr, Option, none, some, arith, ltb,
  Bool-cases,
}
use plugshub_common.Common.Int.{ℤ, pos, pos_part, neg_part}
use plugshub_common.Exec.{Result, ok, raised}
use plugshub_common.Canonical.Calendar.{
  Date, IsDate, day_number, next_day, previous_day, next_day-IsDate, previous_day-IsDate,
  next_day-none, previous_day-none,
}
use plugshub_common.Canonical.DateTime.{
  DateTime, day_micros, time_of_day, at_time, on_day, to_utc, out_of_range,
}
use plugshub_common.Canonical.Time.{naive, ensure_utc}

-- The fields of a datetime that the constructor accepts; a UTC datetime is one with offset 0.
pub record IsDateTime (t : DateTime) : Type 0 where
  pub date_ok : IsDate t.date
  pub hour_in : t.hour < 24
  pub minute_in : t.minute < 60
  pub second_in : t.second < 60
  pub micros_in : t.micros < 1000000

abbrev pub IsUtc : DateTime → Type 0
IsUtc t = t.offset ≡ some (pos 0)

at_time_of_day : (t : DateTime) → IsDateTime t → IsUtc t → at_time t.date (time_of_day t) ≡ t
unfolding at_time time_of_day
at_time_of_day t v utc = ground (arith, utc)

time_of_day_lt : (t : DateTime) → IsDateTime t → time_of_day t < day_micros
unfolding time_of_day
time_of_day_lt t v = omega (arith, v.hour_in, v.minute_in, v.second_in, v.micros_in)

time_of_day-at_time : (d : Date) (n : ℕ) → n < day_micros → time_of_day (at_time d n) ≡ n
unfolding at_time time_of_day
time_of_day-at_time d n h = omega arith

at_time-IsDateTime :
    (d : Date) (n : ℕ) → IsDate d → n < day_micros → IsDateTime (at_time d n) × IsUtc (at_time d n)
unfolding at_time
at_time-IsDateTime d n v h = (
  record {
    date_ok = v;
    hour_in = omega arith;
    minute_in = omega arith;
    second_in = omega arith;
    micros_in = omega arith;
  },
  refl,
)

-- An aware datetime, whose offset is less than a day.
pub record IsAware (t : DateTime) (offset : ℤ) : Type 0 where
  pub fields_ok : IsDateTime t
  pub has_offset : t.offset ≡ some offset
  pub offset_in : pos_part offset + neg_part offset < day_micros

-- Microseconds on the local clock, from the same origin for every datetime.
unfoldable pub local_micros : DateTime → ℕ
local_micros t = day_number t.date * day_micros + time_of_day t

-- A UTC datetime at the instant of `t`.
abbrev pub SameInstant : DateTime → ℤ → DateTime → Type 0
SameInstant t z u =
    IsDateTime u × IsUtc u × (local_micros u + pos_part z ≡ local_micros t + neg_part z)

local_micros-at_time :
    (d : Date) (n : ℕ) → n < day_micros → local_micros (at_time d n) ≡ day_number d * day_micros + n
unfolding local_micros at_time
local_micros-at_time d n h = ap (λ m. day_number d * day_micros + m) (time_of_day-at_time d n h)

-- A move to UTC gives a datetime at the same instant, or fails in the first or the last year.
abbrev pub Moved : DateTime → ℤ → Result DateTime → Type 0
Moved t z r =
    ((u : DateTime) × (r ≡ ok u) × SameInstant t z u)
    ⊎ ((r ≡ raised out_of_range) × ((t.date.year ≡ 1) ⊎ (t.date.year ≡ 9999)))

at_time-Moved :
    (t : DateTime) (z : ℤ) (d : Date) (n : ℕ)
    → IsDate d
    → n < day_micros
    → day_number d * day_micros + n + pos_part z ≡ local_micros t + neg_part z
    → Moved t z (ok (at_time d n))
at_time-Moved t z d n v h e =
    let (fields, utc) = at_time-IsDateTime d n v h in
    inl (at_time d n, refl, (fields, utc, omega (arith, e, local_micros-at_time d n h)))

on_day-Moved :
    (t : DateTime) (z : ℤ) (o : Option Date) (n : ℕ)
    → n < day_micros
    → ((d : Date)
        → o ≡ some d
        → IsDate d × (day_number d * day_micros + n + pos_part z ≡ local_micros t + neg_part z))
    → (o ≡ none → (t.date.year ≡ 1) ⊎ (t.date.year ≡ 9999))
    → Moved t z (on_day o n)
on_day-Moved t z none n h found ends = inr (refl, ends refl)
on_day-Moved t z (some d) n h found ends = let (v, e) = found d refl in at_time-Moved t z d n v h e

local_micros_lem : (t : DateTime) → local_micros t ≡ day_number t.date * day_micros + time_of_day t
unfolding local_micros
local_micros_lem t = refl

to_utc-Moved : (t : DateTime) (z : ℤ) → IsAware t z → Moved t z (to_utc t z)
unfolding to_utc
to_utc-Moved t z v =
    let date = v.fields_ok.date_ok in
    let local = local_micros_lem t in
    let tod_in = time_of_day_lt t v.fields_ok in
    let later = time_of_day t + neg_part z in
    elim (Bool-cases (ltb later (pos_part z))) [
      | inl before ↦ rw before (
          on_day-Moved t z (previous_day t.date) (later + day_micros - pos_part z)
            (ground (arith, before, v.offset_in))
            (λ d f.
              let (w, e) = previous_day-IsDate t.date d date f in
              (w, ground (arith, before, e, local, v.offset_in)))
            (λ f. inl (previous_day-none t.date date f)))
      | inr not_before ↦ elim (Bool-cases (ltb (later - pos_part z) day_micros)) [
        | inl same ↦
            rw (not_before, same)
              (at_time-Moved t z t.date (later - pos_part z) date (ground (arith, same))
                (ground (arith, not_before, local)))
        | inr after ↦
            rw (not_before, after)
              (on_day-Moved t z (next_day t.date) (later - pos_part z - day_micros)
                (ground (arith, tod_in, v.offset_in))
                (λ d f.
                  let (w, e) = next_day-IsDate t.date d date f in
                  (w, ground (arith, not_before, after, e, local)))
                (λ f. inr (next_day-none t.date date f)))
      ]
    ]

-- An aware datetime whose fields and offset are in range moves to UTC: to a datetime whose fields
-- are in range, at the same instant, unless that lies before year 1 or after year 9999; then it is
-- an `OverflowError`.
pub ensure_utc_instant : (t : DateTime) (z : ℤ) → IsAware t z → Moved t z (ensure_utc t)
unfolding ensure_utc
ensure_utc_instant t z v =
    subst (λ o. Moved t z (elim o [ none ↦ raised naive | some z ↦ to_utc t z ])) (sym v.has_offset)
      (to_utc-Moved t z v)

-- A UTC datetime is its own move to UTC.
pub ensure_utc_self : (t : DateTime) → IsDateTime t → IsUtc t → ensure_utc t ≡ ok t
unfolding ensure_utc to_utc
ensure_utc_self t v utc =
    subst (λ o. elim o [ none ↦ raised naive | some z ↦ to_utc t z ] ≡ ok t) (sym utc)
      (ground (arith, time_of_day_lt t v, at_time_of_day t v utc))

-- What a move to UTC gives, where it gives a datetime.
pub ensure_utc-IsDateTime :
    (t : DateTime) (z : ℤ) (u : DateTime)
    → Moved t z (ensure_utc t)
    → ensure_utc t ≡ ok u
    → IsDateTime u × IsUtc u
ensure_utc-IsDateTime t z u (inl (w, r, (fields, utc, e))) h =
    let same : w ≡ u = cc in subst (λ x. IsDateTime x × IsUtc x) same (fields, utc)
ensure_utc-IsDateTime t z u (inr (r, ends)) h = ground (arith, r, h)
