-- ===== src/Canonical/Time.antt =====
-- plugshub_common/canonical.py: instants as UTC datetimes and as RFC 3339 texts.
pub mod RoundTrip
pub mod Instant
use plugshub_common.Common.{
  ℕ, zero, suc, ◌+◌, ◌-◌, ◌*◌, ◌^◌, ◌≤◌, ◌<◌, String, ◌≡◌, refl, sym, ap, ◌∙◌, subst, ◌≢◌, ◌↔◌, ◌⊎◌,
  inl, inr, Bool, true, false, not, ◌&&◌, ◌||◌, Option, none, some, List, [], ◌∷◌, ◌++◌, map,
  append_assoc, append-nil, arith, ltb, leb, ◌==◌, if◌then◌else◌, ==_iff, Bool-cases, Option-cases,
  is_some, or_else, length, replicate, take, drop, all, any, length-append, length-take_le,
  take_all, All, All-append,
}
use plugshub_common.Text.{Text, codes, text_eq, is_empty}
use plugshub_common.Errors.{Exc, value_error}
use plugshub_common.Exec.{Result, ok, raised, try_then}
use plugshub_common.Canonical.DateTime.{DateTime, to_utc}
use plugshub_common.Canonical.Iso.{isoformat, fromisoformat}

-- `s.endswith(p)`
unfoldable pub ends_with : Text → Text → Bool
unfolding text_eq
ends_with s p = leb (length p) (length s) && text_eq (drop (length s - length p) s) p

-- `s[: -n]`, for n > 0
abbrev pub without_last : ℕ → Text → Text
without_last n s = take (length s - n) s

abbrev pub naive : Exc
naive = value_error (codes "naive datetime is forbidden; timestamps MUST be timezone-aware UTC")

unfoldable pub ensure_utc : DateTime → Result DateTime
unfolding to_utc
ensure_utc value = elim value.offset [ none ↦ raised naive | some z ↦ to_utc value z ]

-- The text of a UTC datetime, with `Z` for its offset.
abbrev pub with_z : Text → Text
with_z text = if ends_with text (codes "+00:00") then without_last 6 text ++ codes "Z" else text

-- `now` is `utc_now()`.
abbrev pub instant_or_now : DateTime → Option DateTime → Result DateTime
instant_or_now now none = ok now
instant_or_now now (some value) = ensure_utc value

unfoldable pub to_rfc3339 : DateTime → Option DateTime → Result Text
unfolding ensure_utc isoformat ends_with
to_rfc3339 now value = try_then (instant_or_now now value) (λ dt. ok (with_z (isoformat dt)))

abbrev pub normalized : Text → Text
normalized text = if ends_with text (codes "Z") then without_last 1 text ++ codes "+00:00" else text

unfoldable pub parse_rfc3339 : Text → Result DateTime
unfolding fromisoformat ensure_utc ends_with
parse_rfc3339 text =
    if is_empty text
    then raised (value_error (codes "timestamp is required"))
    else try_then (fromisoformat (normalized text)) ensure_utc
