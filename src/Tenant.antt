-- ===== src/Tenant.antt =====
-- plugshub_common/tenant.py: the tenant-id validator. Its log lines are not modelled.
pub mod Charset
pub mod Layers
pub mod Newline
mod Tests
use plugshub_common.Common.{
  ℕ, zero, suc, ◌+◌, ◌-◌, ◌*◌, ◌^◌, ◌≤◌, ◌<◌, String, ◌≡◌, refl, sym, ap, ◌∙◌, subst, ◌≢◌, ◌↔◌, ◌⊎◌,
  inl, inr, Bool, true, false, not, ◌&&◌, ◌||◌, Option, none, some, List, [], ◌∷◌, ◌++◌, map,
  append_assoc, append-nil, arith, ltb, leb, ◌==◌, if◌then◌else◌, ==_iff, Bool-cases, Option-cases,
  is_some, or_else, length, replicate, take, drop, all, any, length-append, length-take_le,
  take_all, All, All-append,
}
use plugshub_common.Text.{
  Text, codes, Unicode, upper, starts_with, has_infix, mem, is_empty, without_prefix,
  is_upper_ascii, is_lower_ascii, is_digit_ascii,
}
use plugshub_common.Errors.{Exc, value_error}
use plugshub_common.Exec.{Result, ok, raised}

abbrev pub prefix : Text
prefix = codes "tenant"

-- `[a-zA-Z0-9\-]`
abbrev pub is_name_char : ℕ → Bool
is_name_char c = is_lower_ascii c || is_upper_ascii c || is_digit_ascii c || (c == b'-')

-- `[a-f0-9]`, ignoring case
abbrev pub is_hex_char : ℕ → Bool
is_hex_char c = is_digit_ascii c || (leb b'a' c && leb c b'f') || (leb b'A' c && leb c b'F')

-- `$` without `re.MULTILINE`: the end of the text, or just before a newline that ends it.
unfoldable pub at_end : Text → Bool
at_end [] = true
at_end (c ∷ s) = (c == 10) && is_empty s

-- `[a-zA-Z0-9\-]*$`. The class holds no newline, so the longest run of it is the only one to try.
unfoldable pub names_to_end : Text → Bool
unfolding at_end
names_to_end [] = true
names_to_end (c ∷ s) = (is_name_char c && names_to_end s) || at_end (c ∷ s)

-- `[a-zA-Z0-9\-]+$`
unfoldable pub some_names_to_end : Text → Bool
unfolding names_to_end
some_names_to_end [] = false
some_names_to_end (c ∷ s) = is_name_char c && names_to_end s

-- `_PREFIXED_RE.match`
unfoldable pub prefixed_re : Text → Bool
unfolding some_names_to_end starts_with
prefixed_re s = starts_with s prefix && some_names_to_end (drop 6 s)

-- `[a-f0-9]{n}`: what is left of the text
unfoldable pub eat_hex : ℕ → Text → Option Text
eat_hex zero s = some s
eat_hex (suc n) [] = none
eat_hex (suc n) (c ∷ s) = let rest = eat_hex n s in if is_hex_char c then rest else none

unfoldable pub eat_dash : Text → Option Text
eat_dash [] = none
eat_dash (c ∷ s) = if c == b'-' then some s else none

-- Groups of hex digits joined by dashes, then the end.
unfoldable pub groups : List ℕ → Text → Bool
unfolding eat_hex eat_dash at_end
groups [] s = at_end s
groups (n ∷ []) s = elim (eat_hex n s) [ none ↦ false | some rest ↦ at_end rest ]
groups (n ∷ m ∷ ns) s = elim (eat_hex n s) [
  | none ↦ false
  | some rest ↦ elim (eat_dash rest) [ none ↦ false | some more ↦ groups (m ∷ ns) more ]
]

-- `_UUID_RE.match`
unfoldable pub uuid_re : Text → Bool
unfolding groups
uuid_re = groups (8 ∷ 4 ∷ 4 ∷ 4 ∷ 12 ∷ [])

-- `_DANGEROUS`
abbrev pub dangerous : List Text
dangerous =
    codes "`"
    ∷ codes "'"
    ∷ (34 ∷ [])
    ∷ codes ";"
    ∷ codes "--"
    ∷ codes "/*"
    ∷ codes "*/"
    ∷ codes "UNION"
    ∷ codes "SELECT"
    ∷ codes "DROP"
    ∷ codes "INSERT"
    ∷ codes "UPDATE"
    ∷ codes "DELETE"
    ∷ codes "WHERE"
    ∷ codes "FROM"
    ∷ codes "TABLE"
    ∷ codes "DATABASE"
    ∷ []

-- The loop over `_DANGEROUS`.
unfoldable pub is_dangerous : List Text → Text → Bool
unfolding has_infix
is_dangerous [] up = false
is_dangerous (p ∷ ps) up = has_infix p up || is_dangerous ps up

-- Layer 1; `none` is the window before the set is loaded.
unfoldable pub whitelisted : Text → Option (List Text) → Bool
unfolding mem without_prefix
whitelisted tenant_id none = true
whitelisted tenant_id (some tenants) =
    mem (without_prefix prefix tenant_id) tenants || mem tenant_id tenants

-- Layer 2
unfoldable pub well_formed : Text → Bool
unfolding prefixed_re uuid_re
well_formed tenant_id = prefixed_re tenant_id || uuid_re tenant_id

-- Layer 3
abbrev pub length_ok : Text → Bool
length_ok tenant_id = not (ltb (length tenant_id) 8 || ltb 60 (length tenant_id))

-- How a rejection is reported.
abbrev pub reject : Bool → Text → Result Bool
reject raise_on_invalid message =
    if raise_on_invalid then raised (value_error message) else ok false

module _ (u : Unicode) where
  unfoldable pub validate_tenant : Text → Option (List Text) → Bool → Result Bool
  validate_tenant tenant_id tenants raise_on_invalid =
      if is_empty tenant_id
      then reject raise_on_invalid (codes "tenant_id is required")
      else if not (whitelisted tenant_id tenants)
      then reject raise_on_invalid (codes "Invalid tenant_id: not in whitelist")
      else if not (well_formed tenant_id)
      then reject raise_on_invalid (codes "Invalid tenant_id format")
      else if not (length_ok tenant_id)
      then reject raise_on_invalid (codes "Invalid tenant_id length")
      else if is_dangerous dangerous (upper u tenant_id)
      then reject raise_on_invalid (codes "Invalid tenant_id: contains dangerous pattern")
      else ok true
