-- ===== src/Logging.antt =====
-- plugshub_common/logging.py: the correlation context and the masking of sensitive values.
-- The handlers, the formatter's clock and `json.dumps` are the standard library's.
pub mod Masking
pub mod Format
mod Tests
use plugshub_common.Common.{
  ℕ, zero, suc, ◌+◌, ◌-◌, ◌*◌, ◌^◌, ◌≤◌, ◌<◌, String, ◌≡◌, refl, sym, ap, ◌∙◌, subst, ◌≢◌, ◌↔◌, ◌⊎◌,
  inl, inr, Bool, true, false, not, ◌&&◌, ◌||◌, Option, none, some, List, [], ◌∷◌, ◌++◌, map,
  append_assoc, append-nil, arith, ltb, leb, ◌==◌, if◌then◌else◌, ==_iff, Bool-cases, Option-cases,
  is_some, or_else, length, replicate, take, drop, all, any, length-append, length-take_le,
  take_all, All, All-append,
}
use plugshub_common.Text.{Text, codes, Unicode, lower, mem}
use plugshub_common.Value.{
  Value, null, bool, int, str, list, dict, object, Items, nil, cons, Fields, end, field, set_field,
}

-- The two context variables, `_request_id` and `_tenant_id`.
pub record LogContext : Type 0 where
  pub request_id : Option Text
  pub tenant_id : Option Text

abbrev pub keep_old : Option Text → Option Text → Option Text
keep_old none old = old
keep_old (some new) old = some new

abbrev pub current_request_id : LogContext → Option Text
current_request_id ctx = ctx.request_id

abbrev pub current_tenant_id : LogContext → Option Text
current_tenant_id ctx = ctx.tenant_id

unfoldable pub set_request_context : Option Text → Option Text → LogContext → LogContext
set_request_context request_id tenant_id ctx = record {
  request_id = keep_old request_id ctx.request_id;
  tenant_id = keep_old tenant_id ctx.tenant_id;
}

unfoldable pub clear_request_context : LogContext → LogContext
clear_request_context ctx = record { request_id = none; tenant_id = none }

abbrev pub sensitive_keys : List Text
sensitive_keys =
    codes "password"
    ∷ codes "passwd"
    ∷ codes "secret"
    ∷ codes "token"
    ∷ codes "access_token"
    ∷ codes "refresh_token"
    ∷ codes "authorization"
    ∷ codes "api_key"
    ∷ codes "apikey"
    ∷ codes "x-internal-service-token"
    ∷ codes "internal_service_token"
    ∷ codes "otp"
    ∷ codes "otp_code"
    ∷ codes "pin"
    ∷ codes "card"
    ∷ codes "card_number"
    ∷ codes "cvv"
    ∷ codes "phone"
    ∷ codes "phone_number"
    ∷ codes "email"
    ∷ codes "ssn"
    ∷ []

abbrev pub stars : Text
stars = codes "***"

-- `mask`, where `to_text` is `str`; `keep` is how many characters to reveal, and a negative one
-- reveals none, like zero.
unfoldable pub mask_text : Text → ℕ → Text
mask_text text keep =
    if (keep == 0) || leb (length text) keep then stars else stars ++ drop (length text - keep) text

unfoldable pub mask : (Value → Text) → Value → ℕ → Text
unfolding mask_text
mask to_text null keep = stars
mask to_text value keep = mask_text (to_text value) keep

module _ (u : Unicode) where
  -- `keys`: the fixed ones and the caller's in lower case.
  abbrev pub all_keys : Option (List Text) → List Text
  all_keys none = sensitive_keys
  all_keys (some extra) = sensitive_keys ++ map (lower u) extra

  abbrev pub is_sensitive : List Text → Text → Bool
  is_sensitive keys key = mem (lower u key) keys

  -- The loop of `mask_mapping`, for the keys of its first call, which every nested call computes
  -- anew from the same argument.
  unfoldable pub mask_fields : List Text → Fields → Fields → Fields
  unfolding set_field
  mask_fields keys end out = out
  mask_fields keys (field key (dict inner) rest) out =
      let masked = mask_fields keys inner end in
      let value = if is_sensitive keys key then str stars else dict masked in
      mask_fields keys rest (set_field key value out)
  mask_fields keys (field key value rest) out =
      mask_fields keys rest (set_field key (if is_sensitive keys key then str stars else value) out)

  unfoldable pub mask_mapping : Fields → Option (List Text) → Fields
  unfolding mask_fields
  mask_mapping source extra = mask_fields (all_keys extra) source end
