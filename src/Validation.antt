-- ===== src/Validation.antt =====
-- plugshub_common/validation.py: request bodies and typed models. The parameters are `decode`, UTF-8
-- with replacement characters; `loads`, `json.loads`; `to_text`, `str`; and what pydantic does.
pub mod Edge
mod Tests
use plugshub_common.Common.{
  ℕ, zero, suc, ◌+◌, ◌-◌, ◌*◌, ◌^◌, ◌≤◌, ◌<◌, String, ◌≡◌, refl, sym, ap, ◌∙◌, subst, ◌≢◌, ◌↔◌, ◌⊎◌,
  inl, inr, Bool, true, false, not, ◌&&◌, ◌||◌, Option, none, some, List, [], ◌∷◌, ◌++◌, map,
  append_assoc, append-nil, arith, ltb, leb, ◌==◌, if◌then◌else◌, ==_iff, Bool-cases, Option-cases,
  is_some, or_else, length, replicate, take, drop, all, any, length-append, length-take_le,
  take_all, All, All-append,
}
use plugshub_common.Text.{Text, codes, text_eq}
use plugshub_common.Value.{
  Value, null, bool, int, str, list, dict, object, Fields, end, field, get_field, set_field,
}
use plugshub_common.Errors.{
  Exc, plugs_hub_error, make_error, invalid_body, validation_failed, value_error, type_error,
  runtime_error,
}
use plugshub_common.Exec.{Result, ok, raised}

-- A request body: bytes (`bytes` or `bytearray`), or another object, a text among them.
pub data Body : Type 0 where
  bytes : List ℕ → Body
  value : Value → Body

abbrev pub bad_body : Text → Exc
bad_body message = plugs_hub_error (make_error invalid_body (some message) none none none)

-- `except (ValueError, TypeError)`
abbrev pub not_json : Result Value → Result Value
not_json (ok v) = ok v
not_json (raised (value_error m)) = raised (bad_body (codes "request body is not valid JSON"))
not_json (raised (type_error m)) = raised (bad_body (codes "request body is not valid JSON"))
not_json (raised e) = raised e

abbrev pub empty_body : Exc
empty_body = bad_body (codes "request body is empty")

module _ (decode : List ℕ → Text) (loads : Value → Result Value) where
  unfoldable pub parse_json_body : Body → Result Value
  parse_json_body (bytes []) = raised empty_body
  parse_json_body (bytes (c ∷ b)) = not_json (loads (str (decode (c ∷ b))))
  parse_json_body (value null) = raised empty_body
  parse_json_body (value (str [])) = raised empty_body
  parse_json_body (value (dict d)) = ok (dict d)
  parse_json_body (value (list l)) = ok (list l)
  parse_json_body (value v) = not_json (loads v)

-- One entry of pydantic's `errors()`: the path and the message, where they are there.
pub record FieldError : Type 0 where
  pub loc : Option (List Value)
  pub msg : Option Value

-- `".".join(parts)`
unfoldable pub join_dots : List Text → Text
join_dots [] = []
join_dots (t ∷ []) = t
join_dots (t ∷ s ∷ ts) = t ++ b'.' ∷ join_dots (s ∷ ts)

abbrev pub or_root : Text → Text
or_root [] = codes "__root__"
or_root (c ∷ t) = c ∷ t

module _ (to_text : Value → Text) where
  unfoldable pub field_path : FieldError → Text
  unfolding join_dots
  field_path e = or_root (join_dots (map to_text (or_else e.loc [])))

  abbrev pub message_of : FieldError → Value
  message_of e = or_else e.msg (str (codes "invalid"))

  -- `details` after the loop
  unfoldable pub add_errors : List FieldError → Fields → Fields
  unfolding field_path set_field
  add_errors [] details = details
  add_errors (e ∷ es) details = add_errors es (set_field (field_path e) (message_of e) details)

  -- `none` is an exception without a method `errors`.
  unfoldable pub field_errors : Option (List FieldError) → Fields
  unfolding add_errors
  field_errors none = end
  field_errors (some es) = add_errors es end

  abbrev pub not_valid : Option (List FieldError) → Exc
  not_valid es = plugs_hub_error (
      make_error validation_failed (some (codes "input validation failed")) none none
        (some (field_errors es)))

-- What the model's validator does: a model, pydantic's `ValidationError`, or another exception.
pub data Verdict (M : Type 0) : Type 0 where
  valid : M → Verdict M
  invalid : Option (List FieldError) → Verdict M
  failed : Exc → Verdict M

module _ {M : Type 0} (to_text : Value → Text) where
  abbrev pub settle : Verdict M → Result M
  settle (valid m) = ok m
  settle (invalid es) = raised (not_valid to_text es)
  settle (failed e) = raised e

  abbrev pub validate_data : (Fields → Verdict M) → Value → Result M
  validate_data validator (dict d) = settle (validator d)
  validate_data validator _ = raised (bad_body (codes "request body must be a JSON object"))

  -- `installed`: pydantic can be imported; `is_model`: `model_cls` is a subclass of `BaseModel`.
  unfoldable pub validate_model : Bool → Bool → (Fields → Verdict M) → Value → Result M
  validate_model installed is_model validator data_in =
      if not installed
      then raised (
          runtime_error (
            codes
              "pydantic is required for plugshub_common.validation; install plugshub-common[config]"))
      else if not is_model
      then raised (type_error (codes "model_cls MUST be a pydantic BaseModel subclass"))
      else validate_data validator data_in
