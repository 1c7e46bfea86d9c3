-- ===== src/Validation/Edge.antt =====
-- What a client's body can lead to (plugshub_common/validation.py).
use plugshub_common.Common.{
  ℕ, ◌≡◌, refl, ap, ◌∙◌, ◌≢◌, ◌⊎◌, Bool, true, false, Option, none, some, List, [], ◌∷◌, arith,
  if◌then◌else◌, later_or,
}
use plugshub_common.Text.{Text, text_eq}
use plugshub_common.Value.{Value, dict, Fields, end, get_field, set_field, get_field-set_field}
use plugshub_common.Errors.{Exc, value_error, type_error}
use plugshub_common.Exec.{Result, ok, raised, try_then}
use plugshub_common.Validation.{
  Body, bad_body, parse_json_body, FieldError, field_path, message_of, add_errors, field_errors,
  not_valid, Verdict, valid, invalid, failed, validate_model,
}

-- What `parse_json_body` turns into an error of the client: `ValueError` and `TypeError`.
abbrev pub is_json_error : Exc → Bool
is_json_error (value_error m) = true
is_json_error (type_error m) = true
is_json_error _ = false

module _ {M : Type 0} (decode : List ℕ → Text) (loads : Value → Result Value)
    (to_text : Value → Text) (validator : Fields → Verdict M) where
  -- `validate_model(model_cls, parse_json_body(raw))`, with pydantic at hand and a model class
  abbrev pub read_model : Body → Result M
  read_model raw =
      try_then (parse_json_body decode loads raw) (validate_model to_text true true validator)

  -- An exception that reaches the caller as it is: one of `json.loads` that is neither a `ValueError`
  -- nor a `TypeError`, or one of the validator that is not its `ValidationError`.
  abbrev pub PassedOn : Result Value → Exc → Type 0
  PassedOn parsed e =
      ((v : Value) × (loads v ≡ raised e) × (is_json_error e ≡ false) × (parsed ≡ raised e))
      ⊎ ((d : Fields) × (parsed ≡ ok (dict d)) × (validator d ≡ failed e))

  -- A model that the validator accepts; or 422 for an object that the validator refuses, with what it
  -- says of the fields; or 400 for a body that is no JSON object; or an exception that is passed on.
  abbrev pub Answered : Result Value → Result M → Type 0
  Answered parsed answer =
      ((d : Fields) × (m : M) × (parsed ≡ ok (dict d)) × (validator d ≡ valid m) × (answer ≡ ok m))
      ⊎ ((d : Fields) × (es : Option (List FieldError)) × (parsed ≡ ok (dict d))
          × (validator d ≡ invalid es)
          × (answer ≡ raised (not_valid to_text es)))
      ⊎ ((message : Text) × (answer ≡ raised (bad_body message))
          × ((d : Fields) → parsed ≢ ok (dict d)))
      ⊎ ((e : Exc) × (answer ≡ raised e) × PassedOn parsed e)

  -- What reading a body gives: a value, an error of the client, or an exception of `json.loads`.
  abbrev Read : Result Value → Type 0
  Read r =
      ((v : Value) × (r ≡ ok v))
      ⊎ ((m : Text) × (r ≡ raised (bad_body m)))
      ⊎ ((e : Exc) × (v : Value) × (loads v ≡ raised e)
          × (is_json_error e ≡ false)
          × (r ≡ raised e))

module _ (to_text : Value → Text) where
  later_or-none : (v : Option Value) → later_or v none ≡ v
  later_or-none none = refl
  later_or-none (some v) = refl

  -- The message of the last error at a path.
  unfoldable pub last_message : Text → List FieldError → Option Value
  last_message k [] = none
  last_message k (e ∷ es) =
      later_or (last_message k es)
        (if text_eq (field_path to_text e) k then some (message_of to_text e) else none)

  get_field-add_errors :
      (k : Text) (es : List FieldError) (d : Fields)
      → get_field k (add_errors to_text es d) ≡ later_or (last_message k es) (get_field k d)
  unfolding add_errors last_message
  get_field-add_errors k [] d = refl
  get_field-add_errors k (e ∷ es) d =
      get_field-add_errors k es (set_field (field_path to_text e) (message_of to_text e) d)
      ∙ ap (λ v. later_or (last_message k es) v)
          (get_field-set_field (field_path to_text e) k (message_of to_text e) d)
      ∙ ground arith

  -- The details of a validation error have, at each path, the message of the last error with that
  -- path, and nothing at a path that no error has; an error without a path is at "__root__".
  pub get_field-field_errors :
      (k : Text) (es : List FieldError)
      → get_field k (field_errors to_text (some es)) ≡ last_message k es
  unfolding field_errors get_field
  get_field-field_errors k es = get_field-add_errors k es end ∙ later_or-none (last_message k es)
