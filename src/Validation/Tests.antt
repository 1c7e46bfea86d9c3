-- ===== src/Validation/Tests.antt =====
-- Runs of plugshub_common/validation.py, and the theorems about it at concrete inputs.
use plugshub_common.Common.{ℕ, ◌≡◌, refl, none, some, [], ◌∷◌, if◌then◌else◌}
use plugshub_common.Text.{Text, codes, text_eq}
use plugshub_common.Value.{Value, str, dict, Fields, end, field}
use plugshub_common.Errors.{value_error, type_error, runtime_error}
use plugshub_common.Exec.{Result, ok, raised}
use plugshub_common.Validation.{
  bytes, parse_json_body, FieldError, field_errors, Verdict, valid, invalid,
}

-- A reader that knows one JSON object, and a model that wants a field.
abbrev braces : Text
braces = codes "{}"

abbrev loads : Value → Result Value
loads (str t) = if text_eq t braces then ok (dict end) else raised (value_error [])
loads v = raised (type_error [])

abbrev to_text : Value → Text
to_text (str t) = t
to_text v = []

abbrev missing : FieldError
missing = record {
  loc = some (str (codes "address") ∷ str (codes "city") ∷ []);
  msg = some (str (codes "Field required"));
}

abbrev rootless : FieldError
rootless = record { loc = none; msg = none }

abbrev validator : Fields → Verdict ℕ
validator end = invalid (some (missing ∷ rootless ∷ []))
validator (field k v d) = valid 1

field_errors_run :
    field_errors to_text (some (missing ∷ rootless ∷ []))
    ≡ field
        (codes "address.city")
        (str (codes "Field required"))
        (field (codes "__root__") (str (codes "invalid")) end)
unfolding field_errors text_eq
field_errors_run = refl

-- A body that is nested too deeply for `json.loads` is a `RecursionError`, which passes through.
deep_body :
    parse_json_body
      (λ b. b)
      (λ v. raised (runtime_error (codes "maximum recursion depth exceeded")))
      (bytes braces)
    ≡ raised (runtime_error (codes "maximum recursion depth exceeded"))
unfolding parse_json_body
deep_body = refl
