-- ===== src/Logging/Tests.antt =====
-- The correlation context and the masking at concrete values.
use plugshub_common.Common.{List, ◌≡◌, refl, true, false, none, some, [], ◌∷◌}
use plugshub_common.Common.Int.{pos}
use plugshub_common.Text.{Text, codes, Unicode, lower, text_eq, mem}
use plugshub_common.Value.{Value, str, dict, int, Fields, end, field, set_field}
use plugshub_common.Logging.{stars, mask, mask_fields, mask_mapping}
use plugshub_common.Logging.{LogContext}
use plugshub_common.Logging.Format.{LogRecord, payload}
use plugshub_common.Common.{◌++◌}
use plugshub_common.Logging.{sensitive_keys}
use plugshub_common.Logging.Masking.{hides, mask_mapping_masked}

abbrev plain : Unicode
plain = record { upper_other = λ c. c ∷ []; lower_other = λ c. c ∷ []; is_alpha_other = λ c. false }

abbrev login : Fields
login =
    field (codes "user") (int (pos 7))
      (field (codes "auth") (dict (field (codes "Token") (str (codes "abc")) end)) end)

abbrev shown_text : Value → Text
shown_text (str t) = t
shown_text _ = codes "?"

login_masked :
    mask_mapping plain login none
    ≡ field
        (codes "user")
        (int (pos 7))
        (field (codes "auth") (dict (field (codes "Token") (str stars) end)) end)
unfolding mask_mapping mask_fields lower set_field text_eq mem
login_masked = refl

card_tail : mask shown_text (str (codes "4111222233334444")) 4 ≡ codes "***4444"
unfolding mask
card_tail = refl

mask_mapping_masked_example :
    hides
      (sensitive_keys ++ (codes "Plate" ∷ []))
      (mask_mapping plain login (some (codes "Plate" ∷ [])))
    ≡ true
mask_mapping_masked_example = mask_mapping_masked plain login (some (codes "Plate" ∷ []))

-- A record whose caller passed a service of his own.
abbrev record_of_call : LogRecord
record_of_call = record {
  created = codes "2026-07-06T12:00:00+00:00";
  levelname = codes "INFO";
  message = codes "hello";
  attributes =
      field (codes "lineno") (int (pos 3)) (field (codes "service") (str (codes "other")) end);
  exception = none;
}

abbrev bound_ids : LogContext
bound_ids = record { request_id = some (codes "r1"); tenant_id = none }

abbrev reserved : List Text
reserved = codes "lineno" ∷ codes "message" ∷ []

payload_run :
    payload reserved (codes "billing") bound_ids record_of_call
    ≡ field (codes "timestamp") (str (codes "2026-07-06T12:00:00Z")) (
        field (codes "level") (str (codes "INFO")) (
          field (codes "service") (str (codes "other")) (
            field
              (codes "message")
              (str (codes "hello"))
              (field (codes "request_id") (str (codes "r1")) end))))
unfolding payload text_eq
payload_run = refl
