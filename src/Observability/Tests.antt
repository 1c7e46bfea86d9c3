-- ===== src/Observability/Tests.antt =====
-- Error tracking at a concrete event and concrete exceptions.
use plugshub_common.Common.{ℕ, ◌+◌, ◌≡◌, refl, true, false, none, some, [], ◌∷◌}
use plugshub_common.Text.{codes, Unicode, lower, mem, text_eq}
use plugshub_common.Value.{dict, str, list, Items, nil, cons, Fields, end, field, get_field}
use plugshub_common.Errors.{Exc, not_found, plugs_hub_error, make_error, class_status}
use plugshub_common.Exec.{ok, Exec}
use plugshub_common.Logging.{LogContext}
use plugshub_common.Logging.Masking.Copy.{is_dict}
use plugshub_common.Observability.{Tracked, should_report, capture_exception, scrub_event}
use plugshub_common.Observability.Scrubbing.{scrub_event_lists}

abbrev plain : Unicode
plain = record { upper_other = λ c. c ∷ []; lower_other = λ c. c ∷ []; is_alpha_other = λ c. false }

-- The world is the number of reports sent.
abbrev send : Exc → Exec ℕ (Unit {0})
send e w = (ok tt, w + 1)

abbrev on : Tracked ℕ
on = record {
  tracking = record { enabled = true; has_sdk = true; extra_sensitive_keys = [] };
  world = 0;
}

abbrev missing : Exc
missing = plugs_hub_error (make_error not_found none none none none)

client_error_kept : capture_exception send missing on ≡ (ok false, on)
unfolding capture_exception should_report make_error class_status
client_error_kept = refl

abbrev ctx : LogContext
ctx = record { request_id = some (codes "r1"); tenant_id = none }

-- A frame's local variables, as the tracker lists them.
abbrev frames : Items
frames = cons (dict (field (codes "password") (str (codes "hunter2")) end)) nil

abbrev crash : Fields
crash = field (codes "frames") (list frames) end

scrub_event_lists_example :
    get_field (codes "frames") (scrub_event plain ctx crash []) ≡ some (list frames)
unfolding is_dict get_field text_eq lower mem
scrub_event_lists_example =
    scrub_event_lists plain ctx crash [] (codes "frames") frames refl refl refl refl
