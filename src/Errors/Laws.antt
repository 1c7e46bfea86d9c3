-- ===== src/Errors/Laws.antt =====
-- The envelopes and the mapping of exceptions to them (plugshub_common/errors.py).
use plugshub_common.Common.{◌≡◌, Bool, true, false, Option, none, arith}
use plugshub_common.Text.{Text, codes}
use plugshub_common.Value.{Value, Fields, get_field}
use plugshub_common.Errors.{error_envelope, Exc, plugs_hub_error, error_from_exception}

-- `e` is a `PlugsHubError`.
abbrev pub is_plugs_hub : Exc → Bool
is_plugs_hub (plugs_hub_error e) = true
is_plugs_hub _ = false

-- The inner object of an error envelope.
abbrev pub error_of : Fields → Option Value
error_of d = get_field (codes "error") d

-- An exception that is no `PlugsHubError` leaves no trace in the envelope: any two of them give the
-- same one, whose code and message say "internal" and which has no details.
pub error_from_exception_opaque :
    (e f : Exc) (request_id : Text)
    → is_plugs_hub e ≡ false
    → is_plugs_hub f ≡ false
    → (error_from_exception e request_id ≡ error_from_exception f request_id)
      × (error_from_exception e request_id
          ≡ error_envelope
              (codes "common.internal")
              (codes "Internal server error")
              request_id
              none)
unfolding error_from_exception
error_from_exception_opaque e f request_id he hf = ground arith
