-- ===== src/Errors/Tests.antt =====
-- The envelopes at concrete errors.
use plugshub_common.Common.{◌≡◌, refl, none}
use plugshub_common.Text.{codes}
use plugshub_common.Errors.{error_envelope, value_error, error_from_exception}

-- The message of the exception does not show.
message_hidden :
    error_from_exception (value_error (codes "password=hunter2")) (codes "req-1")
    ≡ error_envelope (codes "common.internal") (codes "Internal server error") (codes "req-1") none
unfolding error_from_exception
message_hidden = refl
