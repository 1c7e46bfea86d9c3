-- ===== src/Logging/Format.antt =====
-- plugshub_common/logging.py: the fields of a log line, and the set-up of the root logger. The
-- parameters: `dumps`, `json.dumps` of a dict with `default=str`, and the reserved names of a record.
use plugshub_common.Common.{
  ℕ, zero, suc, ◌-◌, ◌≡◌, refl, ap, ◌∙◌, Bool, true, not, ◌&&◌, Option, none, some, List, [], ◌∷◌,
  ◌++◌, arith, if◌then◌else◌, is_some, later_or, is_some-later_or, length,
}
use plugshub_common.Text.{Text, codes, text_eq, mem, starts_with, Unicode, upper}
use plugshub_common.Value.{
  Value, str, Fields, end, field, get_field, set_field, get_field-set_field,
}
use plugshub_common.Exec.{Result, ok, raised}
use plugshub_common.Logging.{LogContext}

-- `s.replace(p, r)`, with a number of characters still to pass over.
unfoldable pub replace_from : ℕ → Text → Text → Text → Text
unfolding starts_with
replace_from n p r [] = []
replace_from (suc n) p r (c ∷ s) = replace_from n p r s
replace_from zero p r (c ∷ s) =
    let found = replace_from (length p - 1) p r s in
    let other = replace_from zero p r s in if starts_with (c ∷ s) p then r ++ found else c ∷ other

-- What is used of a `LogRecord`: the ISO text of the UTC time at which it was made, `levelname`,
-- `getMessage()`, all of its attributes, and the formatted exception where `exc_info` is set.
pub record LogRecord : Type 0 where
  pub created : Text
  pub levelname : Text
  pub message : Text
  pub attributes : Fields
  pub exception : Option Text

abbrev pub bind_text : Text → Option Text → Fields → Fields
bind_text k none payload = payload
bind_text k (some t) payload = set_field k (str t) payload

-- `not key.startswith("_")` and no reserved name
abbrev pub is_extra : List Text → Text → Bool
is_extra reserved key = not (mem key reserved) && not (starts_with key (codes "_"))

-- The loop over the attributes.
unfoldable pub add_extras : List Text → Fields → Fields → Fields
unfolding set_field mem starts_with
add_extras reserved end payload = payload
add_extras reserved (field key value rest) payload =
    add_extras reserved rest
      (if is_extra reserved key then set_field key value payload else payload)

-- The payload before the context is added.
unfoldable pub base_fields : Text → LogRecord → Fields
unfolding replace_from
base_fields service r =
    field (codes "timestamp") (str (replace_from 0 (codes "+00:00") (codes "Z") r.created)) (
      field (codes "level") (str r.levelname)
        (field (codes "service") (str service) (field (codes "message") (str r.message) end)))

unfoldable pub with_ids : LogContext → Fields → Fields
unfolding set_field
with_ids ctx payload =
    bind_text (codes "tenant_id") ctx.tenant_id
      (bind_text (codes "request_id") ctx.request_id payload)

unfoldable pub payload : List Text → Text → LogContext → LogRecord → Fields
unfolding base_fields with_ids add_extras
payload reserved service ctx r =
    bind_text (codes "error") r.exception
      (add_extras reserved r.attributes (with_ids ctx (base_fields service r)))

-- `JsonFormatter.format`
unfoldable pub format :
    (Fields → Result Text) → List Text → Text → LogContext → LogRecord → Result Text
unfolding payload
format dumps reserved service ctx r = dumps (payload reserved service ctx r)

-- A handler with the formatter of a service, over a stream.
pub record Handler : Type 0 where
  pub service : Text
  pub stream : ℕ

-- The root logger. `set_level` is its `setLevel`, which raises on a level that it does not know.
pub record Root : Type 0 where
  pub handlers : List Handler
  pub level : Text

module _ (u : Unicode) (set_level : Text → Result Text) where
  unfoldable pub configure_logging : Text → Text → ℕ → Root → Result (Unit {0}) × Root
  unfolding upper
  configure_logging service level stream root =
      let handled = record root { handlers = record { service = service; stream = stream } ∷ [] } in
      elim (set_level (upper u level)) [
        | ok l ↦ (ok tt, record handled { level = l })
        | raised e ↦ (raised e, handled)
      ]

-- The last attribute with the key that becomes a field.
unfoldable pub extra_of : List Text → Text → Fields → Option Value
unfolding mem starts_with
extra_of reserved k end = none
extra_of reserved k (field key value rest) =
    later_or (extra_of reserved k rest)
      (if text_eq key k && is_extra reserved key then some value else none)

get_field-add_extras :
    (reserved : List Text) (k : Text) (attributes fields : Fields)
    → get_field k (add_extras reserved attributes fields)
      ≡ later_or (extra_of reserved k attributes) (get_field k fields)
unfolding add_extras extra_of
get_field-add_extras reserved k end fields = refl
get_field-add_extras reserved k (field key value rest) fields =
    get_field-add_extras reserved k rest
      (if is_extra reserved key then set_field key value fields else fields)
    ∙ ground (arith, get_field-set_field key k value fields)

-- What a text bound to a key says of a key.
abbrev pub bound : Text → Option Text → Text → Option Value
bound j none k = none
bound j (some t) k = if text_eq j k then some (str t) else none

get_field-bind_text :
    (j k : Text) (o : Option Text) (fields : Fields)
    → get_field k (bind_text j o fields) ≡ later_or (bound j o k) (get_field k fields)
get_field-bind_text j k none fields = refl
get_field-bind_text j k (some t) fields = get_field-set_field j k (str t) fields ∙ ground arith

get_field-with_ids :
    (k : Text) (ctx : LogContext) (fields : Fields)
    → get_field k (with_ids ctx fields)
      ≡ later_or
          (bound (codes "tenant_id") ctx.tenant_id k)
          (later_or (bound (codes "request_id") ctx.request_id k) (get_field k fields))
unfolding with_ids
get_field-with_ids k ctx fields =
    get_field-bind_text (codes "tenant_id") k ctx.tenant_id
      (bind_text (codes "request_id") ctx.request_id fields)
    ∙ ap (later_or (bound (codes "tenant_id") ctx.tenant_id k))
        (get_field-bind_text (codes "request_id") k ctx.request_id fields)

-- A field of a log line is, in this order: the formatted exception, for "error"; the last attribute
-- of the record with that name, unless the name is reserved or starts with "_"; the tenant id or the
-- request id of the log context; and the timestamp, level, service or message of the record.
pub payload_get :
    (reserved : List Text) (service : Text) (ctx : LogContext) (r : LogRecord) (k : Text)
    → get_field k (payload reserved service ctx r)
      ≡ later_or (bound (codes "error") r.exception k) (
          later_or (extra_of reserved k r.attributes) (
            later_or (bound (codes "tenant_id") ctx.tenant_id k) (
              later_or
                (bound (codes "request_id") ctx.request_id k)
                (get_field k (base_fields service r)))))
unfolding payload
payload_get reserved service ctx r k =
    let ids = with_ids ctx (base_fields service r) in
    get_field-bind_text (codes "error") k r.exception (add_extras reserved r.attributes ids)
    ∙ ap (later_or (bound (codes "error") r.exception k)) (
        get_field-add_extras reserved k r.attributes ids
        ∙ ap (later_or (extra_of reserved k r.attributes))
            (get_field-with_ids k ctx (base_fields service r)))

abbrev pub has_field : Text → Fields → Bool
has_field k fields = is_some (get_field k fields)

kept_field :
    (reserved : List Text) (service : Text) (ctx : LogContext) (r : LogRecord) (k : Text)
    → has_field k (base_fields service r) ≡ true
    → has_field k (payload reserved service ctx r) ≡ true
kept_field reserved service ctx r k h =
    let request = bound (codes "request_id") ctx.request_id k in
    let tenant = bound (codes "tenant_id") ctx.tenant_id k in
    let base = get_field k (base_fields service r) in
    ap is_some (payload_get reserved service ctx r k)
    ∙ is_some-later_or (bound (codes "error") r.exception k) _ (
        is_some-later_or (extra_of reserved k r.attributes) _
          (is_some-later_or tenant _ (is_some-later_or request base h)))

-- The four mandatory fields are on every line, whatever the record, the context and the reserved
-- names are.
pub payload_mandatory :
    (reserved : List Text) (service : Text) (ctx : LogContext) (r : LogRecord)
    → (has_field (codes "timestamp") (payload reserved service ctx r) ≡ true)
      × (has_field (codes "level") (payload reserved service ctx r) ≡ true)
      × (has_field (codes "service") (payload reserved service ctx r) ≡ true)
      × (has_field (codes "message") (payload reserved service ctx r) ≡ true)
unfolding base_fields get_field text_eq
payload_mandatory reserved service ctx r = (
  kept_field reserved service ctx r (codes "timestamp") refl,
  kept_field reserved service ctx r (codes "level") refl,
  kept_field reserved service ctx r (codes "service") refl,
  kept_field reserved service ctx r (codes "message") refl,
)
