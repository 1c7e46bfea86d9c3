-- ===== src/Observability/Scrubbing.antt =====
-- What is sent of an event (`_scrub_event`, plugshub_common/observability.py).
use plugshub_common.Common.{
  ◌≡◌, ap, ◌∙◌, true, false, Option, none, some, List, arith, if◌then◌else◌,
}
use plugshub_common.Text.{Text, codes, Unicode, text_eq}
use plugshub_common.Text.Laws.{text_eq_iff}
use plugshub_common.Value.{Value, dict, str, list, Items, Fields, get_field, get_field-set_field}
use plugshub_common.Logging.{LogContext, mask_mapping, all_keys, is_sensitive}
use plugshub_common.Logging.Masking.Copy.{is_dict, mask_mapping_get, shown_or}
use plugshub_common.Observability.{scrub_event, set_default, tags_of}

masked_list :
    (u : Unicode) (event : Fields) (extra : List Text) (k : Text) (vs : Items)
    → is_dict event ≡ true
    → get_field k event ≡ some (list vs)
    → is_sensitive u (all_keys u (some extra)) k ≡ false
    → get_field k (mask_mapping u event (some extra)) ≡ some (list vs)
masked_list u event extra k vs d got plain =
    mask_mapping_get u k event (some extra) d
    ∙ ap (λ v. shown_or u (all_keys u (some extra)) k v none) got
    ∙ ground (arith, plain)

-- A list is sent as it stands: whatever mappings it holds, and whatever secrets these hold, it is
-- unchanged in the scrubbed event, unless its own key is sensitive or is "tags".
pub scrub_event_lists :
    (u : Unicode) (ctx : LogContext) (event : Fields) (extra : List Text) (k : Text) (vs : Items)
    → is_dict event ≡ true
    → get_field k event ≡ some (list vs)
    → is_sensitive u (all_keys u (some extra)) k ≡ false
    → text_eq (codes "tags") k ≡ false
    → get_field k (scrub_event u ctx event extra) ≡ some (list vs)
unfolding scrub_event
scrub_event_lists u ctx event extra k vs d got plain other =
    get_field-set_field (codes "tags") k _ (mask_mapping u event (some extra))
    ∙ rw (other) (masked_list u event extra k vs d got plain)

-- The tag that the event carries under a key: its own, else the one of the log context.
abbrev pub tag_or : Option Value → Option Text → Option Value
tag_or (some v) t = some v
tag_or none none = none
tag_or none (some t) = some (str t)

get_field-set_default :
    (k j : Text) (t : Option Text) (tags : Fields)
    → get_field j (set_default k t tags)
      ≡ (if text_eq k j then tag_or (get_field k tags) t else get_field j tags)
get_field-set_default k j none tags = grind (arith, text_eq_iff k j)
get_field-set_default k j (some t) tags =
    ground (arith, text_eq_iff k j, get_field-set_field k j (str t) tags)

-- The event carries the request and tenant ids of the log context as tags, except where the masked
-- event has tags of those names of its own, which stay.
pub scrub_event_tags :
    (u : Unicode) (ctx : LogContext) (event : Fields) (extra : List Text)
    → let own = tags_of (get_field (codes "tags") (mask_mapping u event (some extra))) in
      (tags : Fields) × (get_field (codes "tags") (scrub_event u ctx event extra)
        ≡ some (dict tags))
      × (get_field (codes "request_id") tags
          ≡ tag_or (get_field (codes "request_id") own) ctx.request_id)
      × (get_field (codes "tenant_id") tags
          ≡ tag_or (get_field (codes "tenant_id") own) ctx.tenant_id)
unfolding scrub_event text_eq
scrub_event_tags u ctx event extra =
    let masked = mask_mapping u event (some extra) in
    let own = tags_of (get_field (codes "tags") masked) in
    let inner = set_default (codes "request_id") ctx.request_id own in
    (
      set_default (codes "tenant_id") ctx.tenant_id inner,
      get_field-set_field (codes "tags") (codes "tags") _ masked,
      get_field-set_default (codes "tenant_id") (codes "request_id") ctx.tenant_id inner
          ∙ get_field-set_default (codes "request_id") (codes "request_id") ctx.request_id own,
      get_field-set_default (codes "tenant_id") (codes "tenant_id") ctx.tenant_id inner
          ∙ ap (λ v. tag_or v ctx.tenant_id)
              (get_field-set_default (codes "request_id") (codes "tenant_id") ctx.request_id own),
    )
