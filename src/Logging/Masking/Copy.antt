-- ===== src/Logging/Masking/Copy.antt =====
-- The masked copy of a mapping, key by key (`mask_mapping`, plugshub_common/logging.py).
use plugshub_common.Common.{
  ◌≡◌, refl, inl, inr, Bool, true, not, ◌&&◌, Option, none, some, List, arith, if◌then◌else◌,
  Bool-cases, is_some,
}
use plugshub_common.Text.{Text, text_eq, Unicode}
use plugshub_common.Common.{◌∙◌}
use plugshub_common.Text.Laws.{text_eq_iff}
use plugshub_common.Value.{
  Value, null, bool, int, str, list, dict, object, Fields, end, field, get_field, set_field,
  get_field-set_field,
}
use plugshub_common.Logging.{all_keys, mask_fields, mask_mapping}
use plugshub_common.Logging.Masking.{shown}

-- A Python dict has each key once.
unfoldable pub is_dict : Fields → Bool
is_dict end = true
is_dict (field k v d) = not (is_some (get_field k d)) && is_dict d

module _ (u : Unicode) (keys : List Text) where
  -- The loop so far, read at one key: what is left of the mapping, then what was written before.
  abbrev pub shown_or : Text → Option Value → Option Value → Option Value
  shown_or k none old = old
  shown_or k (some v) old = some (shown u keys k v)

  first_missing :
      (j : Text) (v : Value) (d : Fields)
      → is_dict (field j v d) ≡ true
      → (get_field j d ≡ none) × (is_dict d ≡ true)
  unfolding is_dict
  first_missing j v d h = ground arith

  shown_step :
      (k j : Text) (v : Value) (d out : Fields)
      → get_field j d ≡ none
      → shown_or k (get_field k d) (get_field k (set_field j (shown u keys j v) out))
        ≡ shown_or k (if text_eq j k then some v else get_field k d) (get_field k out)
  shown_step k j v d out missing = elim (Bool-cases (text_eq j k)) [
    | inl h ↦ grind (arith, text_eq_iff j k, get_field-set_field j k (shown u keys j v) out)
    | inr h ↦ grind (arith, h, get_field-set_field j k (shown u keys j v) out)
  ]

  get_field-mask_fields :
      (k : Text) (d out : Fields)
      → is_dict d ≡ true
      → get_field k (mask_fields u keys d out) ≡ shown_or k (get_field k d) (get_field k out)
  unfolding mask_fields get_field
  get_field-mask_fields k end out h = refl
  get_field-mask_fields k (field j (null) d) out h =
      let (missing, rest) = first_missing j (null) d h in
      get_field-mask_fields k d _ rest ∙ shown_step k j (null) d out missing
  get_field-mask_fields k (field j (bool b) d) out h =
      let (missing, rest) = first_missing j (bool b) d h in
      get_field-mask_fields k d _ rest ∙ shown_step k j (bool b) d out missing
  get_field-mask_fields k (field j (int m) d) out h =
      let (missing, rest) = first_missing j (int m) d h in
      get_field-mask_fields k d _ rest ∙ shown_step k j (int m) d out missing
  get_field-mask_fields k (field j (str t) d) out h =
      let (missing, rest) = first_missing j (str t) d h in
      get_field-mask_fields k d _ rest ∙ shown_step k j (str t) d out missing
  get_field-mask_fields k (field j (list vs) d) out h =
      let (missing, rest) = first_missing j (list vs) d h in
      get_field-mask_fields k d _ rest ∙ shown_step k j (list vs) d out missing
  get_field-mask_fields k (field j (object m) d) out h =
      let (missing, rest) = first_missing j (object m) d h in
      get_field-mask_fields k d _ rest ∙ shown_step k j (object m) d out missing
  get_field-mask_fields k (field j (dict inner) d) out h =
      let (missing, rest) = first_missing j (dict inner) d h in
      get_field-mask_fields k d _ rest ∙ shown_step k j (dict inner) d out missing

-- The copy has the keys of the source: where a key is sensitive it has three stars, else the value
-- itself, or the masked copy of a nested mapping.
pub mask_mapping_get :
    (u : Unicode) (k : Text) (source : Fields) (extra : Option (List Text))
    → is_dict source ≡ true
    → get_field k (mask_mapping u source extra)
      ≡ shown_or u (all_keys u extra) k (get_field k source) none
unfolding mask_mapping get_field
mask_mapping_get u k source extra h = get_field-mask_fields u (all_keys u extra) k source end h
