-- ===== src/Logging/Masking.antt =====
-- What `mask` and `mask_mapping` leave of a value (plugshub_common/logging.py).
pub mod Copy
use plugshub_common.Common.{
  ◌≡◌, refl, inl, inr, Bool, true, false, not, ◌&&◌, ◌||◌, Option, none, some, List, arith,
  if◌then◌else◌, Bool-cases, is_some,
}
use plugshub_common.Text.{Text, text_eq, Unicode}
use plugshub_common.Common.{ℕ, ◌+◌, ◌++◌, ◌==◌, [], ◌∷◌, map, or_else, subst, ◌∙◌}
use plugshub_common.Text.{is_upper_ascii, char_lower, lower, mem}
use plugshub_common.Logging.{sensitive_keys}
use plugshub_common.Text.Laws.{text_eq_iff}
use plugshub_common.Value.{
  Value, null, bool, int, str, list, dict, object, Fields, end, field, get_field, set_field,
  get_field-set_field,
}
use plugshub_common.Logging.{stars, all_keys, is_sensitive, mask_fields, mask_mapping}

is_stars : Value → Bool
is_stars (str t) = text_eq t stars
is_stars _ = false

is_nested : Value → Bool
is_nested (dict d) = true
is_nested _ = false

module _ (u : Unicode) (keys : List Text) where
  -- No sensitive key shows anything but stars, in the mapping or in the mappings nested in it.
  unfoldable pub is_masked : Fields → Bool
  unfolding is_stars
  is_masked end = true
  is_masked (field k (dict inner) d) =
      not (is_sensitive u keys k) && (is_masked inner && is_masked d)
  is_masked (field k v d) = (not (is_sensitive u keys k) || is_stars v) && is_masked d

  -- What masking makes of one value.
  abbrev pub shown : Text → Value → Value
  shown k (dict inner) =
      if is_sensitive u keys k then str stars else dict (mask_fields u keys inner end)
  shown k v = if is_sensitive u keys k then str stars else v

  is_masked_split :
      (k : Text) (v : Value) (d : Fields)
      → is_masked (field k v d) ≡ (is_masked (field k v end) && is_masked d)
  unfolding is_masked
  is_masked_split k null d = ground arith
  is_masked_split k (bool b) d = ground arith
  is_masked_split k (int n) d = ground arith
  is_masked_split k (str t) d = ground arith
  is_masked_split k (list vs) d = ground arith
  is_masked_split k (dict inner) d = ground arith
  is_masked_split k (object n) d = ground arith

  is_masked-set_field :
      (k : Text) (v : Value) (d : Fields)
      → is_masked (field k v end) ≡ true
      → is_masked d ≡ true
      → is_masked (set_field k v d) ≡ true
  unfolding set_field
  is_masked-set_field k v end h hd = h
  is_masked-set_field k v (field j w d) h hd = ground (
    arith,
    text_eq_iff j k,
    is_masked-set_field k v d h,
    is_masked_split j w d,
    is_masked_split j v d,
    is_masked_split j w (set_field k v d),
  )

  plain_entry :
      (k : Text) (v : Value)
      → is_sensitive u keys k ≡ false
      → is_nested v ≡ false
      → is_masked (field k v end) ≡ true
  unfolding is_masked is_nested
  plain_entry k null h n = ground arith
  plain_entry k (bool b) h n = ground arith
  plain_entry k (int m) h n = ground arith
  plain_entry k (str t) h n = ground arith
  plain_entry k (list vs) h n = ground arith
  plain_entry k (dict inner) h n = absurd (ground (arith, n))
  plain_entry k (object m) h n = ground arith

  star_entry : (k : Text) → is_masked (field k (str stars) end) ≡ true
  unfolding is_masked
  star_entry k = ground (arith, text_eq_iff stars stars)

  nested_entry :
      (k : Text) (d : Fields)
      → is_sensitive u keys k ≡ false
      → is_masked d ≡ true
      → is_masked (field k (dict d) end) ≡ true
  unfolding is_masked
  nested_entry k d h hd = ground arith

  shown_entry :
      (k : Text) (v : Value)
      → is_nested v ≡ false
      → is_masked (field k (if is_sensitive u keys k then str stars else v) end) ≡ true
  shown_entry k v n = elim (Bool-cases (is_sensitive u keys k)) [
    | inl h ↦ ground (arith, h, star_entry k)
    | inr h ↦ ground (arith, h, plain_entry k v h n)
  ]

  is_masked-mask_fields :
      (d out : Fields) → is_masked out ≡ true → is_masked (mask_fields u keys d out) ≡ true
  unfolding mask_fields is_nested is_masked
  is_masked-mask_fields end out h = h
  is_masked-mask_fields (field k null d) out h =
      is_masked-mask_fields d _ (is_masked-set_field k _ out (shown_entry k null refl) h)
  is_masked-mask_fields (field k (bool b) d) out h =
      is_masked-mask_fields d _ (is_masked-set_field k _ out (shown_entry k (bool b) refl) h)
  is_masked-mask_fields (field k (int m) d) out h =
      is_masked-mask_fields d _ (is_masked-set_field k _ out (shown_entry k (int m) refl) h)
  is_masked-mask_fields (field k (str t) d) out h =
      is_masked-mask_fields d _ (is_masked-set_field k _ out (shown_entry k (str t) refl) h)
  is_masked-mask_fields (field k (list vs) d) out h =
      is_masked-mask_fields d _ (is_masked-set_field k _ out (shown_entry k (list vs) refl) h)
  is_masked-mask_fields (field k (object m) d) out h =
      is_masked-mask_fields d _ (is_masked-set_field k _ out (shown_entry k (object m) refl) h)
  is_masked-mask_fields (field k (dict inner) d) out h = is_masked-mask_fields d _ (
      is_masked-set_field k _ out
        (elim (Bool-cases (is_sensitive u keys k)) [
          | inl s ↦ ground (arith, s, star_entry k)
          | inr s ↦ ground (
            arith,
            s,
            nested_entry k (mask_fields u keys inner end) s (is_masked-mask_fields inner end refl),
          )
        ])
        h)

-- The same letter, or the two cases of one ASCII letter.
abbrev is_same_letter : ℕ → ℕ → Bool
is_same_letter c d =
    (c == d) || ((is_upper_ascii c && (d == c + 32)) || (is_upper_ascii d && (c == d + 32)))

-- The same text but for the case of its ASCII letters.
unfoldable pub is_spelling : Text → Text → Bool
is_spelling [] [] = true
is_spelling (c ∷ s) (d ∷ t) = is_same_letter c d && is_spelling s t
is_spelling s t = false

unfoldable pub is_named : List Text → Text → Bool
unfolding is_spelling
is_named [] k = false
is_named (name ∷ names) k = is_spelling k name || is_named names k

-- No key that is one of the names shows anything but stars, in the mapping or in the mappings that
-- are the values of its other keys, at any depth. A list is not looked into.
unfoldable pub hides : List Text → Fields → Bool
unfolding is_named is_stars
hides names end = true
hides names (field k (dict inner) d) =
    not (is_named names k) && (hides names inner && hides names d)
hides names (field k v d) = (not (is_named names k) || is_stars v) && hides names d

module _ (u : Unicode) where
  char_lower_same : (c d : ℕ) → is_same_letter c d ≡ true → char_lower u c ≡ char_lower u d
  unfolding char_lower
  char_lower_same c d h = grind (arith, h)

  lower_same : (s t : Text) → is_spelling s t ≡ true → lower u s ≡ lower u t
  unfolding is_spelling lower
  lower_same [] [] h = refl
  lower_same [] (d ∷ t) h = absurd (ground (arith, h))
  lower_same (c ∷ s) [] h = absurd (ground (arith, h))
  lower_same (c ∷ s) (d ∷ t) h =
      rw (char_lower_same c d (ground (arith, h)), lower_same s t (ground (arith, h))) refl

  mem-lower :
      (k : Text) (names : List Text)
      → is_named names k ≡ true
      → mem (lower u k) (map (lower u) names) ≡ true
  unfolding is_named mem
  mem-lower k [] h = absurd (ground (arith, h))
  mem-lower k (name ∷ names) h =
      ground
        (arith, h, lower_same k name, text_eq_iff (lower u k) (lower u name), mem-lower k names)

  lower_all :
      (extra : Option (List Text))
      → map (lower u) (sensitive_keys ++ or_else extra []) ≡ all_keys u extra
  unfolding lower char_lower
  lower_all none = refl
  lower_all (some extra) = refl

  is_named_sensitive :
      (extra : Option (List Text)) (k : Text)
      → is_named (sensitive_keys ++ or_else extra []) k ≡ true
      → is_sensitive u (all_keys u extra) k ≡ true
  is_named_sensitive extra k h =
      subst (λ keys. mem (lower u k) keys ≡ true) (lower_all extra)
        (mem-lower k (sensitive_keys ++ or_else extra []) h)

  hidden_leaf :
      (named sensitive starred rest hidden : Bool)
      → (named ≡ true → sensitive ≡ true)
      → (rest ≡ true → hidden ≡ true)
      → ((not sensitive || starred) && rest) ≡ true
      → ((not named || starred) && hidden) ≡ true
  hidden_leaf true sensitive starred rest hidden of_name of_rest h =
      ground (arith, of_name refl, of_rest, h)
  hidden_leaf false sensitive starred rest hidden of_name of_rest h = ground (arith, of_rest, h)

  hidden_nested :
      (named sensitive inner inner_hidden rest hidden : Bool)
      → (named ≡ true → sensitive ≡ true)
      → (inner ≡ true → inner_hidden ≡ true)
      → (rest ≡ true → hidden ≡ true)
      → (not sensitive && (inner && rest)) ≡ true
      → (not named && (inner_hidden && hidden)) ≡ true
  hidden_nested true sensitive inner inner_hidden rest hidden of_name of_inner of_rest h =
      absurd (ground (arith, of_name refl, h))
  hidden_nested false sensitive inner inner_hidden rest hidden of_name of_inner of_rest h =
      ground (arith, of_inner, of_rest, h)

  hides-is_masked :
      (extra : Option (List Text)) (d : Fields)
      → is_masked u (all_keys u extra) d ≡ true
      → hides (sensitive_keys ++ or_else extra []) d ≡ true
  unfolding hides is_masked
  hides-is_masked extra end h = refl
  hides-is_masked extra (field k null d) h =
      hidden_leaf _ _ _ _ _ (is_named_sensitive extra k) (hides-is_masked extra d) h
  hides-is_masked extra (field k (bool b) d) h =
      hidden_leaf _ _ _ _ _ (is_named_sensitive extra k) (hides-is_masked extra d) h
  hides-is_masked extra (field k (int n) d) h =
      hidden_leaf _ _ _ _ _ (is_named_sensitive extra k) (hides-is_masked extra d) h
  hides-is_masked extra (field k (str t) d) h =
      hidden_leaf _ _ _ _ _ (is_named_sensitive extra k) (hides-is_masked extra d) h
  hides-is_masked extra (field k (list vs) d) h =
      hidden_leaf _ _ _ _ _ (is_named_sensitive extra k) (hides-is_masked extra d) h
  hides-is_masked extra (field k (object n) d) h =
      hidden_leaf _ _ _ _ _ (is_named_sensitive extra k) (hides-is_masked extra d) h
  hides-is_masked extra (field k (dict inner) d) h =
      hidden_nested _ _ _ _ _ _ (is_named_sensitive extra k) (hides-is_masked extra inner)
        (hides-is_masked extra d) h

-- In the copy that `mask_mapping` makes, a key that is one of the sensitive keys, or of the caller's,
-- in whatever case its ASCII letters are, has three stars for its value; so it is in the mapping, in
-- the mappings that are values of its other keys, and so on at any depth. Mappings that stand in a
-- list are outside of this: a list is not looked into.
pub mask_mapping_masked :
    (u : Unicode) (source : Fields) (extra : Option (List Text))
    → hides (sensitive_keys ++ or_else extra []) (mask_mapping u source extra) ≡ true
unfolding mask_mapping is_masked
mask_mapping_masked u source extra =
    hides-is_masked u extra (mask_mapping u source extra)
      (is_masked-mask_fields u (all_keys u extra) source end refl)
