-- ===== src/Tenant/Newline.antt =====
-- A newline at the end of an id slips through the patterns: `$` matches before it.
use plugshub_common.Common.{
  ℕ, zero, suc, ◌<◌, ◌≡◌, refl, sym, ap, ◌∙◌, ◌⊎◌, inl, inr, Bool, true, false, not, ◌&&◌, ◌||◌,
  none, some, List, [], ◌∷◌, ◌++◌, append_assoc, arith, ◌==◌, Bool-cases, Option-cases, length,
  drop, all, length-append, All,
}
use mathlib.Core.Bool.{and-eq-true_iff}
use plugshub_common.Text.{Text, Unicode, char_upper, upper, starts_with, has_infix, is_empty}
use plugshub_common.Exec.{ok}
use plugshub_common.Tenant.{
  prefix, is_name_char, at_end, names_to_end, some_names_to_end, prefixed_re, eat_hex, eat_dash,
  groups, uuid_re, well_formed, is_dangerous, dangerous, whitelisted, validate_tenant,
}
use plugshub_common.Tenant.Layers.{accepted_layers, accepted_of_layers}

abbrev pub IsNames : Text → Type 0
IsNames s = All (λ c. is_name_char c ≡ true) s

-- Not empty, and without a newline.
abbrev is_one_line : Text → Bool
is_one_line p = not (is_empty p) && all (λ d. not (d == 10)) p

starts_with-newline :
    (s p : Text)
    → all (λ d. not (d == 10)) p ≡ true
    → starts_with (s ++ 10 ∷ []) p ≡ starts_with s p
unfolding starts_with
starts_with-newline [] [] h = refl
starts_with-newline (c ∷ s) [] h = refl
starts_with-newline [] (d ∷ p) h = ground arith
starts_with-newline (c ∷ s) (d ∷ p) h = ground (arith, starts_with-newline s p)

has_infix-newline : (p s : Text) → is_one_line p ≡ true → has_infix p (s ++ 10 ∷ []) ≡ has_infix p s
unfolding has_infix
has_infix-newline [] s h = cc
has_infix-newline (d ∷ p) [] h = ground arith
has_infix-newline (d ∷ p) (c ∷ s) h =
    ground (arith, has_infix-newline (d ∷ p) s h, starts_with-newline (c ∷ s) (d ∷ p))

is_dangerous-newline :
    (ps : List Text) (s : Text)
    → all is_one_line ps ≡ true
    → is_dangerous ps (s ++ 10 ∷ []) ≡ is_dangerous ps s
unfolding is_dangerous
is_dangerous-newline [] s h = refl
is_dangerous-newline (p ∷ ps) s h = ground (arith, is_dangerous-newline ps s, has_infix-newline p s)

upper-newline : (u : Unicode) (s : Text) → upper u (s ++ 10 ∷ []) ≡ upper u s ++ 10 ∷ []
unfolding upper
upper-newline u [] = refl
upper-newline u (c ∷ s) =
    ap (λ t. char_upper u c ++ t) (upper-newline u s)
    ∙ sym (append_assoc (char_upper u c) (upper u s) _)

names_to_end-newline : (s : Text) → IsNames s → names_to_end (s ++ 10 ∷ []) ≡ true
unfolding names_to_end
names_to_end-newline [] h = refl
names_to_end-newline (c ∷ s) h = ground (arith, names_to_end-newline s h.1)

some_names_to_end-newline :
    (s : Text) → IsNames s → some_names_to_end s ≡ true → some_names_to_end (s ++ 10 ∷ []) ≡ true
unfolding some_names_to_end
some_names_to_end-newline [] h e = cc
some_names_to_end-newline (c ∷ s) h e = ground (arith, names_to_end-newline s h.1)

drop-starts_with :
    (s p r : Text) → starts_with s p ≡ true → drop (length p) (s ++ r) ≡ drop (length p) s ++ r
unfolding starts_with
drop-starts_with s [] r h = refl
drop-starts_with [] (d ∷ p) r h = cc
drop-starts_with (c ∷ s) (d ∷ p) r h = drop-starts_with s p r (ground arith)

IsNames-drop : (n : ℕ) (s : Text) → IsNames s → IsNames (drop n s)
IsNames-drop zero s h = h
IsNames-drop (suc n) [] h = tt
IsNames-drop (suc n) (c ∷ s) h = IsNames-drop n s h.1

prefixed_re-newline :
    (s : Text) → IsNames s → prefixed_re s ≡ true → prefixed_re (s ++ 10 ∷ []) ≡ true
unfolding prefixed_re
prefixed_re-newline s h e =
    let (starts, names) = (and-eq-true_iff _ _).0 e in
    (and-eq-true_iff _ _).1 (
      starts_with-newline s prefix refl ∙ starts,
      ap some_names_to_end (drop-starts_with s prefix (10 ∷ []) starts)
          ∙ some_names_to_end-newline (drop 6 s) (IsNames-drop 6 s h) names,
    )

eat_hex-append : (n : ℕ) (s r t : Text) → eat_hex n s ≡ some r → eat_hex n (s ++ t) ≡ some (r ++ t)
unfolding eat_hex
eat_hex-append zero s r t h = ground arith
eat_hex-append (suc n) [] r t h = cc
eat_hex-append (suc n) (c ∷ s) r t h = ground (arith, eat_hex-append n s r t)

eat_hex-IsNames : (n : ℕ) (s r : Text) → eat_hex n s ≡ some r → IsNames s → IsNames r
unfolding eat_hex
eat_hex-IsNames zero s r e h = let same : s ≡ r = ground arith in rw (← same) h
eat_hex-IsNames (suc n) [] r e h = absurd (ground arith)
eat_hex-IsNames (suc n) (c ∷ s) r e h = eat_hex-IsNames n s r (ground arith) h.1

eat_dash-append : (s r t : Text) → eat_dash s ≡ some r → eat_dash (s ++ t) ≡ some (r ++ t)
unfolding eat_dash
eat_dash-append [] r t h = cc
eat_dash-append (c ∷ s) r t h = ground arith

eat_dash-IsNames : (s r : Text) → eat_dash s ≡ some r → IsNames s → IsNames r
unfolding eat_dash
eat_dash-IsNames [] r e h = absurd (ground arith)
eat_dash-IsNames (c ∷ s) r e h = let same : s ≡ r = ground arith in rw (← same) h.1

at_end-newline : (s : Text) → IsNames s → at_end s ≡ true → at_end (s ++ 10 ∷ []) ≡ true
unfolding at_end
at_end-newline [] h e = refl
at_end-newline (c ∷ s) h e = absurd (ground arith)

groups-newline :
    (ns : List ℕ) (s : Text) → IsNames s → groups ns s ≡ true → groups ns (s ++ 10 ∷ []) ≡ true
unfolding groups
groups-newline [] s h e = at_end-newline s h e
groups-newline (n ∷ []) s h e = elim (Option-cases (eat_hex n s)) [
  | inl short ↦ absurd (ground arith)
  | inr (r, ate) ↦
      rw (eat_hex-append n s r (10 ∷ []) ate, groups)
        (at_end-newline r (eat_hex-IsNames n s r ate h) (ground arith))
]
groups-newline (n ∷ m ∷ ns) s h e = elim (Option-cases (eat_hex n s)) [
  | inl short ↦ absurd (ground arith)
  | inr (r, ate) ↦ elim (Option-cases (eat_dash r)) [
    | inl no_dash ↦ absurd (ground arith)
    | inr (q, dash) ↦
        rw (eat_hex-append n s r (10 ∷ []) ate, eat_dash-append r q (10 ∷ []) dash, groups)
          (groups-newline (m ∷ ns) q (eat_dash-IsNames r q dash (eat_hex-IsNames n s r ate h))
            (ground arith))
  ]
]

or_intro : (a b : Bool) → (a ≡ true) ⊎ (b ≡ true) → (a || b) ≡ true
or_intro a b h = ground arith

or_right : (a b : Bool) → a ≡ false → (a || b) ≡ true → b ≡ true
or_right a b h e = ground arith

well_formed-newline :
    (s : Text) → IsNames s → well_formed s ≡ true → well_formed (s ++ 10 ∷ []) ≡ true
unfolding well_formed
well_formed-newline s h e = elim (Bool-cases (prefixed_re s)) [
  | inl prefixed ↦ or_intro _ _ (inl (prefixed_re-newline s h prefixed))
  | inr other ↦
      let uuid : uuid_re s ≡ true = or_right _ _ other e in
      or_intro _ _ (inr (groups-newline (8 ∷ 4 ∷ 4 ∷ 4 ∷ 12 ∷ []) s h uuid))
]

-- Before the set is loaded, every id of letters, digits and dashes that the validator accepts, and
-- that is shorter than 60 characters, it accepts with a newline appended too.
pub validate_tenant_newline :
    (u : Unicode) (s : Text) (r : Bool)
    → IsNames s
    → length s < 60
    → validate_tenant u s none r ≡ ok true
    → validate_tenant u (s ++ 10 ∷ []) none r ≡ ok true
unfolding whitelisted
validate_tenant_newline u s r h short e =
    let (listed, formed, sized, clean) = accepted_layers u s none r e in
    accepted_of_layers u (s ++ 10 ∷ []) none r (is_empty-append s) refl
      (well_formed-newline s h formed) (ground (arith, length-append s (10 ∷ [])))
      (rw (upper-newline u s) (is_dangerous-newline dangerous (upper u s) refl ∙ clean))
  where
    is_empty-append : (s : Text) → is_empty (s ++ 10 ∷ []) ≡ false
    is_empty-append [] = refl
    is_empty-append (c ∷ s) = refl
