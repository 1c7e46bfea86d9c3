-- ===== src/Tenant/Charset.antt =====
-- The characters of a text that passes the validator's patterns.
use plugshub_common.Common.{
  ℕ, zero, suc, ◌≡◌, refl, ◌⊎◌, inl, inr, true, ◌&&◌, some, List, [], ◌∷◌, arith, Bool-cases,
  Option-cases, length, drop, All,
}
use plugshub_common.Text.{Text, starts_with, is_empty}
use plugshub_common.Text.Laws.{IsFree}
use plugshub_common.Common.{subst, sym}
use plugshub_common.Tenant.{
  prefix, is_name_char, is_hex_char, at_end, names_to_end, some_names_to_end, prefixed_re, eat_hex,
  eat_dash, groups, well_formed,
}

-- Letters, digits and dashes, but for one newline that may end the text.
abbrev pub NamesThenNewline : Text → Type 0
NamesThenNewline [] = Unit
NamesThenNewline (c ∷ s) = ((is_name_char c ≡ true) × NamesThenNewline s) ⊎ ((c ≡ 10) × (s ≡ []))

is_empty→nil : (s : Text) → is_empty s ≡ true → s ≡ []
is_empty→nil [] h = refl
is_empty→nil (c ∷ s) h = cc

at_end-NamesThenNewline : (s : Text) → at_end s ≡ true → NamesThenNewline s
unfolding at_end
at_end-NamesThenNewline [] h = tt
at_end-NamesThenNewline (c ∷ s) h = inr (ground arith, is_empty→nil s (ground arith))

names_to_end-NamesThenNewline : (s : Text) → names_to_end s ≡ true → NamesThenNewline s
unfolding names_to_end
names_to_end-NamesThenNewline [] h = tt
names_to_end-NamesThenNewline (c ∷ s) h = elim (Bool-cases (is_name_char c && names_to_end s)) [
  | inl name ↦ inl (ground arith, names_to_end-NamesThenNewline s (ground arith))
  | inr other ↦ at_end-NamesThenNewline (c ∷ s) (ground arith)
]

starts_with-NamesThenNewline :
    (p s : Text)
    → All (λ c. is_name_char c ≡ true) p
    → starts_with s p ≡ true
    → NamesThenNewline (drop (length p) s)
    → NamesThenNewline s
unfolding starts_with
starts_with-NamesThenNewline [] s a h k = k
starts_with-NamesThenNewline (d ∷ p) [] a h k = tt
starts_with-NamesThenNewline (d ∷ p) (c ∷ s) a h k =
    let same : c ≡ d = ground arith in
    inl (rw same a.0, starts_with-NamesThenNewline p s a.1 (ground arith) k)

some_names_to_end-NamesThenNewline : (s : Text) → some_names_to_end s ≡ true → NamesThenNewline s
unfolding some_names_to_end
some_names_to_end-NamesThenNewline [] h = tt
some_names_to_end-NamesThenNewline (c ∷ s) h =
    inl (ground arith, names_to_end-NamesThenNewline s (ground arith))

prefixed_re-NamesThenNewline : (s : Text) → prefixed_re s ≡ true → NamesThenNewline s
unfolding prefixed_re
prefixed_re-NamesThenNewline s h =
    starts_with-NamesThenNewline prefix s (refl, (refl, (refl, (refl, (refl, (refl, tt))))))
      (ground arith) (some_names_to_end-NamesThenNewline (drop 6 s) (ground arith))

hex_is_name : (c : ℕ) → is_hex_char c ≡ true → is_name_char c ≡ true
hex_is_name c h = ground arith

eat_hex-NamesThenNewline :
    (n : ℕ) (s rest : Text) → eat_hex n s ≡ some rest → NamesThenNewline rest → NamesThenNewline s
unfolding eat_hex
eat_hex-NamesThenNewline zero s rest h k = let same : s ≡ rest = ground arith in rw same k
eat_hex-NamesThenNewline (suc n) [] rest h k = tt
eat_hex-NamesThenNewline (suc n) (c ∷ s) rest h k =
    inl (hex_is_name c (ground arith), eat_hex-NamesThenNewline n s rest (ground arith) k)

eat_dash-NamesThenNewline :
    (s rest : Text) → eat_dash s ≡ some rest → NamesThenNewline rest → NamesThenNewline s
unfolding eat_dash
eat_dash-NamesThenNewline [] rest h k = tt
eat_dash-NamesThenNewline (c ∷ s) rest h k =
    let same : s ≡ rest = ground arith in
    let dash : c ≡ b'-' = ground arith in inl (rw dash refl, rw same k)

groups-NamesThenNewline : (ns : List ℕ) (s : Text) → groups ns s ≡ true → NamesThenNewline s
unfolding groups
groups-NamesThenNewline [] s h = at_end-NamesThenNewline s h
groups-NamesThenNewline (n ∷ []) s h = elim (Option-cases (eat_hex n s)) [
  | inl short ↦ absurd (ground arith)
  | inr (rest, e) ↦
      eat_hex-NamesThenNewline n s rest e (at_end-NamesThenNewline rest (ground arith))
]
groups-NamesThenNewline (n ∷ m ∷ ns) s h = elim (Option-cases (eat_hex n s)) [
  | inl short ↦ absurd (ground arith)
  | inr (rest, e) ↦ elim (Option-cases (eat_dash rest)) [
    | inl no_dash ↦ absurd (ground arith)
    | inr (more, d) ↦ eat_hex-NamesThenNewline n s rest e (
        eat_dash-NamesThenNewline rest more d
          (groups-NamesThenNewline (m ∷ ns) more (ground arith)))
  ]
]

pub well_formed-NamesThenNewline : (s : Text) → well_formed s ≡ true → NamesThenNewline s
unfolding well_formed
well_formed-NamesThenNewline s h = elim (Bool-cases (prefixed_re s)) [
  | inl prefixed ↦ prefixed_re-NamesThenNewline s prefixed
  | inr other ↦ groups-NamesThenNewline (8 ∷ 4 ∷ 4 ∷ 4 ∷ 12 ∷ []) s (ground arith)
]

-- Nor is there a colon, at which keys are taken apart.
pub NamesThenNewline-IsFree : (s : Text) → NamesThenNewline s → IsFree b':' s
NamesThenNewline-IsFree [] h = tt
NamesThenNewline-IsFree (c ∷ s) (inl (name, h)) =
    (ground (arith, name), NamesThenNewline-IsFree s h)
NamesThenNewline-IsFree (c ∷ s) (inr (newline, end)) =
    (omega (arith, newline), subst (IsFree b':') (sym end) tt)
