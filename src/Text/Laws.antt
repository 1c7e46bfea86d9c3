-- ===== src/Text/Laws.antt =====
-- Laws of the text operations.
use plugshub_common.Common.{
  ℕ, ◌≢◌, ◌-◌, ◌≡◌, refl, sym, subst, ◌∙◌, ap, ◌↔◌, true, [], ◌∷◌, ◌++◌, arith, length, take, drop,
  length-append, ◌<◌, All,
}
use plugshub_common.Text.{
  Text, text_eq, starts_with, without_prefix, Unicode, upper, is_alpha, all_alpha, char_is_alpha,
}

pub text_eq_refl : (s : Text) → text_eq s s ≡ true
unfolding text_eq
text_eq_refl [] = refl
text_eq_refl (c ∷ s) = ground (arith, text_eq_refl s)

pub eq_of_text_eq : (s t : Text) → text_eq s t ≡ true → s ≡ t
unfolding text_eq
eq_of_text_eq [] [] h = refl
eq_of_text_eq [] (d ∷ t) h = cc
eq_of_text_eq (c ∷ s) [] h = cc
eq_of_text_eq (c ∷ s) (d ∷ t) h = ground (arith, eq_of_text_eq s t)

pub text_eq_iff : (s t : Text) → (text_eq s t ≡ true) ↔ (s ≡ t)
text_eq_iff s t = (eq_of_text_eq s t, λ e. subst_self s t e)
  where
    subst_self : (s t : Text) → s ≡ t → text_eq s t ≡ true
    subst_self s t e = rw (← e) (text_eq_refl s)

pub starts_with-append : (p s : Text) → starts_with (p ++ s) p ≡ true
unfolding starts_with
starts_with-append [] s = refl
starts_with-append (c ∷ p) s = ground (arith, starts_with-append p s)

pub drop-append : (p s : Text) → drop (length p) (p ++ s) ≡ s
drop-append [] s = refl
drop-append (c ∷ p) s = drop-append p s

pub without_prefix-append : (p s : Text) → without_prefix p (p ++ s) ≡ s
unfolding without_prefix
without_prefix-append p s = rw (starts_with-append p s) (drop-append p s)

pub take-append : (p s : Text) → take (length p) (p ++ s) ≡ p
take-append [] s = refl
take-append (c ∷ p) s = ap (λ l. c ∷ l) (take-append p s)

pub length-append_sub : (s p : Text) → length (s ++ p) - length p ≡ length s
length-append_sub s p = omega (arith, length-append s p)

-- Texts without a character.
abbrev pub IsFree : ℕ → Text → Type 0
IsFree c = All (λ d. d ≢ c)

-- A text that starts with a separator-free part has one such part.
pub separated :
    (c : ℕ) (a b s t : Text) → IsFree c a → IsFree c b → a ++ c ∷ s ≡ b ++ c ∷ t → (a ≡ b) × (s ≡ t)
separated c [] [] s t ha hb e = (refl, cc)
separated c [] (d ∷ b) s t ha (hd, hb) e = absurd (hd cc)
separated c (x ∷ a) [] s t (hx, ha) hb e = absurd (hx cc)
separated c (x ∷ a) (d ∷ b) s t (hx, ha) (hd, hb) e =
    let (same, rest) = separated c a b s t ha hb cc in
    let head : x ≡ d = cc in (rw (head, same) refl, rest)

pub not_free : (c : ℕ) (a s : Text) → IsFree c (a ++ c ∷ s) → ⊥
not_free c [] s (h, r) = h refl
not_free c (d ∷ a) s (h, r) = not_free c a s r

-- A text that ends with a separator-free part has one such part.
pub separated_last :
    (c : ℕ) (a b s t : Text) → IsFree c s → IsFree c t → a ++ c ∷ s ≡ b ++ c ∷ t → (a ≡ b) × (s ≡ t)
separated_last c [] [] s t hs ht e = (refl, cc)
separated_last c [] (d ∷ b) s t hs ht e =
    let rest : s ≡ b ++ c ∷ t = cc in absurd (not_free c b t (subst (IsFree c) rest hs))
separated_last c (x ∷ a) [] s t hs ht e =
    let rest : a ++ c ∷ s ≡ t = cc in absurd (not_free c a s (subst (IsFree c) (sym rest) ht))
separated_last c (x ∷ a) (d ∷ b) s t hs ht e =
    let (same, rest) = separated_last c a b s t hs ht cc in
    let head : x ≡ d = cc in (rw (head, same) refl, rest)

pub drop_prefix : (p s t : Text) → p ++ s ≡ p ++ t → s ≡ t
drop_prefix p s t e = sym (drop-append p s) ∙ ap (drop (length p)) e ∙ drop-append p t

-- Texts of ASCII characters, in which the case mapping is one to one.
abbrev pub IsAscii : Text → Type 0
IsAscii = All (λ c. c < 128)

module _ (u : Unicode) where
  pub length-upper : (s : Text) → IsAscii s → length (upper u s) ≡ length s
  unfolding upper
  length-upper [] h = refl
  length-upper (c ∷ s) (hc, h) = ground (arith, length-upper s h)

  pub upper_again : (s : Text) → IsAscii s → upper u (upper u s) ≡ upper u s
  unfolding upper
  upper_again [] h = refl
  upper_again (c ∷ s) (hc, h) = ground (arith, upper_again s h)

  all_alpha-upper : (s : Text) → IsAscii s → all_alpha u s ≡ true → all_alpha u (upper u s) ≡ true
  unfolding upper all_alpha char_is_alpha
  all_alpha-upper [] h e = refl
  all_alpha-upper (c ∷ s) (hc, h) e = ground (arith, all_alpha-upper s h)

  pub is_alpha-upper : (s : Text) → IsAscii s → is_alpha u s ≡ true → is_alpha u (upper u s) ≡ true
  unfolding upper is_alpha
  is_alpha-upper [] h e = e
  is_alpha-upper (c ∷ s) (hc, h) e = ground (arith, all_alpha-upper s h)
