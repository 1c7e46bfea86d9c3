-- ===== src/Text.antt =====
-- Python's `str`: a list of code points, with the methods that the package calls.
-- The case mapping and the letter test of a code point above 127 belong to Python's Unicode
-- tables, which are not part of the repository: they are the parameter `Unicode`.
pub mod Laws
use Prim.Native.Char.{code}
use plugshub_common.Common.{
  ℕ, ◌+◌, ◌-◌, String, Bool, true, false, ◌&&◌, ◌||◌, List, [], ◌∷◌, ◌++◌, ltb, leb, ◌==◌,
  if◌then◌else◌, length, drop,
}

abbrev pub Text : Type 0
Text = List ℕ

-- The code points of a literal.
abbrev pub codes : String → Text
codes String.[] = []
codes (String.◌∷◌ c s) = code c ∷ codes s

unfoldable pub text_eq : Text → Text → Bool
text_eq [] [] = true
text_eq [] (d ∷ t) = false
text_eq (c ∷ s) [] = false
text_eq (c ∷ s) (d ∷ t) = (c == d) && text_eq s t

-- `not s`
abbrev pub is_empty : Text → Bool
is_empty [] = true
is_empty (c ∷ s) = false

-- `s.startswith(p)`
unfoldable pub starts_with : Text → Text → Bool
starts_with s [] = true
starts_with [] (d ∷ p) = false
starts_with (c ∷ s) (d ∷ p) = (c == d) && starts_with s p

-- `p in s`, for texts
unfoldable pub has_infix : Text → Text → Bool
unfolding starts_with
has_infix p [] = is_empty p
has_infix p (c ∷ s) = starts_with (c ∷ s) p || has_infix p s

-- `s in names`, for a set or tuple of texts
unfoldable pub mem : Text → List Text → Bool
unfolding text_eq
mem s [] = false
mem s (t ∷ names) = text_eq s t || mem s names

-- `s.rstrip(c)` for one character: what is left of the tail, then this character unless both are
-- to go.
unfoldable pub rstrip : ℕ → Text → Text
rstrip c [] = []
rstrip c (d ∷ s) = let t = rstrip c s in if is_empty t && (d == c) then [] else d ∷ t

-- `s.lstrip(c)` for one character
unfoldable pub lstrip : ℕ → Text → Text
lstrip c [] = []
lstrip c (d ∷ s) = let t = lstrip c s in if d == c then t else d ∷ s

abbrev pub is_upper_ascii : ℕ → Bool
is_upper_ascii c = leb b'A' c && leb c b'Z'

abbrev pub is_lower_ascii : ℕ → Bool
is_lower_ascii c = leb b'a' c && leb c b'z'

abbrev pub is_digit_ascii : ℕ → Bool
is_digit_ascii c = leb b'0' c && leb c b'9'

-- What `str.upper`, `str.lower` and `str.isalpha` do at one code point above 127.
pub record Unicode : Type 0 where
  pub upper_other : ℕ → Text
  pub lower_other : ℕ → Text
  pub is_alpha_other : ℕ → Bool

module _ (u : Unicode) where
  unfoldable pub char_upper : ℕ → Text
  char_upper c =
      if ltb c 128 then (if is_lower_ascii c then c - 32 else c) ∷ [] else u.upper_other c

  unfoldable pub char_lower : ℕ → Text
  char_lower c =
      if ltb c 128 then (if is_upper_ascii c then c + 32 else c) ∷ [] else u.lower_other c

  -- `s.upper()`
  unfoldable pub upper : Text → Text
  unfolding char_upper
  upper [] = []
  upper (c ∷ s) = char_upper c ++ upper s

  -- `s.lower()`, code point by code point: Python's one rule that looks at the context, the Greek
  -- sigma at the end of a word, is left out.
  unfoldable pub lower : Text → Text
  unfolding char_lower
  lower [] = []
  lower (c ∷ s) = char_lower c ++ lower s

  unfoldable pub char_is_alpha : ℕ → Bool
  char_is_alpha c = if ltb c 128 then is_lower_ascii c || is_upper_ascii c else u.is_alpha_other c

  all_alpha : Text → Bool
  all_alpha [] = true
  all_alpha (c ∷ s) = char_is_alpha c && all_alpha s

  -- `s.isalpha()`: not empty, and letters only.
  unfoldable pub is_alpha : Text → Bool
  unfolding all_alpha char_is_alpha
  is_alpha [] = false
  is_alpha (c ∷ s) = char_is_alpha c && all_alpha s

-- The code points at which `str.isspace` holds.
abbrev pub is_space : ℕ → Bool
is_space c =
    (leb 9 c && leb c 13)
    || (leb 28 c && leb c 32)
    || (c == 133)
    || (c == 160)
    || (c == 5760)
    || (leb 8192 c && leb c 8202)
    || (leb 8232 c && leb c 8233)
    || (c == 8239)
    || (c == 8287)
    || (c == 12288)

lstrip_space : Text → Text
lstrip_space [] = []
lstrip_space (c ∷ s) = let t = lstrip_space s in if is_space c then t else c ∷ s

rstrip_space : Text → Text
rstrip_space [] = []
rstrip_space (c ∷ s) = let t = rstrip_space s in if is_empty t && is_space c then [] else c ∷ t

-- `s.strip()`
unfoldable pub strip : Text → Text
unfolding lstrip_space rstrip_space
strip s = rstrip_space (lstrip_space s)

-- `s[len(p):] if s.startswith(p) else s`
unfoldable pub without_prefix : Text → Text → Text
unfolding starts_with
without_prefix p s = if starts_with s p then drop (length p) s else s
