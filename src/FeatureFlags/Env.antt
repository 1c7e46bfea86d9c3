-- ===== src/FeatureFlags/Env.antt =====
-- plugshub_common/featureflags.py: `EnvFeatureFlags`. `getenv` is `os.getenv`.
use plugshub_common.Common.{
  ℕ, suc, ◌-◌, ◌≡◌, refl, ap, ◌∙◌, Bool, true, false, ◌||◌, ◌&&◌, arith, Bool-cases, inl, inr,
  length, all, Option, none, some, List, [], ◌∷◌, ◌++◌, ◌==◌, if◌then◌else◌,
}
use plugshub_common.Text.{
  Text, codes, mem, Unicode, char_upper, upper, lower, strip, is_upper_ascii, is_lower_ascii,
  is_digit_ascii,
}

-- `_TRUTHY`, in both providers
abbrev pub truthy_texts : List Text
truthy_texts = codes "1" ∷ codes "true" ∷ codes "yes" ∷ codes "on" ∷ []

-- `s.replace(a, b)`, for single characters
abbrev pub replace_char : ℕ → ℕ → Text → Text
replace_char a b [] = []
replace_char a b (c ∷ s) = (if c == a then b else c) ∷ replace_char a b s

last_two : (a b x y : Bool) → a ≡ false → b ≡ false → a || b || x || y ≡ true → x || y ≡ true
last_two a b x y ha hb h = ground (arith, ha, hb, h)

both : (a b : Bool) → a && b ≡ true → (a ≡ true) × (b ≡ true)
both a b h = (ground (arith, h), ground (arith, h))

module _ (u : Unicode) where
  -- `raw.strip().lower() in self._TRUTHY`
  unfoldable pub is_truthy : Text → Bool
  unfolding lower strip mem
  is_truthy raw = mem (lower u (strip raw)) truthy_texts

  unfoldable pub env_name : Text → Text → Text
  unfolding upper
  env_name prefix flag = prefix ++ upper u (replace_char b'-' b'_' (replace_char b'.' b'_' flag))

  unfoldable pub is_enabled : (Text → Option Text) → Text → Text → Option Text → Bool → Bool
  unfolding env_name is_truthy
  is_enabled getenv prefix flag tenant_id default = elim (getenv (env_name prefix flag)) [
    | none ↦ default
    | some raw ↦ is_truthy raw
  ]

  -- Characters that a shell takes in the name of a variable, and those of a flag's name.
  abbrev pub is_name_char : ℕ → Bool
  is_name_char c = is_upper_ascii c || is_digit_ascii c || (c == b'_')

  abbrev pub is_flag_char : ℕ → Bool
  is_flag_char c = is_name_char c || is_lower_ascii c || (c == b'.') || (c == b'-')

  abbrev plain_char : ℕ → ℕ
  plain_char c = let d = (if c == b'.' then b'_' else c) in if d == b'-' then b'_' else d

  char_upper_lower : (c : ℕ) → is_lower_ascii c ≡ true → char_upper u c ≡ (c - 32) ∷ []
  unfolding char_upper
  char_upper_lower c h = ground (arith, h)

  char_upper_other : (c : ℕ) → is_name_char c ≡ true → char_upper u c ≡ c ∷ []
  unfolding char_upper
  char_upper_other c h = ground (arith, h)

  plain_char_lower : (c : ℕ) → is_lower_ascii c ≡ true → plain_char c ≡ c
  plain_char_lower c h = ground (arith, h)

  plain_char_other : (c : ℕ) → is_name_char c ≡ true → plain_char c ≡ c
  plain_char_other c h = ground (arith, h)

  capital : (c : ℕ) → is_lower_ascii c ≡ true → is_name_char (c - 32) ≡ true
  capital c h = ground (arith, h)

  -- One character of the name for each of the flag.
  abbrev Named : ℕ → Type 0
  Named c = (d : ℕ) × (char_upper u (plain_char c) ≡ d ∷ []) × (is_name_char d ≡ true)

  mark-Named : (c : ℕ) → (c == b'.') || (c == b'-') ≡ true → Named c
  unfolding char_upper
  mark-Named c h = (b'_', ap (char_upper u) (plain c h), refl)
    where
      plain : (c : ℕ) → (c == b'.') || (c == b'-') ≡ true → plain_char c ≡ b'_'
      plain c h = ground (arith, h)

  flag_char-Named : (c : ℕ) → is_flag_char c ≡ true → Named c
  flag_char-Named c h = elim (Bool-cases (is_name_char c)) [
    | inl name ↦ (c, ap (char_upper u) (plain_char_other c name) ∙ char_upper_other c name, name)
    | inr other ↦ elim (Bool-cases (is_lower_ascii c)) [
      | inl lower_case ↦ (
        c - 32,
        ap (char_upper u) (plain_char_lower c lower_case) ∙ char_upper_lower c lower_case,
        capital c lower_case,
      )
      | inr mark ↦
          mark-Named c
            (last_two (is_name_char c) (is_lower_ascii c) (c == b'.') (c == b'-') other mark h)
    ]
  ]

  -- A flag name of ASCII letters, digits, dots, dashes and underscores is looked up in a variable
  -- whose name is the prefix and then capitals, digits and underscores, one for each character.
  pub env_name_portable :
      (prefix flag : Text)
      → all is_flag_char flag ≡ true
      → (name : Text) × (env_name prefix flag ≡ prefix ++ name)
        × (all is_name_char name ≡ true)
        × (length name ≡ length flag)
  unfolding env_name upper
  env_name_portable prefix [] h = ([], refl, refl, refl)
  env_name_portable prefix (c ∷ flag) h =
      let (this, others) = both (is_flag_char c) (all is_flag_char flag) h in
      let (d, one, capital_d) = flag_char-Named c this in
      let (name, rest, named, long) = env_name_portable [] flag others in
      (
        d ∷ name,
        ap (λ l. prefix ++ l) (ap (λ l. l ++ env_name [] flag) one ∙ ap (λ l. d ∷ l) rest),
        ap (λ b. b && all is_name_char name) capital_d ∙ named,
        ap suc long,
      )
