-- ===== src/Authz/Scopes.antt =====
-- What an OAuth scope grants (plugshub_common/authz.py).
use plugshub_common.Common.{
  ℕ, ◌≡◌, refl, ap, ◌∙◌, true, false, ◌||◌, some, List, [], ◌∷◌, ◌++◌, arith, if◌then◌else◌, All,
}
use plugshub_common.Text.{Text, codes, mem, is_space}
use plugshub_common.Value.{Value, null, str, Fields, truthy}
use plugshub_common.Exec.{Result, ok, raised}
use plugshub_common.Authz.{Principal, has, permission_required}
use plugshub_common.Authz.Claims.{
  keep_word, words, split, claim, as_frozenset, of_scope, granted, subject_of, principal_of,
  principal_from_claims, call_checker,
}

-- A word: not empty, and without white space.
abbrev pub IsWord : Text → Type 0
IsWord [] = ⊥
IsWord (c ∷ w) = All (λ d. is_space d ≡ false) (c ∷ w)

abbrev pub join_spaces : List Text → Text
join_spaces [] = []
join_spaces (w ∷ []) = w
join_spaces (w ∷ v ∷ ws) = w ++ b' ' ∷ join_spaces (v ∷ ws)

words_end : (w : Text) → All (λ d. is_space d ≡ false) w → words w ≡ (w, [])
unfolding words
words_end [] h = refl
words_end (c ∷ w) (hc, h) = rw (words_end w h, hc) refl

words-append : (w t : Text) → All (λ d. is_space d ≡ false) w → words (w ++ b' ' ∷ t) ≡ (w, split t)
unfolding words split
words-append [] t h = refl
words-append (c ∷ w) t (hc, h) = rw (words-append w t h, hc) refl

keep_word_word : (w : Text) (ws : List Text) → IsWord w → keep_word w ws ≡ w ∷ ws
keep_word_word [] ws h = absurd h
keep_word_word (c ∷ w) ws h = refl

no_spaces : (w : Text) → IsWord w → All (λ d. is_space d ≡ false) w
no_spaces [] h = tt
no_spaces (c ∷ w) h = h

-- Words joined by spaces are split into the same words.
split-join_spaces : (ws : List Text) → All IsWord ws → split (join_spaces ws) ≡ ws
unfolding split words
split-join_spaces [] h = refl
split-join_spaces (w ∷ []) (hw, h) = rw (words_end w (no_spaces w hw)) (keep_word_word w [] hw)
split-join_spaces (w ∷ v ∷ ws) (hw, h) =
    rw (words-append w (join_spaces (v ∷ ws)) (no_spaces w hw), split-join_spaces (v ∷ ws) h)
      (keep_word_word w (v ∷ ws) hw)

module _ (to_text : Value → Text) (iterate : ℕ → Result (List Text)) where
  truthy_scope : (w : Text) (ws : List Text) → IsWord w → truthy (str (join_spaces (w ∷ ws))) ≡ true
  truthy_scope [] ws h = absurd h
  truthy_scope (c ∷ w) [] h = refl
  truthy_scope (c ∷ w) (v ∷ ws) h = refl

  granted_scope :
      (claims : Fields) (w : Text) (ws : List Text)
      → claim (codes "permissions") claims ≡ null
      → claim (codes "scope") claims ≡ str (join_spaces (w ∷ ws))
      → All IsWord (w ∷ ws)
      → granted to_text iterate claims ≡ ok (w ∷ ws)
  unfolding granted of_scope
  granted_scope claims w ws none_given scope (hw, h) =
      rw (none_given, scope, truthy_scope w ws hw) (ap ok (split-join_spaces (w ∷ ws) (hw, h)))

  call_checker-has :
      (p : Principal) (permission : Text)
      → call_checker (record { permission = permission }) (ok (some p))
        ≡ (if has p permission then ok p else raised (permission_required permission))
  unfolding call_checker
  call_checker-has p permission = ground arith

  has_permissions :
      (claims : Fields) (roles permissions : List Text) (permission : Text)
      → has (principal_of to_text iterate claims roles permissions) permission
        ≡ (mem (codes "*") permissions || mem permission permissions)
  unfolding has principal_of
  has_permissions claims roles permissions permission = refl

  -- A token with a subject, roles that can be listed and no `permissions` claim, whose scope is words
  -- joined by spaces, makes a principal whom a checker lets through for exactly those words, or for
  -- everything if one of them is "*"; for any other permission it is 403.
  pub call_checker-scope :
      (claims : Fields) (roles : List Text) (w : Text) (ws : List Text)
      → truthy (subject_of to_text iterate claims) ≡ true
      → as_frozenset to_text iterate (claim (codes "roles") claims) ≡ ok roles
      → claim (codes "permissions") claims ≡ null
      → claim (codes "scope") claims ≡ str (join_spaces (w ∷ ws))
      → All IsWord (w ∷ ws)
      → (p : Principal) × (principal_from_claims to_text iterate claims ≡ ok p)
        × ((permission : Text)
            → call_checker (record { permission = permission }) (ok (some p)) ≡ (
                if mem (codes "*") (w ∷ ws) || mem permission (w ∷ ws)
                then ok p
                else raised (permission_required permission)))
  unfolding principal_from_claims
  call_checker-scope claims roles w ws subject listed none_given scope h =
      let p = principal_of to_text iterate claims roles (w ∷ ws) in
      (
        p,
        rw (subject, listed, granted_scope claims w ws none_given scope h) refl,
        λ permission.
            call_checker-has p permission
            ∙ ap (λ b. if b then ok p else raised (permission_required permission))
                (has_permissions claims roles (w ∷ ws) permission),
      )
