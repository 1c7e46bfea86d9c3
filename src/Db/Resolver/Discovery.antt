-- ===== src/Db/Resolver/Discovery.antt =====
-- Which names the discovery of the live schemas gives.
use plugshub_common.Common.{
  ◌≡◌, refl, ap, ◌∙◌, inl, inr, Bool, true, ◌||◌, List, [], ◌∷◌, ◌++◌, map, arith, Bool-cases,
}
use plugshub_common.Text.{Text, mem, text_eq, without_prefix}
use plugshub_common.Text.Laws.{eq_of_text_eq, without_prefix-append}
use plugshub_common.Value.{Value, str}
use plugshub_common.Exec.{ok}
use plugshub_common.Tenant.{prefix}
use plugshub_common.Db.Driver.{Row}
use plugshub_common.Db.Resolver.{add_name, collect}

mem-append :
    (y n : Text) (names : List Text) → mem y (names ++ n ∷ []) ≡ (mem y names || text_eq y n)
unfolding mem
mem-append y n [] = ground arith
mem-append y n (m ∷ names) = ground (arith, mem-append y n names)

or_absorb : (a b : Bool) → (b ≡ true → a ≡ true) → a ≡ (a || b)
or_absorb a b h = ground arith

mem-add_name :
    (y n : Text) (names : List Text) → mem y (add_name n names) ≡ (mem y names || text_eq y n)
mem-add_name y n names = elim (Bool-cases (mem n names)) [
  | inl old ↦ rw old (or_absorb (mem y names) (text_eq y n) (λ e. rw (eq_of_text_eq y n e) old))
  | inr new ↦ rw new (mem-append y n names)
]

-- The row that `SHOW DATABASES` gives for the schema of a bare name.
abbrev pub schema_row : Text → Row
schema_row x = str (prefix ++ x) ∷ []

or_assoc : (a b c : Bool) → ((a || b) || c) ≡ (a || (b || c))
or_assoc a b c = ground arith

module _ (to_text : Value → Text) (shown : (t : Text) → to_text (str t) ≡ t) where
  collect_from :
      (xs names : List Text)
      → (found : List Text) × (collect to_text (map schema_row xs) names ≡ ok found)
        × ((y : Text) → mem y found ≡ (mem y names || mem y xs))
  unfolding collect mem
  collect_from [] names = (names, refl, λ y. ground arith)
  collect_from (x ∷ xs) names =
      let (found, e, h) = collect_from xs (add_name x names) in
      (
        found,
        ap (λ n. collect to_text (map schema_row xs) (add_name n names))
              (ap (without_prefix prefix) (shown (prefix ++ x)) ∙ without_prefix-append prefix x)
            ∙ e,
        λ y.
            h y
            ∙ ap (λ b. b || mem y xs) (mem-add_name y x names)
            ∙ or_assoc (mem y names) (text_eq y x) (mem y xs),
      )

  -- From the rows of any tenant schemas the discovery gives exactly their bare names: it raises
  -- nothing, and a name is found exactly when its schema is among the rows.
  pub collect_schemas :
      (xs : List Text)
      → (found : List Text) × (collect to_text (map schema_row xs) [] ≡ ok found)
        × ((y : Text) → mem y found ≡ mem y xs)
  unfolding mem
  collect_schemas xs = collect_from xs []
