-- ===== src/Db/Resolver/Schemas.antt =====
-- Which schema a tenant id resolves to.
use plugshub_common.Common.{
  ◌≡◌, refl, sym, ap, ◌∙◌, subst, ◌≢◌, ◌⊎◌, inl, inr, Bool, true, false, some, List, [], ◌∷◌, ◌++◌,
  arith, Bool-cases, drop, All,
}
use plugshub_common.Text.{Text, Unicode, mem, text_eq, without_prefix, starts_with}
use plugshub_common.Text.Laws.{eq_of_text_eq, without_prefix-append}
use plugshub_common.Errors.{Exc}
use plugshub_common.Exec.{Result, ok, raised, Exec, continue, Result-cases}
use plugshub_common.Float.{Float}
use plugshub_common.Tenant.{validate_tenant, prefix}
use plugshub_common.Tenant.Charset.{NamesThenNewline}
use plugshub_common.Tenant.Layers.{validate_tenant_sound, validate_tenant_modes}
use plugshub_common.Db.Resolver.{Resolving, is_stale, get_tenants, schema_of, resolve}
use plugshub_common.Db.Resolver.Cache.{get_tenants-cache, get_tenants_cases}

-- No bare name starts with the prefix itself.
abbrev pub IsBare : List Text → Type 0
IsBare names = All (λ n. starts_with n prefix ≡ false) names

mem-IsBare :
    (t : Text) (names : List Text)
    → IsBare names
    → mem t names ≡ true
    → starts_with t prefix ≡ false
unfolding mem
mem-IsBare t [] h m = cc
mem-IsBare t (n ∷ names) h m = elim (Bool-cases (text_eq t n)) [
  | inl same ↦ rw (eq_of_text_eq t n same) h.0
  | inr other ↦ mem-IsBare t names h.1 (ground arith)
]

-- Where no name is prefixed, an id that is listed, whole or bare, is listed bare.
in_names :
    (t : Text) (names : List Text)
    → IsBare names
    → (mem (without_prefix prefix t) names ≡ true) ⊎ (mem t names ≡ true)
    → mem (without_prefix prefix t) names ≡ true
unfolding without_prefix
in_names t names bare (inl m) = m
in_names t names bare (inr m) = rw (mem-IsBare t names bare m) m

module _ (fl : Float) {W : Type 0} (u : Unicode) (clock : W → fl.F)
    (discover : Exec (Resolving fl W) (List Text)) where
  schema_of_sound :
      (t : Text) (names : List Text) (schema : Text)
      → IsBare names
      → schema_of fl u clock discover t names ≡ ok schema
      → (x : Text) × (schema ≡ prefix ++ x)
        × (mem x names ≡ true)
        × (x ≡ without_prefix prefix t)
        × NamesThenNewline t
  unfolding schema_of
  schema_of_sound t names schema bare h =
      elim (Result-cases (validate_tenant u t (some names) true)) [
        | inr (e, refused) ↦ absurd (ground arith)
        | inl (v, valid) ↦
            let valid_true : validate_tenant u t (some names) true ≡ ok true =
              ok_true v valid (validate_tenant_modes u t (some names)).1 in
            let (listed, least, most, charset) = validate_tenant_sound u t names true valid_true in
            (without_prefix prefix t, ground arith, in_names t names bare listed, refl, charset)
      ]
    where
      ok_true : (v : Bool) {r : Result Bool} → r ≡ ok v → r ≢ ok false → r ≡ ok true
      ok_true true e ne = e
      ok_true false e ne = absurd (ne e)

  resolve_names :
      (t : Text) (s : Resolving fl W) (names : List Text)
      → (get_tenants fl u clock discover false s).0 ≡ ok names
      → resolve fl u clock discover t s
        ≡ (schema_of fl u clock discover t names, (get_tenants fl u clock discover false s).1)
  unfolding resolve
  resolve_names t s names e = rw (e, continue)

  resolve_raised :
      (t : Text) (s : Resolving fl W) (e : Exc)
      → (get_tenants fl u clock discover false s).0 ≡ raised e
      → (resolve fl u clock discover t s).0 ≡ raised e
  unfolding resolve
  resolve_raised t s e h = rw (h, continue)

  resolve_ok :
      (t : Text) (s : Resolving fl W) (schema : Text)
      → (resolve fl u clock discover t s).0 ≡ ok schema
      → schema_of fl u clock discover t (resolve fl u clock discover t s).1.resolver.cache
        ≡ ok schema
  resolve_ok t s schema h = elim (Result-cases (get_tenants fl u clock discover false s).0) [
    | inr (e, failed) ↦ absurd (ground (arith, resolve_raised t s e failed))
    | inl (names, e) ↦
        let same = resolve_names t s names e in
        let cached = get_tenants-cache fl u clock discover false s names e in
        ap (λ p. schema_of fl u clock discover t p.1.resolver.cache) same
        ∙ ap (schema_of fl u clock discover t) cached
        ∙ sym (ap (λ p. p.0) same)
        ∙ h
  ]

  -- A tenant id that resolves gives the schema "tenant" followed by a bare name x, where x is the id
  -- without its prefix. If no name of the live set starts with "tenant" itself, x is in the live set
  -- that the resolver holds after the call, and the id is made of letters, digits and dashes, but
  -- for one newline that may end it. So there is no fallback schema.
  pub resolve_sound :
      (t : Text) (s : Resolving fl W) (schema : Text)
      → IsBare (resolve fl u clock discover t s).1.resolver.cache
      → (resolve fl u clock discover t s).0 ≡ ok schema
      → (x : Text) × (schema ≡ prefix ++ x)
        × (mem x (resolve fl u clock discover t s).1.resolver.cache ≡ true)
        × (x ≡ without_prefix prefix t)
        × NamesThenNewline t
  resolve_sound t s schema bare h = schema_of_sound t _ schema bare (resolve_ok t s schema h)

  schema_of_ok :
      (t : Text) (names : List Text)
      → validate_tenant u t (some names) true ≡ ok true
      → schema_of fl u clock discover t names ≡ ok (prefix ++ without_prefix prefix t)
  unfolding schema_of
  schema_of_ok t names h = rw (h, schema_of)

  -- If the loaded live set holds "tenant" followed by x, but not x, then the id "tenant" followed by
  -- x, which validation accepts as that name, resolves to the schema "tenant" followed by x; and no
  -- name of the live set gives that schema when it is prefixed.
  pub resolve_unlisted :
      (x : Text) (s : Resolving fl W)
      → is_stale fl false (clock s.world) s.resolver ≡ false
      → mem x s.resolver.cache ≡ false
      → validate_tenant u (prefix ++ x) (some s.resolver.cache) true ≡ ok true
      → (resolve fl u clock discover (prefix ++ x) s ≡ (ok (prefix ++ x), s))
        × ((y : Text) → prefix ++ x ≡ prefix ++ y → mem y s.resolver.cache ≡ false)
  resolve_unlisted x s fresh unlisted valid =
      let cached = (get_tenants_cases fl u clock discover false s).0 fresh in
      (
        resolve_names (prefix ++ x) s s.resolver.cache (ap (λ p. p.0) cached)
            ∙ ap {B = Result Text × Resolving fl W}
                (λ p. (schema_of fl u clock discover (prefix ++ x) s.resolver.cache, p.1)) cached
            ∙ ap {B = Result Text × Resolving fl W} (λ r. (r, s)) (schema_of_ok _ _ valid)
            ∙ ap {B = Result Text × Resolving fl W} (λ y. (ok (prefix ++ y), s))
                (without_prefix-append prefix x),
        λ y e. subst (λ z. mem z s.resolver.cache ≡ false) (ap (drop 6) e) unlisted,
      )
