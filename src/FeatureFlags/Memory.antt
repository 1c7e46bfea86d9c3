-- ===== src/FeatureFlags/Memory.antt =====
-- plugshub_common/featureflags.py: `InMemoryFeatureFlags`, and what its answers are after any
-- sequence of calls.
use plugshub_common.Common.{
  ◌≡◌, refl, sym, ap, ◌∙◌, Bool, true, false, ◌&&◌, Option, none, some, List, [], ◌∷◌, arith,
  if◌then◌else◌, or_else, later_or, later_or_assoc,
}
use plugshub_common.Text.{Text, text_eq}
use plugshub_common.Text.Laws.{text_eq_iff}
use plugshub_common.Dict.{Dict, get, insert, get-insert}

pub record InMemoryFeatureFlags : Type 0 where
  pub global : Dict Bool
  pub per_tenant : Dict (Dict Bool)

-- `InMemoryFeatureFlags(flags)`
abbrev pub in_memory : Option (Dict Bool) → InMemoryFeatureFlags
in_memory flags = record { global = or_else flags []; per_tenant = [] }

-- `per_tenant.setdefault(tenant_id, {})[flag] = enabled`
abbrev pub set_scoped : Text → Bool → Text → Dict (Dict Bool) → Dict (Dict Bool)
set_scoped flag enabled tenant_id per_tenant =
    insert tenant_id (insert flag enabled (or_else (get tenant_id per_tenant) [])) per_tenant

unfoldable pub set : Text → Bool → Option Text → InMemoryFeatureFlags → InMemoryFeatureFlags
unfolding get insert
set flag enabled none s = record s { global = insert flag enabled s.global }
set flag enabled (some tenant_id) s = record s {
  per_tenant = set_scoped flag enabled tenant_id s.per_tenant;
}

unfoldable pub enable : Text → Option Text → InMemoryFeatureFlags → InMemoryFeatureFlags
unfolding set
enable flag tenant_id s = set flag true tenant_id s

unfoldable pub disable : Text → Option Text → InMemoryFeatureFlags → InMemoryFeatureFlags
unfolding set
disable flag tenant_id s = set flag false tenant_id s

abbrev pub flag_in : Text → Option (Dict Bool) → Option Bool
flag_in flag none = none
flag_in flag (some tenant_flags) = get flag tenant_flags

-- What the tenant's own dict says of the flag.
abbrev pub scoped : Text → Option Text → Dict (Dict Bool) → Option Bool
scoped flag none per_tenant = none
scoped flag (some tenant_id) per_tenant = flag_in flag (get tenant_id per_tenant)

unfoldable pub is_enabled : Text → Option Text → Bool → InMemoryFeatureFlags → Bool
unfolding get
is_enabled flag tenant_id default s =
    or_else (scoped flag tenant_id s.per_tenant) (or_else (get flag s.global) default)

-- The calls that change the flags.
pub data Change : Type 0 where
  set_to : Text → Bool → Option Text → Change
  enabled disabled : Text → Option Text → Change

unfoldable pub step : Change → InMemoryFeatureFlags → InMemoryFeatureFlags
unfolding set enable disable
step (set_to flag b t) s = set flag b t s
step (enabled flag t) s = enable flag t s
step (disabled flag t) s = disable flag t s

unfoldable pub run : List Change → InMemoryFeatureFlags → InMemoryFeatureFlags
unfolding step
run [] s = s
run (c ∷ cs) s = run cs (step c s)

-- What one call says of a flag in a scope, a tenant or all of them.
abbrev pub same_scope : Option Text → Option Text → Bool
same_scope none none = true
same_scope none (some t) = false
same_scope (some t) none = false
same_scope (some t) (some v) = text_eq t v

abbrev pub says_if : Text → Option Text → Bool → Text → Option Text → Option Bool
says_if f t b flag scope = if text_eq f flag && same_scope t scope then some b else none

abbrev pub says : Change → Text → Option Text → Option Bool
says (set_to f b t) flag scope = says_if f t b flag scope
says (enabled f t) flag scope = says_if f t true flag scope
says (disabled f t) flag scope = says_if f t false flag scope

-- The last call for the flag in the scope.
unfoldable pub last_said : List Change → Text → Option Text → Option Bool
last_said [] flag scope = none
last_said (c ∷ cs) flag scope = later_or (last_said cs flag scope) (says c flag scope)

abbrev kept : Option Text → Text → InMemoryFeatureFlags → Option Bool
kept none flag s = get flag s.global
kept (some t) flag s = scoped flag (some t) s.per_tenant

flag_in-insert :
    (f flag : Text) (b : Bool) (o : Option (Dict Bool))
    → get flag (insert f b (or_else o [])) ≡ (if text_eq f flag then some b else flag_in flag o)
unfolding get
flag_in-insert f flag b none = get-insert f flag b []
flag_in-insert f flag b (some fs) = get-insert f flag b fs

kept-set :
    (f flag : Text) (b : Bool) (t scope : Option Text) (s : InMemoryFeatureFlags)
    → kept scope flag (set f b t s) ≡ later_or (says_if f t b flag scope) (kept scope flag s)
unfolding set
kept-set f flag b none none s = ground (arith, get-insert f flag b s.global)
kept-set f flag b none (some v) s = ground arith
kept-set f flag b (some t) none s = ground arith
kept-set f flag b (some t) (some v) s =
    let own = get t s.per_tenant in
    ground (
      arith,
      get-insert t v (insert f b (or_else own [])) s.per_tenant,
      flag_in-insert f flag b own,
      text_eq_iff t v,
    )

kept-step :
    (c : Change) (flag : Text) (scope : Option Text) (s : InMemoryFeatureFlags)
    → kept scope flag (step c s) ≡ later_or (says c flag scope) (kept scope flag s)
unfolding step enable disable
kept-step (set_to f b t) flag scope s = kept-set f flag b t scope s
kept-step (enabled f t) flag scope s = kept-set f flag true t scope s
kept-step (disabled f t) flag scope s = kept-set f flag false t scope s

kept-run :
    (cs : List Change) (flag : Text) (scope : Option Text) (s : InMemoryFeatureFlags)
    → kept scope flag (run cs s) ≡ later_or (last_said cs flag scope) (kept scope flag s)
unfolding run last_said
kept-run [] flag scope s = refl
kept-run (c ∷ cs) flag scope s =
    kept-run cs flag scope (step c s)
    ∙ ap (λ k. later_or (last_said cs flag scope) k) (kept-step c flag scope s)
    ∙ sym (later_or_assoc (last_said cs flag scope) (says c flag scope) (kept scope flag s))

-- What the calls so far say of the flag: for the tenant, then for all, then the flags given to the
-- constructor, then the default.
abbrev pub for_all : Option (Dict Bool) → List Change → Text → Bool → Bool
for_all flags cs flag default =
    or_else (last_said cs flag none) (or_else (get flag (or_else flags [])) default)

abbrev pub reference : Option (Dict Bool) → List Change → Text → Option Text → Bool → Bool
reference flags cs flag none default = for_all flags cs flag default
reference flags cs flag (some t) default =
    or_else (last_said cs flag (some t)) (for_all flags cs flag default)

or_else-later_or :
    (a b : Option Bool) (d : Bool) → or_else (later_or a b) d ≡ or_else a (or_else b d)
or_else-later_or none b d = refl
or_else-later_or (some a) b d = refl

for_all-run :
    (flags : Option (Dict Bool)) (cs : List Change) (flag : Text) (default : Bool)
    → or_else (get flag (InMemoryFeatureFlags.global (run cs (in_memory flags)))) default
      ≡ for_all flags cs flag default
for_all-run flags cs flag default =
    ap (λ k. or_else k default) (kept-run cs flag none (in_memory flags))
    ∙ or_else-later_or (last_said cs flag none) (get flag (or_else flags [])) default

-- After any sequence of `set`, `enable` and `disable`, a flag is what the last of the calls for the
-- tenant made it; with no such call, or no tenant, what the last of the calls without a tenant made
-- it; failing that what the constructor was given, and at last the default.
pub is_enabled-run :
    (flags : Option (Dict Bool)) (cs : List Change) (flag : Text) (t : Option Text) (default : Bool)
    → is_enabled flag t default (run cs (in_memory flags)) ≡ reference flags cs flag t default
unfolding is_enabled get
is_enabled-run flags cs flag none default = for_all-run flags cs flag default
is_enabled-run flags cs flag (some t) default =
    let s = run cs (in_memory flags) in
    rw (for_all-run flags cs flag default) (
      ap (λ k. or_else k (for_all flags cs flag default))
        (kept-run cs flag (some t) (in_memory flags))
      ∙ or_else-later_or (last_said cs flag (some t)) none (for_all flags cs flag default))
