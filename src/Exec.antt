-- ===== src/Exec.antt =====
-- Code that raises and changes state: a call returns its result, or the exception, and the state
-- that it leaves, since what was written before a raise stays written.
use plugshub_common.Common.{◌≡◌, refl, ◌⊎◌, inl, inr}
use plugshub_common.Errors.{Exc}

pub data Result {ℓ} (A : Type ℓ) : Type ℓ where
  ok : A → Result A
  raised : Exc → Result A

abbrev pub Exec {ℓ} : Type ℓ → Type ℓ → Type ℓ
Exec S A = S → Result A × S

module _ {ℓ} {S A : Type ℓ} where
  abbrev pub pure : A → Exec S A
  pure a s = (ok a, s)

  abbrev pub raise : Exc → Exec S A
  raise e s = (raised e, s)

module _ {ℓ} {S A B : Type ℓ} where
  abbrev pub continue : Result A → (A → Exec S B) → Exec S B
  continue (ok a) f s = f a s
  continue (raised e) f s = (raised e, s)

  infixl 10 ◌>>=◌ ◌>>◌
  abbrev pub ◌>>=◌ : Exec S A → (A → Exec S B) → Exec S B
  ◌>>=◌ m f s = let (r, s') = m s in continue r f s'

  abbrev pub ◌>>◌ : Exec S A → Exec S B → Exec S B
  m >> n = m >>= λ _. n

-- A result that changes no state.
abbrev pub lift {ℓ} : {S A : Type ℓ} → Result A → Exec S A
lift result state = (result, state)

-- A check that raises, for code that changes no state.
module _ {ℓ κ} {A : Type ℓ} {B : Type κ} where
  abbrev pub try_then : Result A → (A → Result B) → Result B
  try_then (ok a) f = f a
  try_then (raised e) f = raised e

pub Result-cases {ℓ} :
    {A : Type ℓ} (r : Result A) → ((a : A) × (r ≡ ok a)) ⊎ ((e : Exc) × (r ≡ raised e))
Result-cases (ok a) = inl (a, refl)
Result-cases (raised e) = inr (e, refl)
