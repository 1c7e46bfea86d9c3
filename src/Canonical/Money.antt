-- ===== src/Canonical/Money.antt =====
-- plugshub_common/canonical.py: amounts of money. `to_int` and `to_text` are Python's `int` and
-- `str`, whose only use here is on an amount and a code; a value that is no integer has no place in
-- an amount but in the constructor's check of its type.
pub mod Wire
use plugshub_common.Common.{
  ℕ, zero, suc, ◌+◌, ◌-◌, ◌*◌, ◌^◌, ◌≤◌, ◌<◌, String, ◌≡◌, refl, sym, ap, ◌∙◌, subst, ◌≢◌, ◌↔◌, ◌⊎◌,
  inl, inr, Bool, true, false, not, ◌&&◌, ◌||◌, Option, none, some, List, [], ◌∷◌, ◌++◌, map,
  append_assoc, append-nil, arith, ltb, leb, ◌==◌, if◌then◌else◌, ==_iff, Bool-cases, Option-cases,
  is_some, or_else, length, replicate, take, drop, all, any, length-append, length-take_le,
  take_all, All, All-append,
}
use plugshub_common.Common.Int.{ℤ, ◌+ℤ◌, ◌-ℤ◌}
use plugshub_common.Text.{Text, codes, text_eq, Unicode, upper, is_alpha}
use plugshub_common.Value.{
  Value, null, bool, int, str, list, dict, object, Fields, end, field, get_field,
}
use plugshub_common.Errors.{Exc, value_error, type_error, key_error}
use plugshub_common.Exec.{Result, ok, raised, try_then}

pub record Money : Type 0 where
  pub minor_units : ℤ
  pub currency : Text

abbrev pub bad_amount : Exc
bad_amount = type_error (codes "minor_units MUST be an int (integer minor units, never a float)")

abbrev pub bad_currency : Exc
bad_currency = value_error (codes "currency MUST be a 3-letter ISO-4217 code")

abbrev pub differ : Text → Text → Exc
differ a b =
    value_error (codes "cannot combine " ++ a ++ codes " and " ++ b ++ codes " — currencies differ")

module _ (u : Unicode) where
  -- What `__post_init__` makes of the currency.
  unfoldable pub check_currency : ℤ → Value → Result Money
  check_currency n (str code) =
      if not (length code == 3) || not (is_alpha u code)
      then raised bad_currency
      else ok (record { minor_units = n; currency = upper u code })
  check_currency n _ = raised bad_currency

  -- The constructor, with `__post_init__`.
  unfoldable pub make_money : Value → Value → Result Money
  unfolding check_currency
  make_money (int n) currency = check_currency n currency
  make_money _ currency = raised bad_amount

  -- `_check_same_currency`
  abbrev pub same_currency : Money → Money → Result (Unit {0})
  same_currency a b =
      if not (text_eq a.currency b.currency) then raised (differ a.currency b.currency) else ok tt

  unfoldable pub add : Money → Money → Result Money
  unfolding make_money text_eq ◌+ℤ◌
  add a b =
      try_then (same_currency a b)
        (λ _. make_money (int (a.minor_units +ℤ b.minor_units)) (str a.currency))

  unfoldable pub subtract : Money → Money → Result Money
  unfolding make_money text_eq ◌-ℤ◌
  subtract a b =
      try_then (same_currency a b)
        (λ _. make_money (int (a.minor_units -ℤ b.minor_units)) (str a.currency))

  unfoldable pub to_dict : Money → Fields
  to_dict m =
      field (codes "minor_units") (int m.minor_units)
        (field (codes "currency") (str m.currency) end)

  abbrev pub item : Text → Fields → Result Value
  item k d = elim (get_field k d) [ none ↦ raised (key_error k) | some v ↦ ok v ]

  unfoldable pub from_dict : (Value → Result ℤ) → (Value → Text) → Fields → Result Money
  unfolding make_money get_field text_eq
  from_dict to_int to_text source = try_then (item (codes "minor_units") source) λ n.
      try_then (to_int n) λ units.
        try_then (item (codes "currency") source) λ c. make_money (int units) (str (to_text c))
