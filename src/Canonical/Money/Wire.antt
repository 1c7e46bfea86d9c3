-- ===== src/Canonical/Money/Wire.antt =====
-- Amounts of money on the wire and in sums (plugshub_common/canonical.py).
use plugshub_common.Common.{
  ◌≡◌, refl, sym, ap, ◌∙◌, ◌≢◌, ◌⊎◌, inl, inr, true, arith, Bool-cases, length,
}
use plugshub_common.Common.Int.{ℤ, ◌+ℤ◌, ◌-ℤ◌, int_laws, +ℤ_parts, -ℤ_parts, eq_of_parts}
use plugshub_common.Text.{Text, text_eq, Unicode, upper, is_alpha}
use plugshub_common.Text.Laws.{
  text_eq_iff, eq_of_text_eq, IsAscii, length-upper, upper_again, is_alpha-upper,
}
use plugshub_common.Value.{Value, null, bool, int, str, list, dict, object, get_field}
use plugshub_common.Exec.{Result, ok, raised}
use plugshub_common.Canonical.Money.{
  Money, bad_currency, check_currency, make_money, differ, same_currency, add, subtract, to_dict,
  from_dict,
}

module _ (u : Unicode) where
  -- A currency in the form in which it is stored.
  pub record IsStored (m : Money) : Type 0 where
    pub three : length m.currency ≡ 3
    pub letters : is_alpha u m.currency ≡ true
    pub in_capitals : upper u m.currency ≡ m.currency

  -- A code of ASCII letters is stored in capitals, and reads back as it is stored.
  check_currency-IsStored :
      (n : ℤ) (c : Text) (m : Money) → IsAscii c → check_currency u n (str c) ≡ ok m → IsStored m
  unfolding check_currency
  check_currency-IsStored n c m a h =
      let e : m.currency ≡ upper u c = ground (arith, h) in
      let three = length-upper u c a in
      let letters = is_alpha-upper u c a in
      record {
        three = ap length e ∙ three ∙ ground (arith, h);
        letters = ap (is_alpha u) e ∙ letters (ground (arith, h));
        in_capitals = ap (upper u) e ∙ upper_again u c a ∙ sym e;
      }

  check_currency_self :
      (m : Money) → IsStored m → check_currency u m.minor_units (str m.currency) ≡ ok m
  unfolding check_currency
  check_currency_self m v = ground (arith, v.three, v.letters, v.in_capitals)

  -- What `to_dict` writes, `from_dict` reads back, if `int` of an `int` and `str` of a text are that
  -- value: an amount in a currency of ASCII letters survives the wire.
  pub from_dict-to_dict :
      (to_int : Value → Result ℤ) (to_text : Value → Text)
      → ((n : ℤ) → to_int (int n) ≡ ok n)
      → ((t : Text) → to_text (str t) ≡ t)
      → (v : Value) (c : Text) (m : Money) → IsAscii c
      → make_money u v (str c) ≡ ok m
      → from_dict u to_int to_text (to_dict u m) ≡ ok m
  unfolding from_dict to_dict make_money get_field text_eq
  from_dict-to_dict to_int to_text int_same text_same (int n) c m a h =
      let stored = check_currency-IsStored n c m a h in
      rw (int_same m.minor_units, text_same m.currency) (check_currency_self m stored)
  from_dict-to_dict to_int to_text int_same text_same null c m a h = ground (arith, h)
  from_dict-to_dict to_int to_text int_same text_same (bool b) c m a h = ground (arith, h)
  from_dict-to_dict to_int to_text int_same text_same (str t) c m a h = ground (arith, h)
  from_dict-to_dict to_int to_text int_same text_same (list l) c m a h = ground (arith, h)
  from_dict-to_dict to_int to_text int_same text_same (dict d) c m a h = ground (arith, h)
  from_dict-to_dict to_int to_text int_same text_same (object k) c m a h = ground (arith, h)

  ℤ_sub_add : (a b : ℤ) → (a +ℤ b) -ℤ b ≡ a
  ℤ_sub_add a b = omega (int_laws, eq_of_parts ((a +ℤ b) -ℤ b) a, +ℤ_parts a b, -ℤ_parts (a +ℤ b) b)

  same_currency_eq : (a b : Money) → a.currency ≡ b.currency → same_currency u a b ≡ ok tt
  same_currency_eq a b e = ground (arith, text_eq_iff a.currency b.currency, e)

  -- Adding and subtracting in one currency, whose result is stored as it is.
  add_same :
      (a b : Money)
      → IsStored a
      → a.currency ≡ b.currency
      → add u a b ≡ ok (record a { minor_units = a.minor_units +ℤ b.minor_units })
  unfolding add make_money
  add_same a b v e =
      rw (same_currency_eq a b e)
        (check_currency_self (record a { minor_units = a.minor_units +ℤ b.minor_units }) (stored v))
    where
      stored : IsStored a → IsStored (record a { minor_units = a.minor_units +ℤ b.minor_units })
      stored v = record { three = v.three; letters = v.letters; in_capitals = v.in_capitals }

  subtract_same :
      (a b : Money) (n : ℤ)
      → IsStored a
      → a.currency ≡ b.currency
      → n ≡ a.minor_units +ℤ b.minor_units
      → subtract u (record a { minor_units = n }) b ≡ ok a
  unfolding subtract make_money
  subtract_same a b n v e h =
      rw
        (
          same_currency_eq (record a { minor_units = n }) b e,
          h,
          ℤ_sub_add a.minor_units b.minor_units,
        )
        (check_currency_self a v)

  -- An amount whose currency is three letters in capitals is added to another exactly when the
  -- currencies are the same; otherwise it is a `ValueError` that names both. The sum has the sum of
  -- the units, and taking the second amount off it gives the first again.
  pub subtract-add :
      (a b : Money)
      → IsStored a
      → ((s : Money) × (add u a b ≡ ok s)
          × (s.minor_units ≡ a.minor_units +ℤ b.minor_units)
          × (subtract u s b ≡ ok a)
          × (a.currency ≡ b.currency))
        ⊎ ((add u a b ≡ raised (differ a.currency b.currency)) × (a.currency ≢ b.currency))
  unfolding add
  subtract-add a b v = elim (Bool-cases (text_eq a.currency b.currency)) [
    | inl same ↦
        let e = eq_of_text_eq a.currency b.currency same in
        inl (
          record a { minor_units = a.minor_units +ℤ b.minor_units },
          add_same a b v e,
          refl,
          subtract_same a b (a.minor_units +ℤ b.minor_units) v e refl,
          e,
        )
    | inr other ↦
        inr (rw other refl, λ e. ground (arith, text_eq_iff a.currency b.currency, other, e))
  ]

  check_currency_long :
      (n : ℤ) (c : Text) → length c ≢ 3 → check_currency u n (str c) ≡ raised bad_currency
  unfolding check_currency
  check_currency_long n c long = ground (arith, long)

  -- A code of three letters whose upper case is not three code points long, such as "ßßß", makes an
  -- amount that cannot be used: adding it to itself, and reading what `to_dict` writes for it, is the
  -- `ValueError` of a bad currency, if `int` of an `int` and `str` of a text are that value.
  pub make_money_unusable :
      (to_int : Value → Result ℤ) (to_text : Value → Text)
      → ((n : ℤ) → to_int (int n) ≡ ok n)
      → ((t : Text) → to_text (str t) ≡ t)
      → (n : ℤ) (c : Text) → length c ≡ 3
      → is_alpha u c ≡ true
      → length (upper u c) ≢ 3
      → (m : Money) × (make_money u (int n) (str c) ≡ ok m)
        × (add u m m ≡ raised bad_currency)
        × (from_dict u to_int to_text (to_dict u m) ≡ raised bad_currency)
  unfolding from_dict to_dict make_money check_currency add get_field text_eq
  make_money_unusable to_int to_text int_same text_same n c three letters long =
      let m : Money = record { minor_units = n; currency = upper u c } in
      let refused : (k : ℤ) → check_currency u k (str (upper u c)) ≡ raised bad_currency =
        λ k. check_currency_long k (upper u c) long in
      (
        m,
        ground (arith, three, letters),
        rw (same_currency_eq m m refl) (refused (n +ℤ n)),
        rw (int_same n, text_same (upper u c)) (refused n),
      )
