-- ===== src/Value.antt =====
-- The values that Python code passes around untyped (`Any`): what JSON can hold, and any other
-- object, told apart by a number. `Fields` is a `Dict[str, Any]`, in insertion order.
use plugshub_common.Common.{
  ℕ, zero, suc, ◌≡◌, refl, Bool, true, false, Option, none, some, [], ◌∷◌, arith, if◌then◌else◌,
}
use plugshub_common.Common.Int.{ℤ, pos, negsuc}
use plugshub_common.Text.{Text, text_eq}
use plugshub_common.Text.Laws.{text_eq_iff}

mutual
  pub data Value : Type 0 where
    null : Value
    bool : Bool → Value
    int : ℤ → Value
    str : Text → Value
    list : Items → Value
    dict : Fields → Value
    object : ℕ → Value

  pub data Items : Type 0 where
    nil : Items
    cons : Value → Items → Items

  pub data Fields : Type 0 where
    end : Fields
    field : Text → Value → Fields → Fields

-- `d.get(k)`
unfoldable pub get_field : Text → Fields → Option Value
get_field k end = none
get_field k (field j v d) = if text_eq j k then some v else get_field k d

-- `d[k] = v`
unfoldable pub set_field : Text → Value → Fields → Fields
set_field k v end = field k v end
set_field k v (field j w d) = if text_eq j k then field j v d else field j w (set_field k v d)

abbrev pub is_end : Fields → Bool
is_end end = true
is_end (field k v d) = false

-- The value of an `Optional[str]`.
abbrev pub opt_str : Option Text → Value
opt_str none = null
opt_str (some t) = str t

-- `bool(v)`; an object of a class without `__bool__` is true.
abbrev pub truthy : Value → Bool
truthy null = false
truthy (bool b) = b
truthy (int (pos zero)) = false
truthy (int (pos (suc n))) = true
truthy (int (negsuc n)) = true
truthy (str []) = false
truthy (str (c ∷ t)) = true
truthy (list nil) = false
truthy (list (cons v vs)) = true
truthy (dict end) = false
truthy (dict (field k v d)) = true
truthy (object n) = true

pub get_field-set_field :
    (k j : Text) (v : Value) (d : Fields)
    → get_field j (set_field k v d) ≡ (if text_eq k j then some v else get_field j d)
unfolding get_field set_field
get_field-set_field k j v end = refl
get_field-set_field k j v (field i w d) =
    ground (arith, text_eq_iff k j, text_eq_iff i k, text_eq_iff i j, get_field-set_field k j v d)
