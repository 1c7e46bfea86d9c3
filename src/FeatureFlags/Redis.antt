-- ===== src/FeatureFlags/Redis.antt =====
-- plugshub_common/featureflags.py: `RedisFeatureFlags`. The client's `get` is a parameter: a call
-- that answers or raises, and may change the client's own state `W`. So are `decode`, UTF-8 with
-- replacement characters, and `to_text`, the `str` of whatever else the client answers with.
use plugshub_common.Common.{ℕ, Bool, Option, none, some, List, ◌∷◌, ◌++◌, if◌then◌else◌, or_else}
use plugshub_common.Text.{Text, Unicode}
use plugshub_common.Value.{Value}
use plugshub_common.Errors.{is_exception}
use plugshub_common.Exec.{Result, ok, raised, try_then, Exec, pure, ◌>>=◌}
use plugshub_common.FeatureFlags.Env.{is_truthy}

-- What the client answers with: None, bytes, or another object.
pub data Raw : Type 0 where
  absent : Raw
  bytes : List ℕ → Raw
  value : Value → Raw

abbrev pub global_key : Text → Text → Text
global_key prefix flag = prefix ++ flag

abbrev pub scoped_key : Text → Text → Text → Text
scoped_key prefix tenant_id flag = prefix ++ (tenant_id ++ b':' ∷ flag)

module _ (u : Unicode) (decode : List ℕ → Text) (to_text : Value → Result Text) where
  -- `_coerce`
  unfoldable pub coerce : Raw → Result (Option Bool)
  unfolding is_truthy
  coerce absent = ok none
  coerce (bytes b) = ok (some (is_truthy u (decode b)))
  coerce (value v) = try_then (to_text v) (λ t. ok (some (is_truthy u t)))

module _ {W : Type 0} (u : Unicode) (decode : List ℕ → Text) (to_text : Value → Result Text)
    (get : Text → Exec W Raw) where
  -- `self._coerce(self._client.get(key))`
  unfoldable pub look_up : Text → Exec W (Option Bool)
  unfolding coerce
  look_up key = get key >>= λ raw. λ w. (coerce u decode to_text raw, w)

  -- The body of the `try`; `none` is the answer that leaves `default`.
  unfoldable pub find_flag : Text → Text → Option Text → Exec W (Option Bool)
  unfolding look_up
  find_flag prefix flag none = look_up (global_key prefix flag)
  find_flag prefix flag (some tenant_id) = look_up (scoped_key prefix tenant_id flag) >>= λ scoped.
      elim scoped [ none ↦ look_up (global_key prefix flag) | some b ↦ pure (some b) ]

  abbrev pub answer : Bool → Result (Option Bool) → Result Bool
  answer default (ok found) = ok (or_else found default)
  answer default (raised e) = if is_exception e then ok default else raised e

  unfoldable pub is_enabled : Text → Text → Option Text → Bool → Exec W Bool
  unfolding find_flag
  is_enabled prefix flag tenant_id default w =
      let (found, w') = find_flag prefix flag tenant_id w in (answer default found, w')
