-- ===== src/Messaging/Overlap/Tests.antt =====
-- Two events whose deliveries interleave, and one event whose deliveries overlap.
use plugshub_common.Common.{ℕ, ◌+◌, String, ◌≡◌, refl, ap, true, [], ◌∷◌, arith}
use plugshub_common.Text.{Text, codes, text_eq, mem}
use plugshub_common.Value.{Value, str, Fields, end, field, get_field}
use plugshub_common.Errors.{Exc}
use plugshub_common.Exec.{ok, Exec}
use plugshub_common.Messaging.{Consumer, event_id_of}
use plugshub_common.Messaging.System.Accounted.{are_distinct}
use plugshub_common.Messaging.Overlap.{
  Deliveries, end_delivery, began, ended, Reach, here, next, IsAlone, IsApart,
}
use plugshub_common.Messaging.Overlap.Once.{handled_once_apart, handled_twice_overlapping}

abbrev shown : Value → Text
shown (str t) = t
shown _ = codes "None"

abbrev reason : Exc → Text
reason e = codes "boom"

abbrev handler : Fields → Exec (Consumer ℕ) (Unit {0})
handler event c = (ok tt, record c { world = c.world + 1 })

handler-IsApart : IsApart shown reason handler
handler-IsApart = record { seen = λ event c. refl }

abbrev event : String → Fields
event id = field (codes "event_id") (str (codes id)) end

abbrev first : Text → ℕ
first [] = 0
first (c ∷ t) = c

abbrev fresh : Deliveries ℕ
fresh = record { consumer = record { seen = []; dead = []; world = 0 }; waiting = []; handled = [] }

-- "a" begins, then "b", and "a" ends first.
abbrev both_waiting : Deliveries ℕ
both_waiting = record fresh { waiting = event "b" ∷ event "a" ∷ [] }

abbrev last : Deliveries ℕ
last =
    end_delivery shown reason handler (event "b") [] []
      (end_delivery shown reason handler (event "a") (event "b" ∷ []) [] both_waiting)

interleaved : Reach shown reason handler (IsAlone shown reason handler) fresh last
unfolding end_delivery event_id_of get_field text_eq mem
interleaved =
    next
      (next
        (next (next here (began fresh (event "a") refl (refl, tt)))
          (began _ (event "b") refl (refl, ((λ e. omega (arith, ap first e)), tt))))
        (ended both_waiting (event "a") (event "b" ∷ []) [] refl))
      (ended _ (event "b") [] [] refl)

handled_once_apart_example : are_distinct last.handled ≡ true
handled_once_apart_example =
    handled_once_apart shown reason handler handler-IsApart fresh last refl refl refl interleaved

handled_twice_overlapping_example :
    (t : Deliveries ℕ) × Reach shown reason handler (λ e waiting. Unit) fresh t
    × (t.handled ≡ codes "a" ∷ codes "a" ∷ [])
unfolding event_id_of get_field text_eq mem
handled_twice_overlapping_example =
    handled_twice_overlapping shown reason handler fresh (event "a") refl (λ c. refl)
