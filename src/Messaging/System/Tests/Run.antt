-- ===== src/Messaging/System/Tests/Run.antt =====
-- A run in which an event is published twice and delivered three times.
use plugshub_common.Common.{ℕ, String, ◌≡◌, refl, ◌⊎◌, true, false, [], ◌∷◌}
use plugshub_common.Text.{Text, codes, text_eq, mem}
use plugshub_common.Value.{str, Fields, end, field, get_field}
use mathlib.Core.List.{Memᴰ}
use mathlib.Core.List.Memᴰ
use plugshub_common.Messaging.{
  OutboxRecord, add, unpublished, list_unpublished, mark_published, relay_batch, relay_once,
  event_id_of, handle,
}
use plugshub_common.Messaging.Relay.{has_id}
use plugshub_common.Messaging.System.{
  System, enqueue, pass, receive, IsNew, enqueued, passed, received, Reach, here, next, IsFresh,
}
use plugshub_common.Messaging.System.Accounted.{are_distinct}
use plugshub_common.Messaging.System.Safety.{
  handled_at_most_once, nothing_lost, settled_exactly_once,
}
use plugshub_common.Messaging.System.Tests.{
  unsure, refused, Broker, shown, wiring, wiring-IsApart, wiring-IsBroker,
}

abbrev event : String → Fields
event id = field (codes "event_id") (str (codes id)) end

abbrev pending : String → OutboxRecord
pending id = record { envelope = event id; id = codes id; published = false }

-- The first publishing is taken though it raises, the second is refused.
abbrev start : System Broker ℕ
start = record {
  relaying = record { records = []; world = record { log = []; fates = unsure ∷ refused ∷ [] } };
  consumer = record { seen = []; dead = []; world = 0 };
  delivered = [];
  handled = [];
}

start-IsFresh : IsFresh wiring start
start-IsFresh = record {
  records = refl;
  taken = refl;
  seen = refl;
  delivered = refl;
  handled = refl;
}

abbrev first : System Broker ℕ
first = enqueue wiring (pending "a") start

abbrev sent : System Broker ℕ
sent = pass wiring 5 (pass wiring 5 (pass wiring 5 first))

abbrev end_state : System Broker ℕ
end_state =
    receive wiring (event "a") (receive wiring (event "a") (receive wiring (event "a") sent))

pending-IsNew : IsNew shown (pending "a") []
unfolding has_id event_id_of get_field text_eq
pending-IsNew = record { waiting = refl; own_id = refl; named = refl }

to_first : Reach wiring start first
to_first = next here (enqueued start (pending "a") pending-IsNew)

to_end : Reach wiring first end_state
unfolding enqueue pass receive add relay_once relay_batch list_unpublished unpublished
    mark_published handle event_id_of get_field text_eq mem
to_end =
    next
      (next
        (next (next (next (next here (passed _ 5)) (passed _ 5)) (passed _ 5))
          (received _ (event "a") (Memᴰ.head refl)))
        (received _ (event "a") (Memᴰ.head refl)))
      (received _ (event "a") (Memᴰ.head refl))

published_twice : end_state.relaying.world.log ≡ event "a" ∷ event "a" ∷ []
unfolding enqueue pass receive add relay_once relay_batch list_unpublished unpublished
    mark_published handle event_id_of get_field text_eq mem
published_twice = refl

handled_only_once : end_state.handled ≡ codes "a" ∷ []
unfolding enqueue pass receive add relay_once relay_batch list_unpublished unpublished
    mark_published handle event_id_of get_field text_eq mem
handled_only_once = refl

to_end_from_start : Reach wiring start end_state
unfolding enqueue pass receive add relay_once relay_batch list_unpublished unpublished
    mark_published handle event_id_of get_field text_eq mem
to_end_from_start =
    next
      (next
        (next (next (next (next to_first (passed _ 5)) (passed _ 5)) (passed _ 5))
          (received _ (event "a") (Memᴰ.head refl)))
        (received _ (event "a") (Memᴰ.head refl)))
      (received _ (event "a") (Memᴰ.head refl))

handled_at_most_once_example :
    (are_distinct end_state.handled ≡ true)
    × ((i : Text)
        → mem i end_state.handled ≡ true
        → (r : OutboxRecord) × Memᴰ r end_state.relaying.records
          × (event_id_of shown r.envelope ≡ i))
handled_at_most_once_example =
    handled_at_most_once wiring wiring-IsBroker wiring-IsApart start-IsFresh to_end_from_start

first_member : Memᴰ (pending "a") first.relaying.records
unfolding enqueue add
first_member = Memᴰ.head refl

nothing_lost_example :
    (q : OutboxRecord) × Memᴰ q end_state.relaying.records
    × (q.id ≡ codes "a")
    × (q.envelope ≡ event "a")
    × ((q.published ≡ false)
        ⊎ (Memᴰ q.envelope end_state.relaying.world.log
            × (Memᴰ q.envelope end_state.delivered
                → (mem (event_id_of shown q.envelope) end_state.handled ≡ true)
                  ⊎ ((reason : Text) × Memᴰ (q.envelope, reason) end_state.consumer.dead))))
nothing_lost_example =
    nothing_lost wiring wiring-IsBroker wiring-IsApart start-IsFresh to_first (pending "a")
      first_member to_end

none_unpublished : unpublished end_state.relaying.records ≡ []
unfolding enqueue pass receive add relay_once relay_batch list_unpublished unpublished
    mark_published handle event_id_of get_field text_eq mem
none_unpublished = refl

delivered_all : (e : Fields) → Memᴰ e end_state.relaying.world.log → Memᴰ e end_state.delivered
unfolding enqueue pass receive add relay_once relay_batch list_unpublished unpublished
    mark_published handle event_id_of get_field text_eq mem
delivered_all e (Memᴰ.head is) = Memᴰ.head is
delivered_all e (Memᴰ.tail (Memᴰ.head is)) = Memᴰ.head is
delivered_all e (Memᴰ.tail (Memᴰ.tail m)) = absurd (Memᴰ.not-nil m)

settled_exactly_once_example :
    (are_distinct end_state.handled ≡ true)
    × ((r : OutboxRecord)
        → Memᴰ r end_state.relaying.records
        → (mem (event_id_of shown r.envelope) end_state.handled ≡ true)
          ⊎ ((reason : Text) × Memᴰ (r.envelope, reason) end_state.consumer.dead))
settled_exactly_once_example =
    settled_exactly_once wiring wiring-IsBroker wiring-IsApart start-IsFresh to_end_from_start
      none_unpublished delivered_all
