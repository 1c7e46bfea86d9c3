-- ===== src/Messaging/System/Tests.antt =====
-- A broker that fails as it is told, and what it keeps of what it is given.
mod Run
use plugshub_common.Common.{
  ℕ, ◌+◌, String, ◌≡◌, refl, sym, subst, ◌⊎◌, inl, inr, true, false, List, [], ◌∷◌,
}
use plugshub_common.Text.{Text, codes, text_eq, mem}
use plugshub_common.Value.{Value, str, Fields, end, field, get_field}
use plugshub_common.Errors.{other}
use plugshub_common.Exec.{Result, ok, raised, Exec}
use mathlib.Core.List.{Memᴰ}
use plugshub_common.Messaging.{
  OutboxRecord, add, unpublished, list_unpublished, mark_published, Relaying, relay_batch,
  relay_once, event_id_of, handle,
}
use plugshub_common.Messaging.Relay.{has_id}
use plugshub_common.Messaging.System.{
  Wiring, System, enqueue, pass, receive, IsNew, Grows, same, enqueued, passed, received, Reach,
  here, next, IsBroker, IsApart, IsFresh,
}
use plugshub_common.Messaging.System.Accounted.{are_distinct}
use plugshub_common.Messaging.System.Safety.{
  handled_at_most_once, nothing_lost, settled_exactly_once,
}

-- What becomes of the next publishing: refused, taken though it raises, or acknowledged.
data Fate : Type 0 where
  refused : Fate
  unsure : Fate
  acknowledged : Fate

record Broker : Type 0 where
  log : List Fields
  fates : List Fate

abbrev next_fate : List Fate → Fate × List Fate
next_fate [] = (acknowledged, [])
next_fate (f ∷ fates) = (f, fates)

abbrev answered : Fate → Fields → Relaying Broker → Result (Unit {0}) × Relaying Broker
answered refused event s = (raised (other 1), s)
answered unsure event s =
    (raised (other 1), record s { world = record s.world { log = event ∷ s.world.log } })
answered acknowledged event s =
    (ok tt, record s { world = record s.world { log = event ∷ s.world.log } })

abbrev publish : Fields → Exec (Relaying Broker) (Unit {0})
publish event s =
    let (fate, fates) = next_fate s.world.fates in
    answered fate event (record s { world = record s.world { fates = fates } })

abbrev shown : Value → Text
shown (str t) = t
shown _ = codes "None"

abbrev wiring : Wiring Broker ℕ
wiring = record {
  taken = λ b. b.log;
  publish = publish;
  to_text = shown;
  repr = λ e. codes "boom";
  handler = λ event c. (ok tt, record c { world = c.world + 1 });
}

wiring-IsApart : IsApart wiring
wiring-IsApart = record { seen = λ event c. refl; dead = λ event c. refl }

answered_records :
    (fate : Fate) (event : Fields) (s : Relaying Broker)
    → (answered fate event s).1.records ≡ s.records
answered_records refused event s = refl
answered_records unsure event s = refl
answered_records acknowledged event s = refl

answered_keeps :
    (fate : Fate) (event e : Fields) (s : Relaying Broker)
    → Memᴰ e s.world.log
    → Memᴰ e (answered fate event s).1.world.log
answered_keeps refused event e s m = m
answered_keeps unsure event e s m = Memᴰ.tail m
answered_keeps acknowledged event e s m = Memᴰ.tail m

answered_honest :
    (fate : Fate) (event e : Fields) (s : Relaying Broker)
    → Memᴰ e (answered fate event s).1.world.log
    → Memᴰ e s.world.log ⊎ (e ≡ event)
answered_honest refused event e s m = inl m
answered_honest unsure event e s (Memᴰ.head is) = inr is
answered_honest unsure event e s (Memᴰ.tail m) = inl m
answered_honest acknowledged event e s (Memᴰ.head is) = inr is
answered_honest acknowledged event e s (Memᴰ.tail m) = inl m

answered_acknowledges :
    (fate : Fate) (event : Fields) (s : Relaying Broker) (x : Unit {0})
    → (answered fate event s).0 ≡ ok x
    → Memᴰ event (answered fate event s).1.world.log
answered_acknowledges refused event s x h = absurd cc
answered_acknowledges unsure event s x h = absurd cc
answered_acknowledges acknowledged event s x h = Memᴰ.head refl

wiring-IsBroker : IsBroker wiring
wiring-IsBroker = record {
  during = λ event s.
      subst (Grows shown s.records) (sym (answered_records (next_fate s.world.fates).0 event _))
        same;
  keeps = λ event e s m. answered_keeps (next_fate s.world.fates).0 event e _ m;
  honest = λ event e s m. answered_honest (next_fate s.world.fates).0 event e _ m;
  acknowledges = λ event s x h. answered_acknowledges (next_fate s.world.fates).0 event _ x h;
}
