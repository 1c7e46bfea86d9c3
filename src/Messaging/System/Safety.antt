-- ===== src/Messaging/System/Safety.antt =====
-- What holds of the events in every order of enqueues, passes of the relay and deliveries
-- (plugshub_common/messaging.py).
use plugshub_common.Common.{
  ℕ, ◌+◌, ◌≡◌, sym, ap, ◌∙◌, subst, ◌⊎◌, inl, inr, true, false, [], ◌∷◌, arith, Bool-cases,
}
use plugshub_common.Text.{Text, is_empty, mem}
use plugshub_common.Value.{Fields}
use plugshub_common.Exec.{Result-cases}
use mathlib.Core.List.{Memᴰ}
use mathlib.Core.List.Memᴰ
use plugshub_common.Messaging.{
  unpublished, OutboxRecord, Outbox, list_unpublished, Relaying, relay_batch, relay_once,
  event_id_of,
}
use plugshub_common.Messaging.Relay.{is_distinct}
use plugshub_common.Messaging.System.{
  Wiring, System, enqueue, pass, receive, same, more, Step, enqueued, passed, received, Reach, here,
  next, IsBroker, IsApart, IsFresh,
}
use plugshub_common.Messaging.System.Sound.{
  IsSound, Grows-IsSound, relay_once-IsSound, IsKept-Grows, relay_once-IsKept,
}
use plugshub_common.Messaging.System.Members.{IsKept, IsKept-refl}
use plugshub_common.Messaging.System.Pending.{all_published}
use plugshub_common.Messaging.System.Accounted.{are_distinct, IsAccounted, receive-IsAccounted}

module _ {B W : Type 0} (wiring : Wiring B W) where
  pub record IsConsistent (s : System B W) : Type 0 where
    pub sound : IsSound wiring s.relaying
    pub accounted : IsAccounted wiring s

  fresh-IsConsistent : (s : System B W) → IsFresh wiring s → IsConsistent s
  unfolding is_distinct are_distinct mem
  fresh-IsConsistent s fresh = record {
    sound = record {
      distinct = ap is_distinct fresh.records;
      named = λ r m. absurd (Memᴰ.not-nil (rw fresh.records at m));
      sent = λ r m done. absurd (Memᴰ.not-nil (rw fresh.records at m));
      genuine = λ e m. absurd (Memᴰ.not-nil (rw fresh.taken at m));
    };
    accounted = record {
      once = ap are_distinct fresh.handled;
      remembered = fresh.seen ∙ sym fresh.handled;
      whence = λ i h. absurd (ground (arith, ap (mem i) fresh.handled, h));
      taken = λ e m. absurd (Memᴰ.not-nil (rw fresh.delivered at m));
      answered = λ e m. absurd (Memᴰ.not-nil (rw fresh.delivered at m));
    };
  }

  -- Only the broker's world matters to the consumer's account.
  moved-IsAccounted :
      (s : System B W) (relaying : Relaying B)
      → ((e : Fields)
          → Memᴰ e (wiring.taken s.relaying.world)
          → Memᴰ e (wiring.taken relaying.world))
      → IsAccounted wiring s
      → IsAccounted wiring (record s { relaying = relaying })
  moved-IsAccounted s relaying keeps acc = record {
    once = acc.once;
    remembered = acc.remembered;
    whence = acc.whence;
    taken = λ e m. keeps e (acc.taken e m);
    answered = acc.answered;
  }

  module _ (broker : IsBroker wiring) (apart : IsApart wiring) where
    relay_batch-taken :
        (batch : Outbox) (n : ℕ) (s : Relaying B) (e : Fields)
        → Memᴰ e (wiring.taken s.world)
        → Memᴰ e (wiring.taken (relay_batch wiring.publish batch n s).1.world)
    unfolding relay_batch
    relay_batch-taken [] n s e m = m
    relay_batch-taken (r ∷ batch) n s e m =
        let m1 = broker.keeps r.envelope e s m in
        elim (Result-cases (wiring.publish r.envelope s).0) [
          | inl (x, done) ↦ rw done (relay_batch-taken batch (n + 1) _ e m1)
          | inr (x, failed) ↦ rw failed m1
        ]

    Step-IsConsistent : {s t : System B W} → Step wiring s t → IsConsistent s → IsConsistent t
    unfolding enqueue pass receive relay_once
    Step-IsConsistent (enqueued s r new) inv = record {
      sound = Grows-IsSound wiring s.relaying (more same r new) inv.sound;
      accounted = moved-IsAccounted s _ (λ e m. m) inv.accounted;
    }
    Step-IsConsistent (passed s limit) inv = record {
      sound = relay_once-IsSound wiring broker limit s.relaying inv.sound;
      accounted =
          moved-IsAccounted s _
            (relay_batch-taken (list_unpublished limit s.relaying.records) 0 s.relaying)
            inv.accounted;
    }
    Step-IsConsistent (received s event m) inv =
        let (r, n, e) = inv.sound.genuine event m in
        record {
          sound = inv.sound;
          accounted =
              receive-IsAccounted wiring apart s event
                (subst (λ x. is_empty (event_id_of wiring.to_text x) ≡ false) e
                  (inv.sound.named r n))
                m inv.accounted;
        }

    Reach-IsConsistent :
        {start s : System B W} → IsFresh wiring start → Reach wiring start s → IsConsistent s
    Reach-IsConsistent {start} fresh here = fresh-IsConsistent start fresh
    Reach-IsConsistent fresh (next run step) = Step-IsConsistent step (Reach-IsConsistent fresh run)

    Step-IsKept :
        {s t : System B W} {r : OutboxRecord}
        → Step wiring s t
        → IsKept r s.relaying.records
        → IsKept r t.relaying.records
    unfolding enqueue pass receive
    Step-IsKept (enqueued s q new) k = IsKept-Grows wiring (more same q new) k
    Step-IsKept (passed s limit) k = relay_once-IsKept wiring broker limit s.relaying k
    Step-IsKept (received s event m) k = k

    Reach-IsKept :
        {s t : System B W} {r : OutboxRecord}
        → Reach wiring s t
        → IsKept r s.relaying.records
        → IsKept r t.relaying.records
    Reach-IsKept here k = k
    Reach-IsKept (next run step) k = Step-IsKept step (Reach-IsKept run k)

    Reach-trans : {s t u : System B W} → Reach wiring s t → Reach wiring t u → Reach wiring s u
    Reach-trans run here = run
    Reach-trans run (next later step) = next (Reach-trans run later) step

    -- From a fresh start, however often the relay passes or a publish fails, and however often and in
    -- whatever order the broker delivers what it has taken, no event is handled twice and none is
    -- made up: the ids of the deliveries answered with `True` are distinct and each is the id of an
    -- enqueued record's event. Every record that is enqueued is unpublished, has a record id that no
    -- other has, and an event with an `event_id` that is not empty (`IsNew`); an event without one is
    -- outside of this. The broker is an at-least-once one, the handler leaves the consumer's stores
    -- alone, and deliveries come one after the other.
    pub handled_at_most_once :
        {start s : System B W}
        → IsFresh wiring start
        → Reach wiring start s
        → (are_distinct s.handled ≡ true)
          × ((i : Text)
              → mem i s.handled ≡ true
              → (r : OutboxRecord) × Memᴰ r s.relaying.records
                × (event_id_of wiring.to_text r.envelope ≡ i))
    handled_at_most_once fresh run =
        let inv = Reach-IsConsistent fresh run in
        (
          inv.accounted.once,
          λ i h.
              let (event, m, is) = inv.accounted.whence i h in
              let (r, n, e) = inv.sound.genuine event (inv.accounted.taken event m) in
              (r, n, ap (event_id_of wiring.to_text) e ∙ is),
        )

    -- No enqueued record is lost: however such a run goes on, the outbox still has it, and it is
    -- unpublished or the broker has its event; and once that was delivered, its id is among those
    -- handled or the event is a dead letter. Every record that is enqueued is unpublished, has a
    -- record id that no other has, and an event with an `event_id` that is not empty (`IsNew`).
    pub nothing_lost :
        {start s t : System B W}
        → IsFresh wiring start
        → Reach wiring start s
        → (r : OutboxRecord) → Memᴰ r s.relaying.records
        → Reach wiring s t
        → (q : OutboxRecord) × Memᴰ q t.relaying.records
          × (q.id ≡ r.id)
          × (q.envelope ≡ r.envelope)
          × ((q.published ≡ false)
              ⊎ (Memᴰ q.envelope (wiring.taken t.relaying.world)
                  × (Memᴰ q.envelope t.delivered
                      → (mem (event_id_of wiring.to_text q.envelope) t.handled ≡ true)
                        ⊎ ((reason : Text) × Memᴰ (q.envelope, reason) t.consumer.dead))))
    nothing_lost {t} fresh run r m on =
        let inv = Reach-IsConsistent fresh (Reach-trans run on) in
        let k = Reach-IsKept on (IsKept-refl m) in
        let q = k.entry in
        (
          q,
          k.member,
          k.same_id,
          k.same_event,
          elim (Bool-cases q.published) [
            | inl done ↦ inr (inv.sound.sent q k.member done, inv.accounted.answered q.envelope)
            | inr waiting ↦ inl waiting
          ],
        )

    -- Once it has settled, each event is handled exactly once or is a dead letter: when, after such
    -- a run, no record is unpublished and every event that the broker has taken was delivered, the id
    -- of each record's event is among those handled, and these are distinct, or the event is a dead
    -- letter. Every record that is enqueued is unpublished, has a record id that no other has, and an
    -- event with an `event_id` that is not empty (`IsNew`): an event without one, which the source
    -- allows, is handled at each delivery.
    pub settled_exactly_once :
        {start s : System B W}
        → IsFresh wiring start
        → Reach wiring start s
        → unpublished s.relaying.records ≡ []
        → ((event : Fields) → Memᴰ event (wiring.taken s.relaying.world) → Memᴰ event s.delivered)
        → (are_distinct s.handled ≡ true)
          × ((r : OutboxRecord)
              → Memᴰ r s.relaying.records
              → (mem (event_id_of wiring.to_text r.envelope) s.handled ≡ true)
                ⊎ ((reason : Text) × Memᴰ (r.envelope, reason) s.consumer.dead))
    settled_exactly_once {s} fresh run none_left all_delivered =
        let inv = Reach-IsConsistent fresh run in
        (
          inv.accounted.once,
          λ r m. inv.accounted.answered r.envelope (
              all_delivered r.envelope
                (inv.sound.sent r m (all_published s.relaying.records none_left m))),
        )
