-- ===== src/Messaging/System/Sound.antt =====
-- What the outbox and the broker keep true of each other (`OutboxRelay.relay_once` and
-- `InMemoryOutbox`, plugshub_common/messaging.py).
use plugshub_common.Common.{
  ℕ, ◌+◌, ◌≡◌, refl, sym, ◌∙◌, subst, ◌⊎◌, inl, inr, true, false, [], ◌∷◌, take,
}
use plugshub_common.Text.{is_empty}
use plugshub_common.Value.{Fields}
use plugshub_common.Exec.{Result-cases}
use mathlib.Core.List.{Memᴰ}
use mathlib.Core.List.Memᴰ
use plugshub_common.Messaging.{
  OutboxRecord, Outbox, unpublished, list_unpublished, mark_published, Relaying, relay_batch,
  relay_once, event_id_of,
}
use plugshub_common.Messaging.Relay.{is_distinct, is_distinct-mark_published}
use plugshub_common.Messaging.System.{Wiring, Grows, IsBroker}
use plugshub_common.Messaging.System.Members.{
  IsKept, IsKept-refl, IsKept-trans, Grows-member, Grows-old, is_distinct-Grows, same_record,
  IsKept-mark_published, marked_before,
}
use plugshub_common.Messaging.System.Pending.{take-member, unpublished-member}

module _ {B W : Type 0} (wiring : Wiring B W) where
  -- The records have ids of their own and events with an id; a published record's event is with the
  -- broker; and the broker has only events of the outbox.
  pub record IsSound (s : Relaying B) : Type 0 where
    pub distinct : is_distinct s.records ≡ true
    pub named :
        (r : OutboxRecord)
        → Memᴰ r s.records
        → is_empty (event_id_of wiring.to_text r.envelope) ≡ false
    pub sent :
        (r : OutboxRecord)
        → Memᴰ r s.records
        → r.published ≡ true
        → Memᴰ r.envelope (wiring.taken s.world)
    pub genuine :
        (event : Fields)
        → Memᴰ event (wiring.taken s.world)
        → (r : OutboxRecord) × Memᴰ r s.records × (r.envelope ≡ event)

  pub Grows-IsSound :
      {records : Outbox} (s : Relaying B)
      → Grows wiring.to_text s.records records
      → IsSound s
      → IsSound (record s { records = records })
  Grows-IsSound s g sound = record {
    distinct = is_distinct-Grows g sound.distinct;
    named = λ r m. elim (Grows-old g r m) [
      | inl old ↦ sound.named r old
      | inr (waiting, named) ↦ named
    ];
    sent = λ r m done. elim (Grows-old g r m) [
      | inl old ↦ sound.sent r old done
      | inr (waiting, named) ↦ absurd cc
    ];
    genuine = λ event m. let (r, old, e) = sound.genuine event m in (r, Grows-member g old, e);
  }

  -- The broker takes one more event of the outbox.
  world-IsSound :
      (s : Relaying B) (world : B) (r : OutboxRecord)
      → Memᴰ r s.records
      → ((e : Fields) → Memᴰ e (wiring.taken s.world) → Memᴰ e (wiring.taken world))
      → ((e : Fields)
          → Memᴰ e (wiring.taken world)
          → Memᴰ e (wiring.taken s.world) ⊎ (e ≡ r.envelope))
      → IsSound s
      → IsSound (record s { world = world })
  world-IsSound s world r m keeps honest sound = record {
    distinct = sound.distinct;
    named = sound.named;
    sent = λ q n done. keeps q.envelope (sound.sent q n done);
    genuine = λ event n. elim (honest event n) [
      | inl before ↦ sound.genuine event before
      | inr e ↦ (r, m, sym e)
    ];
  }

  mark-IsSound :
      (s : Relaying B) (r : OutboxRecord)
      → IsKept r s.records
      → Memᴰ r.envelope (wiring.taken s.world)
      → IsSound s
      → IsSound (record s { records = mark_published r.id s.records })
  mark-IsSound s r kept taken sound = record {
    distinct = is_distinct-mark_published r.id s.records ∙ sound.distinct;
    named = λ q m. elim (marked_before r.id s.records m) [
      | inl before ↦ sound.named q before
      | inr (k, e) ↦
          subst (λ x. is_empty (event_id_of wiring.to_text x) ≡ false) k.same_event
            (sound.named k.entry k.member)
    ];
    sent = λ q m done. elim (marked_before r.id s.records m) [
      | inl before ↦ sound.sent q before done
      | inr (k, e) ↦
          let one =
            same_record sound.distinct k.member kept.member (k.same_id ∙ e ∙ sym kept.same_id) in
          Memᴰ.cast (sym k.same_event ∙ one ∙ kept.same_event) taken
    ];
    genuine = λ event m.
        let (q, n, e) = sound.genuine event m in
        let k = IsKept-mark_published r.id n in (k.entry, k.member, k.same_event ∙ e);
  }

  pub IsKept-Grows :
      {r : OutboxRecord} {old new : Outbox}
      → Grows wiring.to_text old new
      → IsKept r old
      → IsKept r new
  IsKept-Grows g k = IsKept-trans (IsKept-refl (Grows-member g k.member)) k.same_id k.same_event

  module _ (broker : IsBroker wiring) where
    publish-IsSound :
        (s : Relaying B) (r : OutboxRecord)
        → IsKept r s.records
        → IsSound s
        → IsSound (wiring.publish r.envelope s).1
    publish-IsSound s r k sound =
        let s1 = (wiring.publish r.envelope s).1 in
        Grows-IsSound (record s { world = s1.world }) (broker.during r.envelope s)
          (world-IsSound s s1.world k.entry k.member (λ e m. broker.keeps r.envelope e s m)
            (λ e m. elim (broker.honest r.envelope e s m) [
              | inl before ↦ inl before
              | inr it ↦ inr (it ∙ sym k.same_event)
            ])
            sound)

    relay_batch-IsSound :
        (batch : Outbox) (n : ℕ) (s : Relaying B)
        → ((r : OutboxRecord) → Memᴰ r batch → IsKept r s.records)
        → IsSound s
        → IsSound (relay_batch wiring.publish batch n s).1
    unfolding relay_batch
    relay_batch-IsSound [] n s kept sound = sound
    relay_batch-IsSound (r ∷ batch) n s kept sound =
        let s1 = (wiring.publish r.envelope s).1 in
        let sound1 = publish-IsSound s r (kept r (Memᴰ.head refl)) sound in
        let after = record s1 { records = mark_published r.id s1.records } in
        let kept1 : (q : OutboxRecord) → Memᴰ q (r ∷ batch) → IsKept q s1.records =
          λ q m. IsKept-Grows (broker.during r.envelope s) (kept q m) in
        elim (Result-cases (wiring.publish r.envelope s).0) [
          | inl (x, done) ↦ rw done (
              relay_batch-IsSound batch (n + 1) after
                (λ q m.
                  let k = kept1 q (Memᴰ.tail m) in
                  IsKept-trans (IsKept-mark_published r.id k.member) k.same_id k.same_event)
                (mark-IsSound s1 r (kept1 r (Memᴰ.head refl))
                  (broker.acknowledges r.envelope s x done) sound1))
          | inr (e, failed) ↦ rw failed sound1
        ]

    relay_batch-IsKept :
        {q : OutboxRecord} (batch : Outbox) (n : ℕ) (s : Relaying B)
        → IsKept q s.records
        → IsKept q (relay_batch wiring.publish batch n s).1.records
    unfolding relay_batch
    relay_batch-IsKept [] n s k = k
    relay_batch-IsKept (r ∷ batch) n s k =
        let k1 = IsKept-Grows (broker.during r.envelope s) k in
        let k2 = IsKept-mark_published r.id k1.member in
        elim (Result-cases (wiring.publish r.envelope s).0) [
          | inl (x, done) ↦
              rw done
                (relay_batch-IsKept batch (n + 1) _ (IsKept-trans k2 k1.same_id k1.same_event))
          | inr (e, failed) ↦ rw failed k1
        ]

    pub relay_once-IsKept :
        {q : OutboxRecord} (limit : ℕ) (s : Relaying B)
        → IsKept q s.records
        → IsKept q (relay_once wiring.publish limit s).1.records
    unfolding relay_once
    relay_once-IsKept limit s k = relay_batch-IsKept (list_unpublished limit s.records) 0 s k

    pub relay_once-IsSound :
        (limit : ℕ) (s : Relaying B) → IsSound s → IsSound (relay_once wiring.publish limit s).1
    unfolding relay_once list_unpublished
    relay_once-IsSound limit s sound =
        relay_batch-IsSound (take limit (unpublished s.records)) 0 s
          (λ r m. IsKept-refl (unpublished-member s.records (take-member limit m))) sound
