-- ===== src/Messaging/Drain.antt =====
-- The relay process, which calls `relay_once` on a loop (plugshub_common/messaging.py).
use plugshub_common.Common.{
  ℕ, zero, suc, ◌+◌, ◌-◌, ◌≤◌, ◌<◌, ◌≡◌, refl, sym, ap, ◌∙◌, ◌⊎◌, inl, inr, true, [], ◌∷◌, ◌++◌,
  arith, length, take, drop, List, append_assoc, append-nil,
}
use plugshub_common.Value.{Fields}
use plugshub_common.Exec.{Result, ok, raised, Exec, Result-cases}
use plugshub_common.Messaging.{
  OutboxRecord, Outbox, unpublished, list_unpublished, mark_published, Relaying, relay_batch,
  relay_once,
}
use plugshub_common.Messaging.Relay.{
  is_distinct, is_distinct-mark_published, mark_published_first, take-drop, envelopes, Logs,
}

List-cases : (xs : Outbox) → (xs ≡ []) ⊎ ((r : OutboxRecord) × (rest : Outbox) × (xs ≡ r ∷ rest))
List-cases [] = inl refl
List-cases (r ∷ rest) = inr (r, rest, refl)

empty_of_length : (xs : Outbox) → length xs ≤ 0 → xs ≡ []
empty_of_length [] h = refl
empty_of_length (r ∷ xs) h = absurd (omega arith)

abbrev pub failures : Result ℕ → ℕ
failures (ok published) = 0
failures (raised e) = 1

module _ {W : Type 0} (publish : Fields → Exec (Relaying W) (Unit {0})) where
  -- So many passes, one after the other, whatever each gives; the answer is how many raised.
  unfoldable pub passes : ℕ → ℕ → Relaying W → ℕ × Relaying W
  unfolding relay_once
  passes limit zero s = (0, s)
  passes limit (suc n) s =
      let (answer, s1) = relay_once publish limit s in
      let (failed, s2) = passes limit n s1 in (failures answer + failed, s2)

  -- Nothing is enqueued while an event is published.
  pub record IsQuiet : Type 0 where
    pub at : (event : Fields) (s : Relaying W) → (publish event s).1.records ≡ s.records

  -- A batch is published whole, or its pass raises and adds nothing to what waits.
  abbrev Shrunk : Outbox → Outbox → Result ℕ × Relaying W → Type 0
  Shrunk batch tail out =
      (is_distinct out.1.records ≡ true)
      × (((failures out.0 ≡ 0) × (unpublished out.1.records ≡ tail))
          ⊎ ((failures out.0 ≡ 1) × (length (unpublished out.1.records) ≤ length (batch ++ tail))))

  module _ (quiet : IsQuiet) where
    relay_batch-Shrunk :
        (batch tail : Outbox) (n : ℕ) (s : Relaying W)
        → is_distinct s.records ≡ true
        → unpublished s.records ≡ batch ++ tail
        → Shrunk batch tail (relay_batch publish batch n s)
    unfolding relay_batch
    relay_batch-Shrunk [] tail n s d h = (d, inl (refl, h))
    relay_batch-Shrunk (r ∷ batch) tail n s d h =
        let s1 = (publish r.envelope s).1 in
        let same = quiet.at r.envelope s in
        let d1 : is_distinct s1.records ≡ true = ap is_distinct same ∙ d in
        let h1 : unpublished s1.records ≡ r ∷ (batch ++ tail) = ap unpublished same ∙ h in
        let (d2, rest) =
          relay_batch-Shrunk batch tail (n + 1)
            (record s1 { records = mark_published r.id s1.records })
            (is_distinct-mark_published r.id s1.records ∙ d1)
            (mark_published_first s1.records (batch ++ tail) r d1 h1) in
        elim (Result-cases (publish r.envelope s).0) [
          | inl (x, sent) ↦ rw sent (
            d2,
            elim rest [
              | inl whole ↦ inl whole
              | inr (failed, short) ↦ inr (failed, omega (arith, short))
            ],
          )
          | inr (e, failed) ↦ rw failed (d1, inr (refl, omega (arith, ap length h1)))
        ]

    length-drop : (limit : ℕ) (xs : Outbox) → 0 < limit → length (drop limit xs) ≤ length xs - 1
    length-drop zero xs h = absurd (omega arith)
    length-drop (suc zero) [] h = omega arith
    length-drop (suc zero) (x ∷ xs) h = omega arith
    length-drop (suc (suc n)) [] h = omega arith
    length-drop (suc (suc n)) (x ∷ xs) h = omega (arith, length-drop (suc n) xs)

    relay_once_shrinks :
        (limit : ℕ) (s : Relaying W)
        → 0 < limit
        → is_distinct s.records ≡ true
        → let (answer, s1) = relay_once publish limit s in
          (is_distinct s1.records ≡ true)
          × (length (unpublished s1.records)
              ≤ (length (unpublished s.records) - 1) + failures answer)
    unfolding relay_once list_unpublished
    relay_once_shrinks limit s some_limit d =
        let pending = unpublished s.records in
        let (d1, out) =
          relay_batch-Shrunk (take limit pending) (drop limit pending) 0 s d
            (sym (take-drop limit pending)) in
        (
          d1,
          elim out [
            | inl (done, left) ↦ omega (arith, ap length left, length-drop limit pending some_limit)
            | inr (failed, short) ↦
                omega (arith, failed, short, ap length (take-drop limit pending))
          ],
        )

    relay_once_idle :
        (limit : ℕ) (s : Relaying W)
        → unpublished s.records ≡ []
        → relay_once publish limit s ≡ (ok 0, s)
    unfolding relay_once relay_batch list_unpublished
    relay_once_idle zero s h = refl
    relay_once_idle (suc n) s h = rw h refl

    passes_idle :
        (limit n : ℕ) (s : Relaying W) → unpublished s.records ≡ [] → passes limit n s ≡ (0, s)
    unfolding passes
    passes_idle limit zero s h = refl
    passes_idle limit (suc n) s h = rw (relay_once_idle limit s h, passes_idle limit n s h) refl

    passes_left :
        (limit n : ℕ) (s : Relaying W)
        → 0 < limit
        → is_distinct s.records ≡ true
        → let (failed, after) = passes limit n s in
          (unpublished after.records ≡ [])
          ⊎ (length (unpublished after.records) + n ≤ length (unpublished s.records) + failed)
    unfolding passes
    passes_left limit zero s some_limit d = inr (omega arith)
    passes_left limit (suc n) s some_limit d =
        let (answer, s1) = relay_once publish limit s in
        let (d1, less) = relay_once_shrinks limit s some_limit d in
        elim (List-cases (unpublished s.records)) [
          | inl empty ↦ inl (rw (relay_once_idle limit s empty, passes_idle limit n s empty) empty)
          | inr (r, rest, pending) ↦ elim (passes_left limit n s1 some_limit d1) [
            | inl done ↦ inl done
            | inr left ↦ inr (omega (arith, left, less, ap length pending))
          ]
        ]

    passes_shrink :
        (limit n : ℕ) (s : Relaying W)
        → 0 < limit
        → is_distinct s.records ≡ true
        → length (unpublished s.records) + (passes limit n s).0 ≤ n
        → unpublished (passes limit n s).1.records ≡ []
    passes_shrink limit n s some_limit d enough = elim (passes_left limit n s some_limit d) [
      | inl done ↦ done
      | inr left ↦ empty_of_length _ (omega (arith, left))
    ]

    module _ (log : W → List Fields) (logs : Logs publish log) where
      -- The events that were published, and after them those that wait.
      abbrev accounted : Relaying W → List Fields
      accounted s = log s.world ++ envelopes (unpublished s.records)

      relay_batch-accounted :
          (batch tail : Outbox) (n : ℕ) (s : Relaying W)
          → is_distinct s.records ≡ true
          → unpublished s.records ≡ batch ++ tail
          → accounted (relay_batch publish batch n s).1 ≡ accounted s
      unfolding relay_batch envelopes
      relay_batch-accounted [] tail n s d h = refl
      relay_batch-accounted (r ∷ batch) tail n s d h =
          let s1 = (publish r.envelope s).1 in
          let s2 : Relaying W = record s1 { records = mark_published r.id s1.records } in
          let same = quiet.at r.envelope s in
          let d1 : is_distinct s1.records ≡ true = ap is_distinct same ∙ d in
          let h1 : unpublished s1.records ≡ r ∷ (batch ++ tail) = ap unpublished same ∙ h in
          let left = mark_published_first s1.records (batch ++ tail) r d1 h1 in
          let ih =
            relay_batch-accounted batch tail (n + 1) s2
              (is_distinct-mark_published r.id s1.records ∙ d1) left in
          elim (Result-cases (publish r.envelope s).0) [
            | inl (x, sent) ↦ rw sent (
                ih
                ∙ ap (λ l. log s1.world ++ envelopes l) left
                ∙ ap (λ l. l ++ envelopes (batch ++ tail)) (logs.sent r.envelope s sent)
                ∙ append_assoc (log s.world) (r.envelope ∷ []) (envelopes (batch ++ tail))
                ∙ ap (λ l. log s.world ++ envelopes l) (sym h))
            | inr (e, failed) ↦ rw failed (
                ap (λ l. l ++ envelopes (unpublished s1.records))
                  (logs.failed r.envelope s e failed)
                ∙ ap (λ l. log s.world ++ envelopes (unpublished l)) same)
          ]

      relay_once-accounted :
          (limit : ℕ) (s : Relaying W)
          → is_distinct s.records ≡ true
          → accounted (relay_once publish limit s).1 ≡ accounted s
      unfolding relay_once list_unpublished
      relay_once-accounted limit s d =
          let pending = unpublished s.records in
          relay_batch-accounted (take limit pending) (drop limit pending) 0 s d
            (sym (take-drop limit pending))

      passes-accounted :
          (limit n : ℕ) (s : Relaying W)
          → 0 < limit
          → is_distinct s.records ≡ true
          → accounted (passes limit n s).1 ≡ accounted s
      unfolding passes
      passes-accounted limit zero s some_limit d = refl
      passes-accounted limit (suc n) s some_limit d =
          passes-accounted limit n (relay_once publish limit s).1 some_limit
            (relay_once_shrinks limit s some_limit d).0
          ∙ relay_once-accounted limit s d

      -- The loop of passes publishes everything: after `n` passes no record is unpublished, and the
      -- events whose publishing has returned, which `log` lists, are those from before and then the
      -- events of the records that waited, each once and in their order. For that `n` is no less than
      -- the records that waited and the passes that raised, each pass takes at least one record, the
      -- ids are distinct, and nothing is enqueued meanwhile.
      pub passes_drain :
          (limit n : ℕ) (s : Relaying W)
          → 0 < limit
          → is_distinct s.records ≡ true
          → length (unpublished s.records) + (passes limit n s).0 ≤ n
          → (unpublished (passes limit n s).1.records ≡ [])
            × (log (passes limit n s).1.world ≡ log s.world ++ envelopes (unpublished s.records))
      unfolding envelopes
      passes_drain limit n s some_limit d enough =
          let drained = passes_shrink limit n s some_limit d enough in
          let after = (passes limit n s).1 in
          (
            drained,
            sym (append-nil (log after.world))
                ∙ ap (λ l. log after.world ++ envelopes l) (sym drained)
                ∙ passes-accounted limit n s some_limit d,
          )
