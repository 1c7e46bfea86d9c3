-- ===== src/Messaging/Relay.antt =====
-- What one pass of the relay does to the outbox (`OutboxRelay.relay_once`,
-- plugshub_common/messaging.py).
use plugshub_common.Common.{
  ℕ, zero, suc, ◌+◌, ◌≤◌, ◌<◌, ◌≡◌, refl, sym, ap, ◌∙◌, subst, ◌⊎◌, inl, inr, Bool, true, false,
  not, ◌&&◌, ◌||◌, List, [], ◌∷◌, ◌++◌, append_assoc, append-nil, arith, length, map, take, drop,
  all,
}
use plugshub_common.Text.{Text, text_eq}
use plugshub_common.Text.Laws.{text_eq_iff}
use plugshub_common.Value.{Fields}
use plugshub_common.Errors.{Exc}
use plugshub_common.Exec.{Result, ok, raised, Exec, Result-cases}
use plugshub_common.Messaging.{
  OutboxRecord, Outbox, unpublished, list_unpublished, mark_published, Relaying, relay_batch,
  relay_once, after_publish,
}

unfoldable pub has_id : Text → Outbox → Bool
has_id i [] = false
has_id i (r ∷ records) = text_eq r.id i || has_id i records

-- No two records have the same id.
unfoldable pub is_distinct : Outbox → Bool
unfolding has_id
is_distinct [] = true
is_distinct (r ∷ records) = not (has_id r.id records) && is_distinct records

unpublished-append : (a b : Outbox) → unpublished (a ++ b) ≡ unpublished a ++ unpublished b
unfolding unpublished
unpublished-append [] b = refl
unpublished-append (r ∷ a) b = ground (arith, unpublished-append a b)

has_id_first :
    (records rest : Outbox) (r : OutboxRecord)
    → unpublished records ≡ r ∷ rest
    → has_id r.id records ≡ true
unfolding unpublished has_id
has_id_first [] rest r h = ground arith
has_id_first (q ∷ records) rest r h =
    ground (arith, has_id_first records rest r, text_eq_iff q.id r.id)

-- Marking the first unpublished record leaves the others unpublished.
pub mark_published_first :
    (records rest : Outbox) (r : OutboxRecord)
    → is_distinct records ≡ true
    → unpublished records ≡ r ∷ rest
    → unpublished (mark_published r.id records) ≡ rest
unfolding unpublished mark_published is_distinct
mark_published_first [] rest r d h = ground arith
mark_published_first (q ∷ records) rest r d h =
    ground (
      arith,
      mark_published_first records rest r,
      has_id_first records rest r,
      text_eq_iff q.id r.id,
    )

has_id-mark_published :
    (i j : Text) (records : Outbox) → has_id i (mark_published j records) ≡ has_id i records
unfolding mark_published has_id
has_id-mark_published i j [] = refl
has_id-mark_published i j (q ∷ records) = ground (arith, has_id-mark_published i j records)

pub is_distinct-mark_published :
    (j : Text) (records : Outbox) → is_distinct (mark_published j records) ≡ is_distinct records
unfolding mark_published is_distinct
is_distinct-mark_published j [] = refl
is_distinct-mark_published j (q ∷ records) =
    ground (arith, is_distinct-mark_published j records, has_id-mark_published q.id j records)

pub take-drop : {A : Type 0} (n : ℕ) (xs : List A) → take n xs ++ drop n xs ≡ xs
take-drop zero xs = refl
take-drop (suc n) [] = refl
take-drop (suc n) (x ∷ xs) = ap (λ l. x ∷ l) (take-drop n xs)

drop-take :
    {A : Type 0} (j n : ℕ) (xs : List A)
    → j ≤ length (take n xs)
    → drop j (take n xs) ++ drop n xs ≡ drop j xs
drop-take zero n xs h = take-drop n xs
drop-take (suc j) zero xs h = absurd (omega arith)
drop-take (suc j) (suc n) [] h = refl
drop-take (suc j) (suc n) (x ∷ xs) h = drop-take j n xs (omega arith)

take-take :
    {A : Type 0} (j n : ℕ) (xs : List A) → j ≤ length (take n xs) → take j (take n xs) ≡ take j xs
take-take zero n xs h = refl
take-take (suc j) zero xs h = absurd (omega arith)
take-take (suc j) (suc n) [] h = refl
take-take (suc j) (suc n) (x ∷ xs) h = ap (λ l. x ∷ l) (take-take j n xs (omega arith))

-- The events of the records.
unfoldable pub envelopes : Outbox → List Fields
envelopes records = map (λ (r : OutboxRecord). r.envelope) records

-- While an event is published the outbox may grow, by records whose ids are new.
pub record Appends {W : Type 0} (publish : Fields → Exec (Relaying W) (Unit {0})) : Type 0 where
  pub grows :
      (event : Fields) (s : Relaying W)
      → (new : Outbox) × ((publish event s).1.records ≡ s.records ++ new)
  pub distinct :
      (event : Fields) (s : Relaying W)
      → is_distinct s.records ≡ true
      → is_distinct (publish event s).1.records ≡ true

-- `log` lists the events whose publishing has returned, in the order of the calls of `publish`.
pub record Logs {W : Type 0} (publish : Fields → Exec (Relaying W) (Unit {0}))
    (log : W → List Fields) : Type 0 where
  pub sent :
      (event : Fields) (s : Relaying W)
      → (publish event s).0 ≡ ok tt
      → log (publish event s).1.world ≡ log s.world ++ (event ∷ [])
  pub failed :
      (event : Fields) (s : Relaying W) (e : Exc)
      → (publish event s).0 ≡ raised e
      → log (publish event s).1.world ≡ log s.world

-- A pass over `batch`, the first of the unpublished records: `j` of them are published, all when it
-- returns, in their order, and the others are still unpublished, in their order, before those that
-- were not in the batch and those added since.
abbrev pub Passed :
    {W : Type 0}
    → (W → List Fields)
    → List Fields
    → Outbox
    → Outbox
    → ℕ
    → Result ℕ × Relaying W
    → Type 0
Passed log before batch tail n out =
    (j : ℕ) × (new : Outbox) × (unpublished out.1.records ≡ drop j batch ++ (tail ++ new))
    × (log out.1.world ≡ before ++ envelopes (take j batch))
    × (((out.0 ≡ ok (n + j)) × (j ≡ length batch))
        ⊎ ((e : Exc) × (out.0 ≡ raised e) × (j < length batch)))

module _ {W : Type 0} (publish : Fields → Exec (Relaying W) (Unit {0})) (appends : Appends publish)
    (log : W → List Fields) (logs : Logs publish log) where
  one_more_logged :
      (before now after : List Fields) (r : OutboxRecord) (batch : Outbox)
      → now ≡ before ++ (r.envelope ∷ [])
      → after ≡ now ++ envelopes batch
      → after ≡ before ++ envelopes (r ∷ batch)
  unfolding envelopes
  one_more_logged before now after r batch one rest =
      rest
      ∙ ap (λ l. l ++ envelopes batch) one
      ∙ append_assoc before (r.envelope ∷ []) (envelopes batch)

  -- One record more was published than in a pass over the rest.
  one_more :
      (before now : List Fields) (r : OutboxRecord) (batch tail mid : Outbox) (n : ℕ)
      (out : Result ℕ × Relaying W)
      → now ≡ before ++ (r.envelope ∷ [])
      → Passed log now batch (tail ++ mid) (n + 1) out
      → Passed log before (r ∷ batch) tail n out
  one_more before now r batch tail mid n out one (j, new, left, logged, inl (done, all)) = (
    suc j,
    mid ++ new,
    left ∙ ap (λ l. drop j batch ++ l) (append_assoc tail mid new),
    one_more_logged before now _ r (take j batch) one logged,
    inl (done ∙ ap ok (omega arith), ap suc all),
  )
  one_more before now r batch tail mid n out one (j, new, left, logged, inr (e, done, short)) = (
    suc j,
    mid ++ new,
    left ∙ ap (λ l. drop j batch ++ l) (append_assoc tail mid new),
    one_more_logged before now _ r (take j batch) one logged,
    inr (e, done, omega (arith, short)),
  )

  relay_batch-Passed :
      (batch tail : Outbox) (n : ℕ) (s : Relaying W)
      → is_distinct s.records ≡ true
      → unpublished s.records ≡ batch ++ tail
      → Passed log (log s.world) batch tail n (relay_batch publish batch n s)
  unfolding relay_batch envelopes
  relay_batch-Passed [] tail n s d h =
      (0, [], h ∙ sym (append-nil tail), sym (append-nil _), inl (ground arith, refl))
  relay_batch-Passed (r ∷ batch) tail n s d h =
      let (new, grown) = appends.grows r.envelope s in
      let s1 = (publish r.envelope s).1 in
      let rest =
        relay_batch publish batch (n + 1)
          (record s1 { records = mark_published r.id s1.records }) in
      let left : unpublished s1.records ≡ r ∷ (batch ++ (tail ++ unpublished new)) =
        ap unpublished grown
        ∙ unpublished-append s.records new
        ∙ ap (λ l. l ++ unpublished new) h
        ∙ ap (λ l. r ∷ l) (append_assoc batch tail (unpublished new)) in
      let d1 = appends.distinct r.envelope s d in
      let ih =
        relay_batch-Passed batch (tail ++ unpublished new) (n + 1)
          (record s1 { records = mark_published r.id s1.records })
          (is_distinct-mark_published r.id s1.records ∙ d1)
          (mark_published_first s1.records (batch ++ (tail ++ unpublished new)) r d1 left) in
      elim (Result-cases (publish r.envelope s).0) [
        | inl (x, sent) ↦
            subst (λ z. Passed log (log s.world) (r ∷ batch) tail n (after_publish z s1 rest))
              (sym sent)
              (one_more (log s.world) (log s1.world) r batch tail (unpublished new) n rest
                (logs.sent r.envelope s sent) ih)
        | inr (e, sent) ↦
            subst (λ z. Passed log (log s.world) (r ∷ batch) tail n (after_publish z s1 rest))
              (sym sent)
              (
                0,
                unpublished new,
                left,
                logs.failed r.envelope s e sent ∙ sym (append-nil _),
                inr (e, refl, ground arith),
              )
      ]

  whole_left :
      (pending new left : Outbox) (limit j : ℕ)
      → left ≡ drop j (take limit pending) ++ (drop limit pending ++ new)
      → j ≤ length (take limit pending)
      → left ≡ drop j pending ++ new
  whole_left pending new left limit j h short =
      h
      ∙ sym (append_assoc (drop j (take limit pending)) (drop limit pending) new)
      ∙ ap (λ l. l ++ new) (drop-take j limit pending short)

  whole_log :
      (before after : List Fields) (pending : Outbox) (limit j : ℕ)
      → after ≡ before ++ envelopes (take j (take limit pending))
      → j ≤ length (take limit pending)
      → after ≡ before ++ envelopes (take j pending)
  whole_log before after pending limit j h short =
      h ∙ ap (λ l. before ++ envelopes l) (take-take j limit pending short)

  whole_pass :
      (before : List Fields) (pending : Outbox) (limit : ℕ) (out : Result ℕ × Relaying W)
      → Passed log before (take limit pending) (drop limit pending) 0 out
      → (j : ℕ) × (new : Outbox) × (unpublished out.1.records ≡ drop j pending ++ new)
        × (log out.1.world ≡ before ++ envelopes (take j pending))
        × (((out.0 ≡ ok j) × (j ≡ length (take limit pending)))
            ⊎ ((e : Exc) × (out.0 ≡ raised e) × (j < length (take limit pending))))
  whole_pass before pending limit out (j, new, left, logged, inl (done, full)) = (
    j,
    new,
    whole_left pending new _ limit j left (omega (arith, full)),
    whole_log before _ pending limit j logged (omega (arith, full)),
    inl (done ∙ ap ok (omega arith), full),
  )
  whole_pass before pending limit out (j, new, left, logged, inr (e, done, short)) = (
    j,
    new,
    whole_left pending new _ limit j left (omega (arith, short)),
    whole_log before _ pending limit j logged (omega (arith, short)),
    inr (e, done, short),
  )

  -- A pass of the relay publishes the oldest unpublished records, in their order, and marks just
  -- those, if no two records have the same id: `log`, which lists the events whose publishing has
  -- returned, grows by just their events. When the pass returns, its answer is their number, which is
  -- the limit or all there are; when a publish raises, fewer were published, and the record that
  -- failed is the first that is still unpublished. None is lost: what was not published, and what
  -- was added meanwhile, is unpublished after the pass.
  pub relay_once_progress :
      (limit : ℕ) (s : Relaying W)
      → is_distinct s.records ≡ true
      → (j : ℕ) × (new : Outbox) × (unpublished (relay_once publish limit s).1.records
          ≡ drop j (unpublished s.records) ++ new)
        × (log (relay_once publish limit s).1.world
            ≡ log s.world ++ envelopes (take j (unpublished s.records)))
        × ((((relay_once publish limit s).0 ≡ ok j)
              × (j ≡ length (take limit (unpublished s.records))))
            ⊎ ((e : Exc) × ((relay_once publish limit s).0 ≡ raised e)
                × (j < length (take limit (unpublished s.records)))))
  unfolding relay_once list_unpublished
  relay_once_progress limit s d =
      let pending = unpublished s.records in
      whole_pass (log s.world) pending limit (relay_once publish limit s) (
        relay_batch-Passed (take limit pending) (drop limit pending) 0 s d
          (sym (take-drop limit pending)))
