-- ===== src/Messaging/System/Pending.antt =====
-- The records that `InMemoryOutbox.list_unpublished` (plugshub_common/messaging.py) lists, as
-- members of the outbox.
use plugshub_common.Common.{
  ℕ, zero, suc, ◌≡◌, ap, ◌∙◌, Bool, true, false, [], ◌∷◌, arith, if◌then◌else◌, take,
}
use mathlib.Core.List.{Memᴰ}
use mathlib.Core.List.Memᴰ
use plugshub_common.Messaging.{OutboxRecord, Outbox, unpublished}

pub take-member :
    {r : OutboxRecord} {records : Outbox} (n : ℕ) → Memᴰ r (take n records) → Memᴰ r records
take-member {records} zero m = absurd (Memᴰ.not-nil m)
take-member {records = []} (suc n) m = absurd (Memᴰ.not-nil m)
take-member {records = q ∷ records} (suc n) (Memᴰ.head e) = Memᴰ.head e
take-member {records = q ∷ records} (suc n) (Memᴰ.tail m) = Memᴰ.tail (take-member n m)

kept_or_not :
    {r q : OutboxRecord} {rest records : Outbox} (b : Bool)
    → Memᴰ r (if b then rest else q ∷ rest)
    → (Memᴰ r rest → Memᴰ r records)
    → Memᴰ r (q ∷ records)
kept_or_not true m below = Memᴰ.tail (below m)
kept_or_not false (Memᴰ.head e) below = Memᴰ.head e
kept_or_not false (Memᴰ.tail n) below = Memᴰ.tail (below n)

pub unpublished-member :
    {r : OutboxRecord} (records : Outbox) → Memᴰ r (unpublished records) → Memᴰ r records
unfolding unpublished
unpublished-member [] m = absurd (Memᴰ.not-nil m)
unpublished-member (q ∷ records) m = kept_or_not q.published m (λ n. unpublished-member records n)

-- With no record unpublished, each is published.
pub all_published :
    {r : OutboxRecord} (records : Outbox)
    → unpublished records ≡ []
    → Memᴰ r records
    → r.published ≡ true
unfolding unpublished
all_published [] none_left m = absurd (Memᴰ.not-nil m)
all_published (q ∷ records) none_left (Memᴰ.head e) =
    ap (λ x. x.published) e ∙ ground (arith, none_left)
all_published (q ∷ records) none_left (Memᴰ.tail m) =
    all_published records (ground (arith, none_left)) m
