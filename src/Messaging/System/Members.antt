-- ===== src/Messaging/System/Members.antt =====
-- The records that adding and marking leave in the outbox (`OutboxStore.add` and
-- `mark_published`, plugshub_common/messaging.py).
use plugshub_common.Common.{
  ◌≡◌, refl, sym, ap, ◌∙◌, subst, ◌⊎◌, inl, inr, true, false, ◌||◌, [], ◌∷◌, ◌++◌, arith,
  Bool-cases,
}
use plugshub_common.Text.{Text, text_eq, is_empty}
use plugshub_common.Value.{Value}
use mathlib.Core.List.{Memᴰ}
use mathlib.Core.List.Memᴰ
use plugshub_common.Text.Laws.{text_eq_iff, eq_of_text_eq}
use plugshub_common.Messaging.{OutboxRecord, Outbox, add, mark_published, event_id_of}
use plugshub_common.Messaging.Relay.{is_distinct, has_id}
use plugshub_common.Messaging.System.{Grows, same, more}

-- The record itself, up to its mark.
pub record IsKept (r : OutboxRecord) (records : Outbox) : Type 0 where
  pub entry : OutboxRecord
  pub member : Memᴰ entry records
  pub same_id : entry.id ≡ r.id
  pub same_event : entry.envelope ≡ r.envelope

IsKept-tail : {r q : OutboxRecord} {records : Outbox} → IsKept r records → IsKept r (q ∷ records)
IsKept-tail k = record {
  entry = k.entry;
  member = Memᴰ.tail k.member;
  same_id = k.same_id;
  same_event = k.same_event;
}

pub IsKept-refl : {r : OutboxRecord} {records : Outbox} → Memᴰ r records → IsKept r records
IsKept-refl {r} m = record { entry = r; member = m; same_id = refl; same_event = refl }

pub IsKept-trans :
    {a b : OutboxRecord} {records : Outbox}
    → IsKept b records
    → b.id ≡ a.id
    → b.envelope ≡ a.envelope
    → IsKept a records
IsKept-trans k i e = record {
  entry = k.entry;
  member = k.member;
  same_id = k.same_id ∙ i;
  same_event = k.same_event ∙ e;
}

pub Grows-member :
    {to_text : Value → Text} {old new : Outbox} {r : OutboxRecord}
    → Grows to_text old new
    → Memᴰ r old
    → Memᴰ r new
unfolding add
Grows-member same m = m
Grows-member (more g q fresh) m = Memᴰ.append_left (q ∷ []) (Grows-member g m)

pub Grows-old :
    {to_text : Value → Text} {old new : Outbox}
    → Grows to_text old new
    → (r : OutboxRecord) → Memᴰ r new
    → Memᴰ r old ⊎ ((r.published ≡ false) × (is_empty (event_id_of to_text r.envelope) ≡ false))
unfolding add
Grows-old same r m = inl m
Grows-old {to_text} (more {records} g q fresh) r m = elim (Memᴰ.append_cases records m) [
  | inl before ↦ Grows-old g r before
  | inr last ↦
      let e = Memᴰ.eq_of_singleton last in
      inr (
        ap (λ x. x.published) e ∙ fresh.waiting,
        subst (λ x. is_empty (event_id_of to_text x.envelope) ≡ false) (sym e) fresh.named,
      )
]

has_id-append : (i : Text) (a b : Outbox) → has_id i (a ++ b) ≡ has_id i a || has_id i b
unfolding has_id
has_id-append i [] b = refl
has_id-append i (q ∷ a) b = ground (arith, has_id-append i a b)

pub is_distinct-add :
    (r : OutboxRecord) (records : Outbox)
    → has_id r.id records ≡ false
    → is_distinct records ≡ true
    → is_distinct (add r records) ≡ true
unfolding is_distinct has_id add
is_distinct-add r [] h d = refl
is_distinct-add r (q ∷ records) h d = ground (
  arith,
  is_distinct-add r records,
  has_id-append q.id records (r ∷ []),
  text_eq_iff q.id r.id,
  text_eq_iff r.id q.id,
)

pub is_distinct-Grows :
    {to_text : Value → Text} {old new : Outbox}
    → Grows to_text old new
    → is_distinct old ≡ true
    → is_distinct new ≡ true
is_distinct-Grows same d = d
is_distinct-Grows (more {records} g r fresh) d =
    is_distinct-add r records fresh.own_id (is_distinct-Grows g d)

has_id-member : {r : OutboxRecord} {records : Outbox} → Memᴰ r records → has_id r.id records ≡ true
unfolding has_id
has_id-member {records = []} m = absurd (Memᴰ.not-nil m)
has_id-member {r} {records = q ∷ records} (Memᴰ.head e) =
    let i : q.id ≡ r.id = ap (λ x. x.id) (sym e) in ground (arith, text_eq_iff q.id r.id)
has_id-member {r} {records = q ∷ records} (Memᴰ.tail m) = ground (arith, has_id-member m)

-- Records with the same id have the same event.
pub same_record :
    {a b : OutboxRecord} {records : Outbox}
    → is_distinct records ≡ true
    → Memᴰ a records
    → Memᴰ b records
    → a.id ≡ b.id
    → a.envelope ≡ b.envelope
unfolding is_distinct
same_record d (Memᴰ.head e) (Memᴰ.head f) i = ap (λ x. x.envelope) (e ∙ sym f)
same_record {a} {b} {records = q ∷ records} d (Memᴰ.head e) (Memᴰ.tail m) i =
    let k : q.id ≡ b.id = ap (λ x. x.id) (sym e) ∙ i in absurd (ground (arith, has_id-member m))
same_record {a} {b} {records = q ∷ records} d (Memᴰ.tail m) (Memᴰ.head e) i =
    let k : q.id ≡ a.id = ap (λ x. x.id) (sym e) ∙ sym i in absurd (ground (arith, has_id-member m))
same_record {records = q ∷ records} d (Memᴰ.tail m) (Memᴰ.tail n) i =
    same_record (ground arith) m n i

abbrev marked : OutboxRecord → OutboxRecord
marked q = record q { published = true }

pub IsKept-mark_published :
    {r : OutboxRecord} {records : Outbox}
    → (i : Text) → Memᴰ r records
    → IsKept r (mark_published i records)
unfolding mark_published
IsKept-mark_published {records = []} i m = absurd (Memᴰ.not-nil m)
IsKept-mark_published {r} {records = q ∷ records} i m = elim (Bool-cases (text_eq q.id i)) [
  | inl h ↦ rw h (first m)
  | inr h ↦ rw h (later (λ n. IsKept-mark_published i n) m)
]
  where
    first : Memᴰ r (q ∷ records) → IsKept r (marked q ∷ records)
    first (Memᴰ.head e) = record {
      entry = marked q;
      member = Memᴰ.head refl;
      same_id = ap (λ x. x.id) (sym e);
      same_event = ap (λ x. x.envelope) (sym e);
    }
    first (Memᴰ.tail n) = IsKept-tail (IsKept-refl n)

    later :
        (Memᴰ r records → IsKept r (mark_published i records))
        → Memᴰ r (q ∷ records)
        → IsKept r (q ∷ mark_published i records)
    later below (Memᴰ.head e) = IsKept-refl (Memᴰ.head e)
    later below (Memᴰ.tail n) = IsKept-tail (below n)

-- A record of the marked outbox was there before, or it is the one that was marked.
pub marked_before :
    {r : OutboxRecord} (i : Text) (records : Outbox)
    → Memᴰ r (mark_published i records)
    → Memᴰ r records ⊎ (IsKept r records × (r.id ≡ i))
unfolding mark_published
marked_before i [] m = absurd (Memᴰ.not-nil m)
marked_before {r} i (q ∷ records) m = elim (Bool-cases (text_eq q.id i)) [
  | inl h ↦ first h (rw h at m)
  | inr h ↦ later (λ n. marked_before i records n) (rw h at m)
]
  where
    first :
        text_eq q.id i ≡ true
        → Memᴰ r (marked q ∷ records)
        → Memᴰ r (q ∷ records) ⊎ (IsKept r (q ∷ records) × (r.id ≡ i))
    first h (Memᴰ.head e) = inr (
      record {
        entry = q;
        member = Memᴰ.head refl;
        same_id = ap (λ x. x.id) (sym e);
        same_event = ap (λ x. x.envelope) (sym e);
      },
      ap (λ x. x.id) e ∙ eq_of_text_eq q.id i h,
    )
    first h (Memᴰ.tail n) = inl (Memᴰ.tail n)

    later :
        (Memᴰ r (mark_published i records) → Memᴰ r records ⊎ (IsKept r records × (r.id ≡ i)))
        → Memᴰ r (q ∷ mark_published i records)
        → Memᴰ r (q ∷ records) ⊎ (IsKept r (q ∷ records) × (r.id ≡ i))
    later below (Memᴰ.head e) = inl (Memᴰ.head e)
    later below (Memᴰ.tail n) = elim (below n) [
      | inl before ↦ inl (Memᴰ.tail before)
      | inr (k, e) ↦ inr (IsKept-tail k, e)
    ]
