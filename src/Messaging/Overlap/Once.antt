-- ===== src/Messaging/Overlap/Once.antt =====
-- When overlapping deliveries handle an event once, and when twice (`IdempotentConsumer.handle`,
-- plugshub_common/messaging.py).
use plugshub_common.Common.{
  ◌≡◌, refl, sym, ap, ◌∙◌, subst, ◌≢◌, ◌⊎◌, inl, inr, true, false, List, [], ◌∷◌, ◌++◌, arith,
  Bool-cases, All,
}
use plugshub_common.Text.{Text, is_empty, mem}
use plugshub_common.Value.{Value, Fields}
use plugshub_common.Errors.{Exc, is_exception}
use plugshub_common.Exec.{ok, Exec, Result-cases}
use plugshub_common.Messaging.{Consumer, event_id_of, conclude}
use plugshub_common.Messaging.System.{counted}
use plugshub_common.Messaging.System.Accounted.{are_distinct}
use plugshub_common.Text.Laws.{text_eq_iff}
use plugshub_common.Messaging.Overlap.{
  Deliveries, admits, await_and_conclude, end_delivery, Step, began, ended, Reach, here, next,
  IsAlone, IsApart, AreAlone, IsOnce,
}

All-remove {ℓ κ} :
    {A : Type ℓ} (P : A → Type κ) (newer older : List A) {a : A}
    → All P (newer ++ a ∷ older)
    → P a × All P (newer ++ older)
All-remove P [] older (p, h) = (p, h)
All-remove P (n ∷ newer) older (q, h) = let (p, k) = All-remove P newer older h in (p, (q, k))

All-both {ℓ κ} :
    {A : Type ℓ} (P Q R : A → Type κ) (xs : List A)
    → ((x : A) → P x → Q x → R x)
    → All P xs
    → All Q xs
    → All R xs
All-both P Q R [] f h k = tt
All-both P Q R (x ∷ xs) f (p, h) (q, k) = (f x p q, All-both P Q R xs f h k)

module _ {W : Type 0} (to_text : Value → Text) (repr : Exc → Text)
    (handler : Fields → Exec (Consumer W) (Unit {0})) (apart : IsApart to_text repr handler) where
  AreAlone-remove :
      (newer older : List Fields) (event : Fields)
      → AreAlone to_text repr handler (newer ++ event ∷ older)
      → AreAlone to_text repr handler (newer ++ older)
        × IsAlone to_text repr handler event (newer ++ older)
  AreAlone-remove [] older event (lone, rest) = (rest, lone)
  AreAlone-remove (n ∷ newer) older event ((named, others), rest) =
      let (still, (has_id, apart_from)) = AreAlone-remove newer older event rest in
      let (differs, kept) = All-remove _ newer older others in
      (((named, kept), still), (has_id, ((λ e. differs (sym e)), apart_from)))

  -- A delivery that ends adds its id to those seen and is answered with `True`, or neither.
  await_and_conclude_cases :
      (event : Fields) (c : Consumer W)
      → let i = event_id_of to_text event in
        let (answer, after) = await_and_conclude to_text repr handler event c in
        is_empty i ≡ false
        → mem i c.seen ≡ false
        → ((answer ≡ ok true) × (after.seen ≡ i ∷ c.seen))
          ⊎ (((l : List Text) → counted answer i l ≡ l) × (after.seen ≡ c.seen))
  await_and_conclude_cases event c named new = elim (Result-cases (handler event c).0) [
    | inl (x, r) ↦
        let seen = apart.seen event c in
        let i = event_id_of to_text event in
        inl (
          ap (λ z. (conclude repr event i z (handler event c).1).0) r,
          ap (λ z. (conclude repr event i z (handler event c).1).1.seen) r
              ∙ ground (arith, named, new, seen, ap (mem i) seen),
        )
    | inr (e, r) ↦ elim (Bool-cases (is_exception e)) [
      | inl caught ↦ rw (r, caught) (inr (λ l. refl, apart.seen event c))
      | inr free ↦ rw (r, free) (inr (λ l. refl, apart.seen event c))
    ]
  ]

  ended-IsOnce :
      (s : Deliveries W) (event : Fields) (newer older : List Fields)
      → s.waiting ≡ newer ++ event ∷ older
      → IsOnce to_text repr handler s
      → IsOnce to_text repr handler (end_delivery to_text repr handler event newer older s)
  unfolding end_delivery are_distinct mem
  ended-IsOnce s event newer older is inv =
      let i = event_id_of to_text event in
      let (still, (named, others)) =
        AreAlone-remove newer older event (subst (AreAlone to_text repr handler) is inv.alone) in
      let IsNewTo : List Text → Fields → Type 0 = λ l e. mem (event_id_of to_text e) l ≡ false in
      let (new, rest) =
        All-remove (IsNewTo s.handled) newer older (subst (All (IsNewTo s.handled)) is inv.new) in
      let unseen : mem i s.consumer.seen ≡ false = ap (mem i) inv.remembered ∙ new in
      elim (await_and_conclude_cases event s.consumer named unseen) [
        | inl (answer, seen) ↦ rw answer (record {
          once = ground (arith, inv.once, new);
          remembered = seen ∙ ap (λ l. i ∷ l) inv.remembered;
          alone = still;
          new =
              All-both (λ e. event_id_of to_text e ≢ i) (IsNewTo s.handled)
                (IsNewTo (i ∷ s.handled)) (newer ++ older)
                (λ e apart_from fresh. ground (arith, text_eq_iff (event_id_of to_text e) i, fresh))
                others rest;
        })
        | inr (same, seen) ↦ rw (same s.handled) (record {
          once = inv.once;
          remembered = seen ∙ inv.remembered;
          alone = still;
          new = rest;
        })
      ]

  Step-IsOnce :
      {s t : Deliveries W}
      → Step to_text repr handler (IsAlone to_text repr handler) s t
      → IsOnce to_text repr handler s
      → IsOnce to_text repr handler t
  Step-IsOnce (began s event admitted lone) inv = record {
    once = inv.once;
    remembered = inv.remembered;
    alone = (lone, inv.alone);
    new = (
      ground (arith, admitted, lone.0, ap (mem (event_id_of to_text event)) inv.remembered),
      inv.new,
    );
  }
  Step-IsOnce (ended s event newer older is) inv = ended-IsOnce s event newer older is inv

  Reach-IsOnce :
      {s t : Deliveries W}
      → Reach to_text repr handler (IsAlone to_text repr handler) s t
      → IsOnce to_text repr handler s
      → IsOnce to_text repr handler t
  Reach-IsOnce here inv = inv
  Reach-IsOnce (next run step) inv = Step-IsOnce step (Reach-IsOnce run inv)

  -- Deliveries that overlap handle no event twice if the broker keeps those of one event apart: from
  -- a fresh consumer, however deliveries of other events interleave, the ids of those answered with
  -- `True` are distinct. Each event has an id, and the handler leaves the ids seen alone.
  pub handled_once_apart :
      (start s : Deliveries W)
      → start.consumer.seen ≡ []
      → start.waiting ≡ []
      → start.handled ≡ []
      → Reach to_text repr handler (IsAlone to_text repr handler) start s
      → are_distinct s.handled ≡ true
  unfolding are_distinct
  handled_once_apart start s seen waiting handled run =
      let fresh : IsOnce to_text repr handler start = record {
        once = ap are_distinct handled;
        remembered = seen ∙ sym handled;
        alone = subst (AreAlone to_text repr handler) (sym waiting) tt;
        new = subst (All (λ e. mem (event_id_of to_text e) start.handled ≡ false)) (sym waiting) tt;
      } in
      (Reach-IsOnce run fresh).once

module _ {W : Type 0} (to_text : Value → Text) (repr : Exc → Text)
    (handler : Fields → Exec (Consumer W) (Unit {0})) where
  -- Two deliveries of an event that was not handled before, which both begin before either ends, are
  -- both answered with `True`, if the handler returns: its id is twice among those handled.
  pub handled_twice_overlapping :
      (s : Deliveries W) (event : Fields)
      → admits to_text repr handler event s.consumer ≡ true
      → ((c : Consumer W) → (handler event c).0 ≡ ok tt)
      → (t : Deliveries W) × Reach to_text repr handler (λ e waiting. Unit) s t
        × (t.handled ≡ event_id_of to_text event ∷ event_id_of to_text event ∷ s.handled)
  unfolding end_delivery
  handled_twice_overlapping s event admitted returns =
      let i = event_id_of to_text event in
      let both : Deliveries W = record s { waiting = event ∷ event ∷ s.waiting } in
      let one = end_delivery to_text repr handler event [] (event ∷ s.waiting) both in
      let answered : (c : Consumer W)
          → (await_and_conclude to_text repr handler event c).0 ≡ ok true =
        λ c. ap (λ z. (conclude repr event i z (handler event c).1).0) (returns c) in
      (
        end_delivery to_text repr handler event [] s.waiting one,
        next
            (next (next (next here (began s event admitted tt)) (began _ event admitted tt))
              (ended both event [] (event ∷ s.waiting) refl))
            (ended one event [] s.waiting refl),
        ap (λ a. counted a i one.handled) (answered one.consumer)
            ∙ ap (λ a. i ∷ counted a i s.handled) (answered s.consumer),
      )
