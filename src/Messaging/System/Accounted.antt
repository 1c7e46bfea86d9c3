-- ===== src/Messaging/System/Accounted.antt =====
-- What a delivery does to what the consumer remembers and parks (`IdempotentConsumer.handle`,
-- plugshub_common/messaging.py).
use plugshub_common.Common.{
  ◌≡◌, refl, sym, ap, ◌∙◌, subst, ◌⊎◌, inl, inr, Bool, true, false, not, ◌&&◌, List, [], ◌∷◌, ◌++◌,
  arith, Bool-cases,
}
use plugshub_common.Text.{Text, text_eq, is_empty, mem}
use plugshub_common.Value.{Fields}
use plugshub_common.Errors.{Exc, is_exception}
use plugshub_common.Exec.{Result, ok, raised, Result-cases}
use mathlib.Core.List.{Memᴰ}
use mathlib.Core.List.Memᴰ
use plugshub_common.Text.Laws.{text_eq_iff, eq_of_text_eq}
use plugshub_common.Messaging.{Consumer, event_id_of, handle}
use plugshub_common.Messaging.System.{Wiring, System, receive, IsApart}

-- No text stands twice in the list.
unfoldable pub are_distinct : List Text → Bool
unfolding mem
are_distinct [] = true
are_distinct (t ∷ texts) = not (mem t texts) && are_distinct texts

module _ {B W : Type 0} (wiring : Wiring B W) where
  -- What a delivery that raises nothing leaves: the ids seen, the dead letters.
  abbrev Left : Result Bool × Consumer W → Result Bool → List Text → List (Fields × Text) → Type 0
  Left out answer seen dead = (out.0 ≡ answer) × (out.1.seen ≡ seen) × (out.1.dead ≡ dead)

  -- A delivery of an event that has an id is skipped, or handled, or parked, or raises.
  abbrev Outcomes : Fields → Consumer W → Result Bool × Consumer W → Type 0
  Outcomes event c out =
      let i = event_id_of wiring.to_text event in
      ((mem i c.seen ≡ true) × Left out (ok false) c.seen c.dead)
      ⊎ (((mem i c.seen ≡ false) × Left out (ok true) (i ∷ c.seen) c.dead)
          ⊎ (((reason : Text) × Left out (ok false) c.seen (c.dead ++ (event, reason) ∷ []))
              ⊎ ((e : Exc) × Left out (raised e) c.seen c.dead)))

  handle_skipped :
      (event : Fields) (c : Consumer W)
      → is_empty (event_id_of wiring.to_text event) ≡ false
      → mem (event_id_of wiring.to_text event) c.seen ≡ true
      → Left (handle wiring.to_text wiring.repr wiring.handler event c) (ok false) c.seen c.dead
  unfolding handle
  handle_skipped event c named h = ground (arith, named, h)

  handle_ran :
      IsApart wiring
      → (event : Fields) (c : Consumer W) (x : Unit {0})
      → is_empty (event_id_of wiring.to_text event) ≡ false
      → mem (event_id_of wiring.to_text event) c.seen ≡ false
      → (wiring.handler event c).0 ≡ ok x
      → Left
          (handle wiring.to_text wiring.repr wiring.handler event c)
          (ok true)
          (event_id_of wiring.to_text event ∷ c.seen)
          c.dead
  unfolding handle
  handle_ran apart event c x named h r =
      ground (arith, r, named, h, apart.seen event c, apart.dead event c)

  handle_parked :
      IsApart wiring
      → (event : Fields) (c : Consumer W) (e : Exc)
      → mem (event_id_of wiring.to_text event) c.seen ≡ false
      → (wiring.handler event c).0 ≡ raised e
      → is_exception e ≡ true
      → Left
          (handle wiring.to_text wiring.repr wiring.handler event c)
          (ok false)
          c.seen
          (c.dead ++ (event, wiring.repr e) ∷ [])
  unfolding handle
  handle_parked apart event c e h r caught =
      rw (h, r, caught) ground (arith, apart.seen event c, apart.dead event c)

  handle_passed :
      IsApart wiring
      → (event : Fields) (c : Consumer W) (e : Exc)
      → mem (event_id_of wiring.to_text event) c.seen ≡ false
      → (wiring.handler event c).0 ≡ raised e
      → is_exception e ≡ false
      → Left (handle wiring.to_text wiring.repr wiring.handler event c) (raised e) c.seen c.dead
  unfolding handle
  handle_passed apart event c e h r free =
      ground (arith, h, r, free, apart.seen event c, apart.dead event c)

  handle-Outcomes :
      IsApart wiring
      → (event : Fields) (c : Consumer W) → is_empty (event_id_of wiring.to_text event) ≡ false
      → Outcomes event c (handle wiring.to_text wiring.repr wiring.handler event c)
  handle-Outcomes apart event c named =
      elim (Bool-cases (mem (event_id_of wiring.to_text event) c.seen)) [
        | inl h ↦ inl (h, handle_skipped event c named h)
        | inr h ↦ elim (Result-cases (wiring.handler event c).0) [
          | inl (x, r) ↦ inr (inl (h, handle_ran apart event c x named h r))
          | inr (e, r) ↦ elim (Bool-cases (is_exception e)) [
            | inl caught ↦ inr (inr (inl (wiring.repr e, handle_parked apart event c e h r caught)))
            | inr free ↦ inr (inr (inr (e, handle_passed apart event c e h r free)))
          ]
        ]
      ]

  -- The ids handled are distinct and just those the consumer remembers, each the id of a delivered
  -- event; each delivered event comes from the broker, and it was handled or parked.
  pub record IsAccounted (s : System B W) : Type 0 where
    pub once : are_distinct s.handled ≡ true
    pub remembered : s.consumer.seen ≡ s.handled
    pub whence :
        (i : Text)
        → mem i s.handled ≡ true
        → (event : Fields) × Memᴰ event s.delivered × (event_id_of wiring.to_text event ≡ i)
    pub taken :
        (event : Fields) → Memᴰ event s.delivered → Memᴰ event (wiring.taken s.relaying.world)
    pub answered :
        (event : Fields)
        → Memᴰ event s.delivered
        → (mem (event_id_of wiring.to_text event) s.handled ≡ true)
          ⊎ ((reason : Text) × Memᴰ (event, reason) s.consumer.dead)

  -- Where the event of a delivery that was not handled now is.
  abbrev pub Known : Fields → List Text → List (Fields × Text) → Type 0
  Known event handled dead =
      (mem (event_id_of wiring.to_text event) handled ≡ true)
      ⊎ ((reason : Text) × Memᴰ (event, reason) dead)

  still-Known :
      (s : System B W) (c : Consumer W) (e : Fields)
      → ((reason : Text) → Memᴰ (e, reason) s.consumer.dead → Memᴰ (e, reason) c.dead)
      → Known e s.handled s.consumer.dead
      → Known e s.handled c.dead
  still-Known s c e keeps (inl h) = inl h
  still-Known s c e keeps (inr (reason, m)) = inr (reason, keeps reason m)

  noted-IsAccounted :
      (s : System B W) (c : Consumer W) (event : Fields)
      → c.seen ≡ s.consumer.seen
      → ((e : Fields) (reason : Text) → Memᴰ (e, reason) s.consumer.dead → Memᴰ (e, reason) c.dead)
      → Memᴰ event (wiring.taken s.relaying.world)
      → Known event s.handled c.dead
      → IsAccounted s
      → IsAccounted (record s { consumer = c; delivered = event ∷ s.delivered })
  noted-IsAccounted s c event same keeps m known acc = record {
    once = acc.once;
    remembered = same ∙ acc.remembered;
    whence = λ i h. let (e, n, is) = acc.whence i h in (e, Memᴰ.tail n, is);
    taken =
        λ e n. elim (Memᴰ.cases_cons n) [ inl new ↦ Memᴰ.cast new m | inr old ↦ acc.taken e old ];
    answered = λ e n. elim (Memᴰ.cases_cons n) [
      | inl new ↦ subst (λ x. Known x s.handled c.dead) (sym new) known
      | inr old ↦ still-Known s c e (keeps e) (acc.answered e old)
    ];
  }

  handled-IsAccounted :
      (s : System B W) (c : Consumer W) (event : Fields)
      → let i = event_id_of wiring.to_text event in
        mem i s.consumer.seen ≡ false
        → c.seen ≡ i ∷ s.consumer.seen
        → c.dead ≡ s.consumer.dead
        → Memᴰ event (wiring.taken s.relaying.world)
        → IsAccounted s
        → IsAccounted
            (record s { consumer = c; delivered = event ∷ s.delivered; handled = i ∷ s.handled })
  unfolding are_distinct mem
  handled-IsAccounted s c event new seen dead m acc =
      let i = event_id_of wiring.to_text event in
      record {
        once = ground (arith, acc.once, ap (mem i) acc.remembered, new);
        remembered = seen ∙ ap (λ l. i ∷ l) acc.remembered;
        whence = λ j h. elim (Bool-cases (text_eq j i)) [
          | inl is ↦ (event, Memᴰ.head refl, sym (eq_of_text_eq j i is))
          | inr not_it ↦ let (e, n, is) = acc.whence j (ground arith) in (e, Memᴰ.tail n, is)
        ];
        taken = λ e n. elim (Memᴰ.cases_cons n) [
          | inl here ↦ Memᴰ.cast here m
          | inr old ↦ acc.taken e old
        ];
        answered = λ e n. elim (Memᴰ.cases_cons n) [
          | inl here ↦ inl (
              ground (
                arith,
                text_eq_iff (event_id_of wiring.to_text e) i,
                ap (event_id_of wiring.to_text) here,
              ))
          | inr old ↦ elim (acc.answered e old) [
            | inl h ↦ inl (ground (arith, h))
            | inr (reason, parked) ↦ inr (reason, rw dead parked)
          ]
        ];
      }

  pub receive-IsAccounted :
      IsApart wiring
      → (s : System B W) (event : Fields) → is_empty (event_id_of wiring.to_text event) ≡ false
      → Memᴰ event (wiring.taken s.relaying.world)
      → IsAccounted s
      → IsAccounted (receive wiring event s)
  unfolding receive
  receive-IsAccounted apart s event named m acc =
      let out = handle wiring.to_text wiring.repr wiring.handler event s.consumer in
      elim (handle-Outcomes apart event s.consumer named) [
        | inl (h, (answer, seen, dead)) ↦ rw answer (
            noted-IsAccounted s out.1 event seen (λ e reason n. rw dead n) m
              (inl (ground (arith, ap (mem (event_id_of wiring.to_text event)) acc.remembered, h)))
              acc)
        | inr (inl (h, (answer, seen, dead))) ↦
            rw answer (handled-IsAccounted s out.1 event h seen dead m acc)
        | inr (inr (inl (reason, (answer, seen, dead)))) ↦ rw answer (
            noted-IsAccounted s out.1 event seen
              (λ e r n. rw dead (Memᴰ.append_left ((event, reason) ∷ []) n)) m
              (inr (reason, rw dead (Memᴰ.append_right s.consumer.dead (Memᴰ.head refl)))) acc)
        | inr (inr (inr (e, (answer, seen, dead)))) ↦ rw answer (record {
          once = acc.once;
          remembered = seen ∙ acc.remembered;
          whence = acc.whence;
          taken = acc.taken;
          answered = λ x n. rw dead (acc.answered x n);
        })
      ]
