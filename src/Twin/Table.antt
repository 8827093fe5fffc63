-- ===== src/Twin/Table.antt =====
-- A topic table of the mote's two slots at the front of the host's: a subscription to either.
use embedded_project_exam.Base.{
  ℕ, ◌≡◌, refl, true, false, ◌||◌, List, [], ◌∷◌, ◌++◌, length, drop, arith, inl, inr, Bool-cases,
}
use embedded_project_exam.Topics.{Topic, Memory, Frame, claim_slot}
use embedded_project_exam.Topics.Spec.{has_topic, has_free, AreFree}
use embedded_project_exam.Topics.Laws.{
  slot_of, subscribed, claim_slot_full, claim_slot_created, has_topic-AreFree, length-claim_slot,
}

has_topic-append :
    (m : Memory) (o : List ℕ) (xs ys : List Topic)
    → has_topic m o (xs ++ ys) ≡ (has_topic m o xs || has_topic m o ys)
unfolding has_topic
has_topic-append m o [] ys = refl
has_topic-append m o (t ∷ xs) ys = ground (arith, has_topic-append m o xs ys)

claim_slot-append_free :
    (tp : Topic) (xs ys : List Topic)
    → has_free xs ≡ true
    → claim_slot tp false (xs ++ ys) ≡ claim_slot tp false xs ++ ys
unfolding claim_slot has_free
claim_slot-append_free tp [] ys h = cc
claim_slot-append_free tp (t ∷ xs) ys h = ground (
  arith,
  claim_slot-append_free tp xs ys,
  claim_slot_created tp (xs ++ ys),
  claim_slot_created tp xs,
)

claim_slot-append_full :
    (tp : Topic) (xs ys : List Topic)
    → has_free xs ≡ false
    → claim_slot tp false (xs ++ ys) ≡ xs ++ claim_slot tp false ys
unfolding claim_slot has_free
claim_slot-append_full tp [] ys h = refl
claim_slot-append_full tp (t ∷ xs) ys h = ground (arith, claim_slot-append_full tp xs ys)

-- The table's shape: two slots and the rest, which are free while one of the two is.
pub record Split (ts us : List Topic) : Type 0 where
  pub split : us ≡ ts ++ drop 2 us
  pub two : length ts ≡ 2
  pub compact : has_free ts ≡ true → AreFree (drop 2 us)

drop_two : (xs ys : List Topic) → length xs ≡ 2 → drop 2 (xs ++ ys) ≡ ys
drop_two [] ys h = absurd (omega arith)
drop_two (a ∷ []) ys h = absurd (omega arith)
drop_two (a ∷ b ∷ []) ys h = refl
drop_two (a ∷ b ∷ c ∷ xs) ys h = absurd (omega arith)

-- The shape from its parts.
parts-Split :
    (xs ys : List Topic) → length xs ≡ 2 → (has_free xs ≡ true → AreFree ys) → Split xs (xs ++ ys)
parts-Split xs ys two compact =
    let e = drop_two xs ys two in
    record { split = rw e refl; two = two; compact = λ f. rw e (compact f) }

has_free-claim_slot :
    (tp : Topic) (ts : List Topic) → has_free ts ≡ false → has_free (claim_slot tp false ts) ≡ false
has_free-claim_slot tp ts h = rw (claim_slot_full tp ts h) h

-- A free slot that was claimed was the last, or was not.
has_free-claimed :
    (tp : Topic) (ts : List Topic) → has_free (claim_slot tp false ts) ≡ true → has_free ts ≡ true
has_free-claimed tp ts h = elim (Bool-cases (has_free ts)) [
  | inl e ↦ e
  | inr e ↦ absurd (cc (h, has_free-claim_slot tp ts e))
]

-- The same subscription to both keeps the shape.
subscribed-Split_parts :
    (m : Memory) (o : List ℕ) (addr : ℕ) (f : Frame) (xs ys : List Topic)
    → length xs ≡ 2
    → (has_free xs ≡ true → AreFree ys)
    → Split (subscribed m o addr f xs) (subscribed m o addr f (xs ++ ys))
subscribed-Split_parts m o addr f xs ys two compact = elim (Bool-cases (has_topic m o xs)) [
  | inl old ↦ rw (has_topic-append m o xs ys, old) (parts-Split xs ys two compact)
  | inr new ↦ elim (Bool-cases (has_free xs)) [
    | inl free ↦
        rw (has_topic-append m o xs ys, new, has_topic-AreFree m o ys (compact free))
          (rw (claim_slot-append_free (slot_of addr f) xs ys free) (
            parts-Split _ ys (rw (length-claim_slot (slot_of addr f) false xs) two)
              (λ g. compact free)))
    | inr full ↦ elim (Bool-cases (has_topic m o ys)) [
      | inl there ↦
          rw (has_topic-append m o xs ys, new, there, claim_slot_full (slot_of addr f) xs full)
            (parts-Split xs ys two compact)
      | inr gone ↦
          rw
            (
              has_topic-append m o xs ys,
              new,
              gone,
              claim_slot_full (slot_of addr f) xs full,
              claim_slot-append_full (slot_of addr f) xs ys full,
            )
            (parts-Split xs _ two (λ g. absurd (cc (g, full))))
    ]
  ]
]

pub subscribed-Split :
    (m : Memory) (o : List ℕ) (addr : ℕ) (f : Frame) (ts us : List Topic)
    → Split ts us
    → Split (subscribed m o addr f ts) (subscribed m o addr f us)
subscribed-Split m o addr f ts us k =
    rw k.split (subscribed-Split_parts m o addr f ts (drop 2 us) k.two k.compact)
