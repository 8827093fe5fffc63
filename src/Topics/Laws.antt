-- ===== src/Topics/Laws.antt =====
-- The loops over the topic table against what the table stands for.
use embedded_project_exam.Base.{
  ℕ, Bool, true, false, Option, none, some, List, [], ◌∷◌, ◌≡◌, refl, ap, arith, if◌then◌else◌,
  length, Bool-cases, Option-cases, inl, inr,
}
use mathlib.Core.List.{append-nil}
use embedded_project_exam.CString.{text}
use embedded_project_exam.CString.Laws.{same, same_iff, strcmp-same}
use embedded_project_exam.Topics.{
  Topic, Memory, Frame, matches, fill_ips, enroll, claim_slot, set_first, subscribe_topic,
}
use embedded_project_exam.Topics.Spec.{
  name_is, recipients, has_topic, has_free, IsReadable, WellNamed, registered, AreFree,
}

fill_ips_same : (addr : ℕ) (ips : List ℕ) → fill_ips addr ips ≡ ips
unfolding fill_ips
fill_ips_same addr [] = refl
fill_ips_same addr (ip ∷ ips) = ap (◌∷◌ ip) (fill_ips_same addr ips)

-- The test of the loops compares the texts.
matches_name :
    (m : Memory) (option o : List ℕ) (n : Option ℕ) (ips : List ℕ)
    → text option ≡ some o
    → IsReadable m n
    → matches m option (record { name = n; ips = ips }) ≡ some (name_is m o n)
unfolding matches
matches_name m option o none ips h r = refl
matches_name m option o (some a) ips h (t, e) = rw e (strcmp-same _ option t o e h)

pub matches_lem :
    (m : Memory) (option o : List ℕ) (t : Topic)
    → text option ≡ some o
    → IsReadable m t.name
    → matches m option t ≡ some (name_is m o t.name)
matches_lem m option o t h r = matches_name m option o t.name t.ips h r

-- The first loop changes no slot.
pub enroll_lem :
    (m : Memory) (option o : List ℕ) (addr : ℕ) (ts : List Topic)
    → text option ≡ some o
    → WellNamed m ts
    → enroll m option addr ts ≡ some (ts, has_topic m o ts)
unfolding enroll has_topic
enroll_lem m option o addr [] h w = refl
enroll_lem m option o addr (t ∷ ts) h w = ground (
  arith,
  matches_lem m option o t h w.0,
  enroll_lem m option o addr ts h w.1,
  fill_ips_same addr t.ips,
)

fill_same :
    (addr : ℕ) (hit : Bool) (t : Topic)
    → (if hit then record t { ips = fill_ips addr t.ips } else t) ≡ t
fill_same addr true t = ap (λ (ips : List ℕ). record t { ips = ips }) (fill_ips_same addr t.ips)
fill_same addr false t = refl

-- Nor does it on names that cannot be read, if it finishes.
pub enroll-unchanged :
    (m : Memory) (option : List ℕ) (addr : ℕ) (ts us : List Topic) (b : Bool)
    → enroll m option addr ts ≡ some (us, b)
    → us ≡ ts
unfolding enroll
enroll-unchanged m option addr [] us b e = ground arith
enroll-unchanged m option addr (t ∷ ts) us b e = elim (Option-cases (matches m option t)) [
  | inl fault ↦ absurd (ground (arith, fault))
  | inr (hit, found) ↦ elim (Option-cases (enroll m option addr ts)) [
    | inl fault ↦ absurd (ground (arith, fault, found))
    | inr ((us', b'), more) ↦
        let rest = enroll-unchanged m option addr ts us' b' more in
        ground (arith, fill_same addr hit t, rest, found, more)
  ]
]

pub has_topic-AreFree :
    (m : Memory) (o : List ℕ) (ts : List Topic) → AreFree ts → has_topic m o ts ≡ false
unfolding has_topic
has_topic-AreFree m o [] w = refl
has_topic-AreFree m o (t ∷ ts) w = ground (arith, has_topic-AreFree m o ts w.1, w.0)

pub claim_slot_created : (tp : Topic) (ts : List Topic) → claim_slot tp true ts ≡ ts
unfolding claim_slot
claim_slot_created tp [] = refl
claim_slot_created tp (t ∷ ts) = ground (arith, claim_slot_created tp ts)

pub length-claim_slot :
    (tp : Topic) (created : Bool) (ts : List Topic) → length (claim_slot tp created ts) ≡ length ts
unfolding claim_slot
length-claim_slot tp created [] = refl
length-claim_slot tp created (t ∷ ts) =
    ground (arith, length-claim_slot tp created ts, length-claim_slot tp true ts)

pub claim_slot_full :
    (tp : Topic) (ts : List Topic) → has_free ts ≡ false → claim_slot tp false ts ≡ ts
unfolding claim_slot has_free
claim_slot_full tp [] h = refl
claim_slot_full tp (t ∷ ts) h = ground (arith, claim_slot_full tp ts)

pub recipients_missing :
    (m : Memory) (q : List ℕ) (ts : List Topic) → has_topic m q ts ≡ false → recipients m q ts ≡ []
unfolding recipients has_topic
recipients_missing m q [] h = refl
recipients_missing m q (t ∷ ts) h = ground (arith, recipients_missing m q ts)

-- A slot taken by another topic's name changes nothing for `q`.
recipients-claim_slot_other :
    (m : Memory) (q : List ℕ) (tp : Topic) (ts : List Topic)
    → name_is m q tp.name ≡ false
    → recipients m q (claim_slot tp false ts) ≡ recipients m q ts
unfolding recipients claim_slot
recipients-claim_slot_other m q tp [] h = refl
recipients-claim_slot_other m q tp (t ∷ ts) h =
    ground (arith, claim_slot_created tp ts, recipients-claim_slot_other m q tp ts h)

recipients-claim_slot_new :
    (m : Memory) (q : List ℕ) (tp : Topic) (ts : List Topic)
    → name_is m q tp.name ≡ true
    → has_topic m q ts ≡ false
    → has_free ts ≡ true
    → recipients m q (claim_slot tp false ts) ≡ tp.ips
unfolding recipients claim_slot has_topic has_free
recipients-claim_slot_new m q tp [] n h f = cc
recipients-claim_slot_new m q tp (t ∷ ts) n h f = ground (
  arith,
  claim_slot_created tp ts,
  recipients_missing m q ts,
  append-nil tp.ips,
  recipients-claim_slot_new m q tp ts n,
)

-- The slot that a new topic gets.
abbrev pub slot_of : ℕ → Frame → Topic
slot_of addr f = record { name = some f.at; ips = set_first addr f.tp.ips }

-- The table after a subscription.
abbrev pub subscribed : Memory → List ℕ → ℕ → Frame → List Topic → List Topic
subscribed m o addr f ts = if has_topic m o ts then ts else claim_slot (slot_of addr f) false ts

-- A subscription never faults on readable names.
pub subscribe_topic_lem :
    (m : Memory) (option o : List ℕ) (addr : ℕ) (f : Frame) (ts : List Topic)
    → text option ≡ some o
    → WellNamed m ts
    → subscribe_topic m option addr f ts ≡ some (subscribed m o addr f ts)
unfolding subscribe_topic
subscribe_topic_lem m option o addr f ts h w = rw (enroll_lem m option o addr ts h w)

recipients-claimed :
    (m : Memory) (o : List ℕ) (addr : ℕ) (f : Frame) (ts : List Topic) (q : List ℕ)
    → text (m f.at).header_option ≡ some o
    → has_topic m o ts ≡ false
    → has_free ts ≡ true
    → recipients m q (claim_slot (slot_of addr f) false ts)
      ≡ (if same o q then set_first addr f.tp.ips else recipients m q ts)
recipients-claimed m o addr f ts q e new free = elim (Bool-cases (same o q)) [
  | inr differs ↦ rw differs (recipients-claim_slot_other m q (slot_of addr f) ts (rw e differs))
  | inl agree ↦ rw agree (
      recipients-claim_slot_new m q (slot_of addr f) ts (rw e agree)
        (rw (← (same_iff o q).0 agree) new) free)
]

-- The table after a subscription, if the topic's text lies in the frame of the call, sends
-- messages on each topic where `registered` says: as before if the topic was there or the table
-- was full, and to the addresses of the new slot if the topic is the new one.
pub recipients-subscribed :
    (m : Memory) (o : List ℕ) (addr : ℕ) (f : Frame) (ts : List Topic) (q : List ℕ)
    → text (m f.at).header_option ≡ some o
    → recipients m q (subscribed m o addr f ts) ≡ registered m o (set_first addr f.tp.ips) ts q
recipients-subscribed m o addr f ts q e = elim (Bool-cases (has_topic m o ts)) [
  | inl old ↦ rw old
  | inr new ↦ elim (Bool-cases (has_free ts)) [
    | inl free ↦ rw (new, free) (recipients-claimed m o addr f ts q e new free)
    | inr full ↦ rw (new, full, claim_slot_full (slot_of addr f) ts full)
  ]
]
