-- ===== src/Host/Registry.antt =====
-- What the broker of ControlServer/SBVK_broker.c keeps of the messages it handled, seen from outside: the
-- addresses of one subscription and one topic. receiveUDP calls handleMessage at one depth of the stack, so
-- each call's packet lies where the last one's lay, and every topic's name points there.
use embedded_project_exam.Base.{
  ℕ, ◌≡◌, refl, true, Option, none, some, List, [], ◌∷◌, if◌then◌else◌, arith, take, zero, suc,
  ==_true,
}
use mathlib.Core.List.{append-nil}
use embedded_project_exam.CString.{text}
use embedded_project_exam.CString.Laws.{same, same_self}
use embedded_project_exam.Protocol.{Packet, MessageType}
use embedded_project_exam.Topics.{Topic, Memory, Frame, set_first, claim_slot, store}
use embedded_project_exam.Topics.Spec.{recipients, has_topic, has_free, AreFree}
use embedded_project_exam.Topics.Laws.{
  slot_of, subscribed, claim_slot_created, has_topic-AreFree, recipients_missing,
}

-- The addresses of the one subscription, and the text that its slot's name reads as.
pub record Registry : Type 0 where
  pub holder : Option (List ℕ)
  pub topic : List ℕ

-- Nobody has subscribed.
abbrev pub nobody : Registry
nobody = record { holder = none; topic = [] }

-- The first subscription is held, whatever follows.
abbrev pub claim : List ℕ → Option (List ℕ) → Option (List ℕ)
claim ips none = some ips
claim ips (some held) = some held

abbrev pub claims : Option MessageType → List ℕ → Option (List ℕ) → Option (List ℕ)
claims (some MessageType.subscribe) ips holder = claim ips holder
claims _ ips holder = holder

abbrev pub held : Option (List ℕ) → List ℕ
held none = []
held (some ips) = ips

-- Where a message on the topic `q` goes.
abbrev pub targets : Registry → List ℕ → List ℕ
targets r q = if same r.topic q then held r.holder else []

-- The table stands for the registry, its names read at address `a`.
abbrev pub Shows : ℕ → Memory → List Topic → Option (List ℕ) → List ℕ → Type 0
Shows a m ts none o = AreFree ts × (has_free ts ≡ true)
Shows a m ts (some ips) o =
    (rest : List Topic) × (ts ≡ record { name = some a; ips = ips } ∷ rest)
    × AreFree rest
    × (text (m a).header_option ≡ some o)

-- A message comes in: its topic is what the name reads as.
pub Shows-store :
    (a : ℕ) (m : Memory) (p : Packet) (ts : List Topic) (holder : Option (List ℕ)) (o o' : List ℕ)
    → text p.header_option ≡ some o'
    → Shows a m ts holder o
    → Shows a (store m a p) ts holder o'
Shows-store a m p ts none o o' e s = s
Shows-store a m p ts (some ips) o o' e (rest, at, free, _) =
    (rest, at, free, rw (==_true a a refl) e)

subscribed_free :
    (m : Memory) (o : List ℕ) (addr : ℕ) (f : Frame) (ts : List Topic)
    → AreFree ts
    → has_free ts ≡ true
    → (rest : List Topic) × (subscribed m o addr f ts ≡ slot_of addr f ∷ rest) × AreFree rest
unfolding has_topic has_free claim_slot
subscribed_free m o addr f [] w h = cc
subscribed_free m o addr f (t ∷ ts) w h = (
  ts,
  ground (arith, w.0, has_topic-AreFree m o ts w.1, claim_slot_created (slot_of addr f) ts),
  w.1,
)

-- A SUBSCRIBE claims the one slot, or finds its topic there.
pub Shows-subscribed :
    (a : ℕ) (m : Memory) (addr : ℕ) (tp : Topic) (ts : List Topic) (holder : Option (List ℕ))
    (o : List ℕ)
    → text (m a).header_option ≡ some o
    → Shows a m ts holder o
    → Shows a m
        (subscribed m o addr (record { at = a; tp = tp }) ts)
        (claim (set_first addr tp.ips) holder)
        o
unfolding has_topic
Shows-subscribed a m addr tp ts none o e (w, h) =
    let (rest, now, free) = subscribed_free m o addr (record { at = a; tp = tp }) ts w h in
    (rest, now, free, e)
Shows-subscribed a m addr tp ts (some ips) o e (rest, at, free, e') =
    (rest, rw (at, e, same_self o) refl, free, e)

take_free : (n : ℕ) (ts : List Topic) → AreFree ts → AreFree (take n ts)
take_free zero ts w = tt
take_free (suc n) [] w = tt
take_free (suc n) (t ∷ ts) w = (w.0, take_free n ts w.1)

free_recipients : (m : Memory) (q : List ℕ) (ts : List Topic) → AreFree ts → recipients m q ts ≡ []
free_recipients m q ts w = recipients_missing m q ts (has_topic-AreFree m q ts w)

-- A walk over any number of slots but none reaches the targets.
pub Shows-recipients :
    (a : ℕ) (m : Memory) (ts : List Topic) (holder : Option (List ℕ)) (o : List ℕ) (n : ℕ)
    (q : List ℕ)
    → Shows a m ts holder o
    → recipients m q (take (suc n) ts) ≡ targets (record { holder = holder; topic = o }) q
unfolding recipients
Shows-recipients a m ts none o n q (w, h) =
    ground (arith, free_recipients m q (take (suc n) ts) (take_free (suc n) ts w))
Shows-recipients a m ts (some ips) o n q (rest, at, free, e) =
    rw at
      (ground (arith, free_recipients m q (take n rest) (take_free n rest free), append-nil ips, e))
