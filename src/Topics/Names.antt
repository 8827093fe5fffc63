-- ===== src/Topics/Names.antt =====
-- What the names of the topic table point at, across calls of handleMessage.
use embedded_project_exam.Base.{
  ℕ, Bool, true, false, Option, none, some, List, [], ◌∷◌, ◌≡◌, refl, arith, Bool-cases, inl, inr,
  ◌==◌, take, zero, suc,
}
use embedded_project_exam.CString.{text}
use embedded_project_exam.CString.Laws.{same_self}
use embedded_project_exam.Protocol.{Packet}
use embedded_project_exam.Topics.{Topic, Memory, Frame, claim_slot, store}
use embedded_project_exam.Topics.Laws.{slot_of, subscribed}
use embedded_project_exam.Topics.Spec.{
  recipients, has_topic, everyone, IsReadable, WellNamed, PointsAt, AllPointAt, NoneAt, registered,
}

IsReadable-store :
    (m : Memory) (a : ℕ) (p : Packet) (o : List ℕ) (n : Option ℕ)
    → text p.header_option ≡ some o
    → IsReadable m n
    → IsReadable (store m a p) n
IsReadable-store m a p o none h r = tt
IsReadable-store m a p o (some b) h r = elim (Bool-cases (a == b)) [
  | inl e ↦ (o, rw e h)
  | inr e ↦ (r.0, rw e (r.1))
]

-- Readable names stay readable when a packet with a readable option comes in.
pub WellNamed-store :
    (m : Memory) (a : ℕ) (p : Packet) (o : List ℕ) (ts : List Topic)
    → text p.header_option ≡ some o
    → WellNamed m ts
    → WellNamed (store m a p) ts
WellNamed-store m a p o [] h w = tt
WellNamed-store m a p o (t ∷ ts) h w =
    (IsReadable-store m a p o t.name h w.0, WellNamed-store m a p o ts h w.1)

WellNamed-claim_slot :
    (m : Memory) (tp : Topic) (created : Bool) (ts : List Topic)
    → IsReadable m tp.name
    → WellNamed m ts
    → WellNamed m (claim_slot tp created ts)
unfolding claim_slot
WellNamed-claim_slot m tp created [] r w = tt
WellNamed-claim_slot m tp created (t ∷ ts) r w =
    ground
      (arith, WellNamed-claim_slot m tp created ts r w.1, WellNamed-claim_slot m tp true ts r w.1)

pub WellNamed-subscribed :
    (m : Memory) (o : List ℕ) (addr : ℕ) (f : Frame) (ts : List Topic)
    → text (m f.at).header_option ≡ some o
    → WellNamed m ts
    → WellNamed m (subscribed m o addr f ts)
WellNamed-subscribed m o addr f ts e w = elim (Bool-cases (has_topic m o ts)) [
  | inl old ↦ rw old w
  | inr new ↦ rw new (WellNamed-claim_slot m (slot_of addr f) false ts (o, e) w)
]

pub AllPointAt-claim_slot :
    (a : ℕ) (tp : Topic) (created : Bool) (ts : List Topic)
    → PointsAt a tp.name
    → AllPointAt a ts
    → AllPointAt a (claim_slot tp created ts)
unfolding claim_slot
AllPointAt-claim_slot a tp created [] r w = tt
AllPointAt-claim_slot a tp created (t ∷ ts) r w =
    ground
      (arith, AllPointAt-claim_slot a tp created ts r w.1, AllPointAt-claim_slot a tp true ts r w.1)

pub AllPointAt-take : (a n : ℕ) (ts : List Topic) → AllPointAt a ts → AllPointAt a (take n ts)
AllPointAt-take a zero ts w = tt
AllPointAt-take a (suc n) [] w = tt
AllPointAt-take a (suc n) (t ∷ ts) w = (w.0, AllPointAt-take a n ts w.1)

pub WellNamed-take :
    (m : Memory) (n : ℕ) (ts : List Topic) → WellNamed m ts → WellNamed m (take n ts)
WellNamed-take m zero ts w = tt
WellNamed-take m (suc n) [] w = tt
WellNamed-take m (suc n) (t ∷ ts) w = (w.0, WellNamed-take m n ts w.1)

-- With every name pointing at the packet that came in, its topic is every topic.
pub recipients-store_alias :
    (m : Memory) (a : ℕ) (p : Packet) (o : List ℕ) (ts : List Topic)
    → AllPointAt a ts
    → text p.header_option ≡ some o
    → recipients (store m a p) o ts ≡ everyone ts
unfolding recipients everyone
recipients-store_alias m a p o [] w h = refl
recipients-store_alias m a p o (t ∷ ts) w h =
    ground (arith, recipients-store_alias m a p o ts w.1, same_self o)

-- A name that points elsewhere reads as before.
pub recipients-store_fresh :
    (m : Memory) (a : ℕ) (p : Packet) (q : List ℕ) (ts : List Topic)
    → NoneAt a ts
    → recipients (store m a p) q ts ≡ recipients m q ts
unfolding recipients
recipients-store_fresh m a p q [] w = refl
recipients-store_fresh m a p q (t ∷ ts) w = ground (arith, recipients-store_fresh m a p q ts w.1)

has_topic-store_fresh :
    (m : Memory) (a : ℕ) (p : Packet) (q : List ℕ) (ts : List Topic)
    → NoneAt a ts
    → has_topic (store m a p) q ts ≡ has_topic m q ts
unfolding has_topic
has_topic-store_fresh m a p q [] w = refl
has_topic-store_fresh m a p q (t ∷ ts) w = ground (arith, has_topic-store_fresh m a p q ts w.1)

-- So a subscription has the effect that it has before the packet is stored.
pub registered-store_fresh :
    (m : Memory) (a : ℕ) (p : Packet) (o ips q : List ℕ) (ts : List Topic)
    → NoneAt a ts
    → registered (store m a p) o ips ts q ≡ registered m o ips ts q
registered-store_fresh m a p o ips q ts w =
    rw (has_topic-store_fresh m a p o ts w, recipients-store_fresh m a p q ts w) refl
