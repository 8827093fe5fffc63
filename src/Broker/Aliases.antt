-- ===== src/Broker/Aliases.antt =====
-- broker/broker.c calls handleMessage of SBVK.c at one depth of the stack, so each call's packet lies where
-- the last one's lay; and there every topic's name points.
use embedded_project_exam.Base.{
  ℕ, ◌≡◌, refl, sym, ◌∙◌, subst, true, false, some, List, [], ◌∷◌, arith, take, Option-cases,
  >>=-eq_some, inl, inr,
}
use mathlib.Core.Option.{some-injective}
use embedded_project_exam.Protocol.{Packet, MessageType, of_code, get_message_type}
use embedded_project_exam.Protocol.Wire.{Layout, decode}
use embedded_project_exam.Topics.{Topic, Memory, Frame, enroll, subscribe_topic, store}
use embedded_project_exam.Topics.Spec.{AllPointAt, everyone}
use embedded_project_exam.Topics.Names.{AllPointAt-claim_slot}
use embedded_project_exam.Topics.Laws.{slot_of, enroll-unchanged}
use embedded_project_exam.Device.{Device, emit}
use embedded_project_exam.Device.Handle.{handle_message}
use embedded_project_exam.Device.Keeps.{Keeps, IsFrame, dispatch-Keeps}
use embedded_project_exam.Device.Accepts.{entered, note_ack-Same, Ready, Fits}
use embedded_project_exam.Device.Relay.{Publishes, publish-everyone}
use embedded_project_exam.Broker.{udp_rx_callback, Arrival, run}

-- The slots still point at `a`.
abbrev StaysAt : ℕ → Device → Device → Type 0
StaysAt a s t = AllPointAt a s.topics → AllPointAt a t.topics

emit-StaysAt :
    (a mst rel : ℕ) (option payload : List ℕ) (conn dest : ℕ) (s : Device)
    → Keeps (StaysAt a) (emit mst rel option payload conn dest s) s
unfolding emit
emit-StaysAt a mst rel option payload conn dest s t e w = subst (AllPointAt a) (ground arith) w

StaysAt-IsFrame : (a : ℕ) → IsFrame (StaysAt a)
StaysAt-IsFrame a = record {
  stays = λ s w. w;
  chains = λ s t u h k w. k (h w);
  sends = emit-StaysAt a;
}

subscribe_topic-StaysAt :
    (m : Memory) (option : List ℕ) (addr : ℕ) (f : Frame) (ts us : List Topic)
    → subscribe_topic m option addr f ts ≡ some us
    → AllPointAt f.at ts
    → AllPointAt f.at us
unfolding subscribe_topic
subscribe_topic-StaysAt m option addr f ts us e w = elim (Option-cases (enroll m option addr ts)) [
  | inl fault ↦ absurd (ground (arith, fault))
  | inr ((vs, true), found) ↦
      subst (AllPointAt f.at)
        (sym (enroll-unchanged m option addr ts vs true found) ∙ some-injective _ _ (rw found at e))
        w
  | inr ((vs, false), found) ↦ subst (AllPointAt f.at) (some-injective _ _ (rw found at e)) (
      AllPointAt-claim_slot f.at (slot_of addr f) false vs refl
        (subst (AllPointAt f.at) (sym (enroll-unchanged m option addr ts vs false found)) w))
]

handle_message-StaysAt :
    (p : Packet) (c addr : ℕ) (f : Frame) (s t : Device)
    → handle_message p c addr f s ≡ some t
    → StaysAt f.at s t
unfolding handle_message
handle_message-StaysAt p c addr f s t e w =
    dispatch-Keeps (StaysAt f.at) (StaysAt-IsFrame f.at) p c addr f (of_code (get_message_type p))
      (entered p f s)
      (record {
        connects = λ l u k. k;
        disconnects = λ l u k. k;
        unpings = λ l u k. k;
        pushed = λ l u k. k;
        subscribes =
            λ l u ts h k. subscribe_topic-StaysAt u.memory p.header_option addr f u.topics ts h k;
      })
      t e
      (subst (AllPointAt f.at)
        (sym (note_ack-Same p (record s { memory = store s.memory f.at p })).topics_eq) w)

abbrev pub AllInFrame : ℕ → List Arrival → Type 0
AllInFrame a [] = Unit {0}
AllInFrame a (x ∷ xs) = (x.frame.at ≡ a) × AllInFrame a xs

-- Whatever datagrams a broker takes in one stack frame, afterwards every topic's name points there.
pub run-AllPointAt :
    (layout : Layout) (c a : ℕ) (arrivals : List Arrival) (s t : Device)
    → AllInFrame a arrivals
    → AllPointAt a s.topics
    → run layout c arrivals s ≡ some t
    → AllPointAt a t.topics
unfolding run udp_rx_callback
run-AllPointAt layout c a [] s t h w e =
    subst (λ (u : Device). AllPointAt a u.topics) (some-injective _ _ e) w
run-AllPointAt layout c a (x ∷ xs) s t h w e =
    let (u, first, rest) =
      >>=-eq_some (udp_rx_callback layout c x.sender x.bytes x.frame s) (run layout c xs) e in
    let (p, read, handled) = >>=-eq_some (decode layout x.bytes) _ first in
    let kept = handle_message-StaysAt p c x.sender x.frame s u handled in
    run-AllPointAt layout c a xs u t h.1
      (subst (λ (b : ℕ). AllPointAt b u.topics) h.0
        (kept (subst (λ (b : ℕ). AllPointAt b s.topics) (sym h.0) w)))
      rest

-- A broker of broker/broker.c that starts with every topic's name pointing at one stack frame (as
-- with no topic) and takes any datagrams in that frame, pushes a PUBLISH that it then handles
-- there, on a packet and in a state as handleMessage needs them, to both addresses of every slot
-- in use among the first two, whatever topic the message is on.
pub run-publish-everyone :
    (layout : Layout) (c a sender : ℕ) (arrivals : List Arrival) (s t : Device) (p : Packet)
    (f : Frame) (o v : List ℕ)
    → AllInFrame a arrivals
    → AllPointAt a s.topics
    → run layout c arrivals s ≡ some t
    → Ready t
    → Fits p o v
    → f.at ≡ a
    → of_code p.mst ≡ some MessageType.publish
    → Publishes (handle_message p c sender f t) p c sender f o v (everyone (take 2 t.topics)) t
run-publish-everyone layout c a sender arrivals s t p f o v h w e ready fit fa ty =
    publish-everyone p c sender f o v t fit ready ty
      (rw fa (run-AllPointAt layout c a arrivals s t h w e))
