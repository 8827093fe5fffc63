-- ===== src/Twin/Handles.antt =====
-- handleMessage of SBVK.c and of ControlServer/SBVK_broker.c, from states that are alike.
use embedded_project_exam.Base.{
  ℕ, ◌≡◌, ◌≢◌, refl, ◌∙◌, ap, true, false, not, ◌&&◌, Option, none, some, List, [], ◌∷◌, ◌++◌,
  length, take, drop, arith, inl, inr, Bool-cases, Option-cases, ◌==◌, if◌then◌else◌,
}
use embedded_project_exam.CString.{text, lit, strcmp}
use embedded_project_exam.Protocol.{Packet, MessageType, of_code}
use embedded_project_exam.Protocol
use embedded_project_exam.Topics.{Topic, Memory, Frame, matches, store, subscribe_topic}
use embedded_project_exam.Topics.Spec.{WellNamed}
use embedded_project_exam.Topics.Laws.{subscribe_topic_lem, subscribed}
use embedded_project_exam.Topics.Names.{WellNamed-store}
use embedded_project_exam.Topics.Loops
use embedded_project_exam.Device.{Device}
use embedded_project_exam.Device.Processes.{stop_ping_thread}
use embedded_project_exam.Device.Handle as MoteHandle
use embedded_project_exam.Host.{Host}
use embedded_project_exam.Host.Handle as HostHandle
use embedded_project_exam.Host.Messages as HostMessages
use embedded_project_exam.Device.Messages.{pub_ack}
use embedded_project_exam.Host.Accepts.{entered-Same}
use embedded_project_exam.Twin.{Alike, Both, Both-bind}
use embedded_project_exam.Twin.Sends.{
  hello-Both, connect-Both, conn_ack-Both, sub_ack-Both, pub_ack-Both, pingresp-Both, push-Both,
}
use embedded_project_exam.Twin.Table.{subscribed-Split}

stored-Alike :
    (p : Packet) (a : ℕ) (d : Device) (h : Host)
    → Alike d h
    → Alike (record d { memory = store d.memory a p }) (record h { memory = store h.memory a p })
stored-Alike p a d h k = ground (arith, ap (λ (m : Memory). store m a p) k.memory_eq)

note_ack-Alike :
    (p : Packet) (d : Device) (h : Host)
    → Alike d h
    → Alike (MoteHandle.note_ack p d) (HostHandle.note_ack p h)
unfolding MoteHandle.note_ack HostHandle.note_ack Protocol.get_message_type
    HostHandle.get_message_type
note_ack-Alike p d h k = elim (Bool-cases (not d.ack_rcv && p.mst == d.ack_type_wanted)) [
  | inl e ↦
      let e' : (not h.ack_rcv && p.mst == h.ack_type_wanted) ≡ true =
        rw (k.ack_rcv_eq, k.wanted_eq) e in
      rw (e, e') (ground arith)
  | inr e ↦
      let e' : (not h.ack_rcv && p.mst == h.ack_type_wanted) ≡ false =
        rw (k.ack_rcv_eq, k.wanted_eq) e in
      rw (e, e') (ground arith)
]

entered-Alike :
    (p : Packet) (f : Frame) (d : Device) (h : Host)
    → Alike d h
    → Alike
        (MoteHandle.note_ack p (record d { memory = store d.memory f.at p }))
        (HostHandle.note_ack p (record h { memory = store h.memory f.at p }))
entered-Alike p f d h k = note_ack-Alike p _ _ (stored-Alike p f.at d h k)

take_two : (xs ys : List Topic) → length xs ≡ 2 → take 2 (xs ++ ys) ≡ take 2 xs
take_two [] ys e = absurd (omega arith)
take_two (a ∷ []) ys e = absurd (omega arith)
take_two (a ∷ b ∷ xs) ys e = refl

-- PUBLISH walks the same two slots.
two_slots : (d : Device) (h : Host) → Alike d h → take 2 h.topics ≡ take 2 d.topics
two_slots d h k =
    ap (λ (ts : List Topic). take 2 ts) k.topics_split ∙ take_two d.topics (drop 2 h.topics) k.two

WellNamed-left : (m : Memory) (xs ys : List Topic) → WellNamed m (xs ++ ys) → WellNamed m xs
WellNamed-left m [] ys w = tt
WellNamed-left m (x ∷ xs) ys w = (w.0, WellNamed-left m xs ys w.1)

enrolled-Alike :
    (o : List ℕ) (addr : ℕ) (f : Frame) (d : Device) (h : Host)
    → Alike d h
    → Alike
        (record d { topics = subscribed d.memory o addr f d.topics })
        (record h { topics = subscribed d.memory o addr f h.topics })
enrolled-Alike o addr f d h k =
    let s =
      subscribed-Split d.memory o addr f d.topics h.topics
        (record { split = k.topics_split; two = k.two; compact = k.compact }) in
    ground (arith, s.split, s.two, s.compact)

module _ (p : Packet) (c : ℕ) where
  push_each-Both :
      (ips : List ℕ) (d : Device) (h : Host)
      → Alike d h
      → Both
          (Loops.push_each (λ (s : Device). s.memory) (MoteHandle.push_message p c) ips d)
          (Loops.push_each (λ (s : Host). s.memory) (HostHandle.push_message p c) ips h)
  unfolding Loops.push_each MoteHandle.push_message HostHandle.push_message
  push_each-Both [] d h k = k
  push_each-Both (ip ∷ ips) d h k =
      Both-bind _ _ _ _ (push-Both c ip d h k _ _ _) (λ d' h' k'. push_each-Both ips d' h' k')

  forward-Both :
      (ts : List Topic) (d : Device) (h : Host)
      → Alike d h
      → Both
          (Loops.forward
            (λ (s : Device). s.memory)
            (MoteHandle.push_message p c)
            p.header_option
            ts
            d)
          (Loops.forward
            (λ (s : Host). s.memory)
            (HostHandle.push_message p c)
            p.header_option
            ts
            h)
  unfolding Loops.forward
  forward-Both [] d h k = k
  forward-Both (t ∷ ts) d h k = elim (Option-cases (matches d.memory p.header_option t)) [
    | inl e ↦ let e' : matches h.memory p.header_option t ≡ none = rw k.memory_eq e in rw (e, e') tt
    | inr (true, e) ↦
        let e' : matches h.memory p.header_option t ≡ some true = rw k.memory_eq e in
        rw (e, e')
          (Both-bind _ _ _ _ (push_each-Both t.ips d h k) (λ d' h' k'. forward-Both ts d' h' k'))
    | inr (false, e) ↦
        let e' : matches h.memory p.header_option t ≡ some false = rw k.memory_eq e in
        rw (e, e') (forward-Both ts d h k)
  ]

  module _ (addr : ℕ) (d : Device) (h : Host) (k : Alike d h) where
    hello_handled : Both (MoteHandle.handle_hello p c addr d) (HostHandle.handle_hello p c addr h)
    unfolding MoteHandle.handle_hello HostHandle.handle_hello
    hello_handled = elim (Option-cases (strcmp p.header_option (lit "init"))) [
      | inl e ↦ rw e tt
      | inr (true, e) ↦ rw e (hello-Both c addr d h k false refl)
      | inr (false, e) ↦ rw e (connect-Both c addr d h k)
    ]

    acknowledged :
        Both
          (if p.rel == 1 then pub_ack c addr d else some d)
          (if p.rel == 1 then HostMessages.pub_ack c addr h else some h)
    acknowledged = elim (Bool-cases (p.rel == 1)) [
      | inl e ↦ rw e (pub_ack-Both c addr d h k)
      | inr e ↦ rw e k
    ]

    publish_handled :
        Both (MoteHandle.handle_publish p c addr d) (HostHandle.handle_publish p c addr h)
    unfolding MoteHandle.handle_publish HostHandle.handle_publish MoteHandle.forward
    publish_handled =
        Both-bind _ _ _ _ acknowledged
          (λ d' h' k'. rw (two_slots d' h' k') (forward-Both (take 2 d'.topics) d' h' k'))

    subscribe_handled :
        (o : List ℕ) (f : Frame)
        → text p.header_option ≡ some o
        → WellNamed h.memory h.topics
        → Both (MoteHandle.handle_subscribe p c addr f d) (HostHandle.handle_subscribe p c addr f h)
    unfolding MoteHandle.handle_subscribe HostHandle.handle_subscribe
    subscribe_handled o f e w =
        let here : WellNamed d.memory h.topics = rw (← k.memory_eq) w in
        let there : WellNamed d.memory d.topics =
          WellNamed-left d.memory d.topics (drop 2 h.topics) (rw (← k.topics_split) here) in
        let found : subscribe_topic h.memory p.header_option addr f h.topics
            ≡ some (subscribed d.memory o addr f h.topics) =
          rw k.memory_eq (subscribe_topic_lem d.memory p.header_option o addr f h.topics e here) in
        rw (subscribe_topic_lem d.memory p.header_option o addr f d.topics e there, found)
          (sub_ack-Both c addr _ _ (enrolled-Alike o addr f d h k))

    dispatch-Both :
        (l : Option MessageType) (o : List ℕ) (f : Frame)
        → l ≢ some MessageType.push
        → text p.header_option ≡ some o
        → WellNamed h.memory h.topics
        → Both (MoteHandle.dispatch l p c addr f d) (HostHandle.dispatch l p c addr f h)
    unfolding MoteHandle.dispatch HostHandle.dispatch stop_ping_thread
    dispatch-Both (some MessageType.hello) o f n e w = hello_handled
    dispatch-Both (some MessageType.publish) o f n e w = publish_handled
    dispatch-Both (some MessageType.subscribe) o f n e w = subscribe_handled o f e w
    dispatch-Both (some MessageType.disconnect) o f n e w = ground arith
    dispatch-Both (some MessageType.connect) o f n e w = conn_ack-Both c addr d h k
    dispatch-Both (some MessageType.connack) o f n e w = ground arith
    dispatch-Both (some MessageType.pingreq) o f n e w = pingresp-Both c addr d h k
    dispatch-Both (some MessageType.pingresp) o f n e w = ground arith
    dispatch-Both (some MessageType.push) o f n e w = absurd (n refl)
    dispatch-Both _ o f n e w = k

-- handleMessage of SBVK.c and handleMessage of ControlServer/SBVK_broker.c do the same on any
-- packet but a PUSH, called with the same connection, sender and frame: from states with the same
-- memory, stack, wait, stored packet and datagrams, where the mote's two slots are the host's
-- first two and all others are free while one of the two is, the option is a text and the host's
-- names can be read, either both fault, or both return and the states are again alike in all of
-- this.
pub handle_message-Both :
    (p : Packet) (c addr : ℕ) (f : Frame) (o : List ℕ) (d : Device) (h : Host)
    → Alike d h
    → of_code p.mst ≢ some MessageType.push
    → text p.header_option ≡ some o
    → WellNamed h.memory h.topics
    → Both (MoteHandle.handle_message p c addr f d) (HostHandle.handle_message p c addr f h)
unfolding MoteHandle.handle_message HostHandle.handle_message Protocol.get_message_type
    HostHandle.get_message_type
handle_message-Both p c addr f o d h k n e w =
    let same = entered-Same p f h in
    dispatch-Both p c addr _ _ (entered-Alike p f d h k) (of_code p.mst) o f n e
      (rw (same.memory_eq, same.topics_eq) (WellNamed-store h.memory f.at p o h.topics e w))
