-- ===== src/Device/Accepts.antt =====
-- handleMessage on the packets that the protocol sends: it finishes, and keeps the state fit for the
-- next message.
use embedded_project_exam.Base.{
  ℕ, ◌<◌, ◌≡◌, refl, true, Option, some, List, arith, length, take, ◌==◌, Bool-cases, ==_true, inl,
  inr, codes,
}
use embedded_project_exam.CString.{lit, text}
use embedded_project_exam.CString.Laws.{same, strcmp-same}
use embedded_project_exam.Protocol.{Packet, MessageType, of_code, get_message_type}
use embedded_project_exam.Topics.{Memory, Frame, store}
use embedded_project_exam.Topics.Spec.{WellNamed}
use embedded_project_exam.Topics.Laws.{subscribe_topic_lem, subscribed}
use embedded_project_exam.Topics.Names.{WellNamed-store, WellNamed-subscribed, WellNamed-take}
use embedded_project_exam.Device.{Device}
use embedded_project_exam.Device.Processes.{stop_ping_thread}
use embedded_project_exam.Device.Handle.{
  note_ack, forward, handle_hello, handle_publish, handle_subscribe, handle_push, dispatch,
  handle_message,
}
use embedded_project_exam.Device.Fanout.{
  Same, sent_by-Same, IsClean-Same, PushedTo-Same, forward-PushedTo,
}
use embedded_project_exam.Device.Sends.{
  sent_by, Emits, IsClean, hello_response-Emits, connect-Emits, conn_ack-Emits, sub_ack-Emits,
  pub_ack-Emits, push_ack-Emits, pingresp-Emits,
}

-- What a device needs to take a message: a stack that createPacket finds clean, readable names.
pub record Ready (s : Device) : Type 0 where
  pub clean : IsClean s
  pub named : WellNamed s.memory s.topics

-- A packet whose arrays hold texts, and whose payload leaves room for the two spaces of a relay.
pub record Fits (p : Packet) (o v : List ℕ) : Type 0 where
  pub option_text : text p.header_option ≡ some o
  pub payload_text : text p.payload ≡ some v
  pub option_fits : length o < 20
  pub payload_fits : length v < 48

abbrev pub Finishes : Option Device → Type 0
Finishes r = (t : Device) × (r ≡ some t) × Ready t

pub Same-Ready : (s t : Device) → Same s t → Ready s → Ready t
Same-Ready s t k h = record {
  clean = IsClean-Same s t k h.clean;
  named = rw (k.memory_eq, k.topics_eq) h.named;
}

pub Emits-Finishes :
    {r : Option Device} {s : Device} (conn dest : ℕ) {mst rel : ℕ} {o v : List ℕ}
    → Emits r s conn dest mst rel o v
    → Ready s
    → Finishes r
Emits-Finishes {s} conn dest (p, e, c) h =
    (sent_by p conn dest s, e, Same-Ready s _ (sent_by-Same p conn dest s) h)

pub note_ack-Same : (p : Packet) (s : Device) → Same s (note_ack p s)
unfolding note_ack
note_ack-Same p s = ground arith

store_self : (m : Memory) (a : ℕ) (p : Packet) → store m a p a ≡ p
store_self m a p = rw (==_true a a refl)

-- The state in which the switch starts.
abbrev pub entered : Packet → Frame → Device → Device
entered p f s = note_ack p (record s { memory = store s.memory f.at p })

pub entered-memory : (p : Packet) (f : Frame) (s : Device) → (entered p f s).memory f.at ≡ p
entered-memory p f s =
    rw ((note_ack-Same p (record s { memory = store s.memory f.at p })).memory_eq)
      (store_self s.memory f.at p)

pub entered-Ready :
    (p : Packet) (f : Frame) (o : List ℕ) (s : Device)
    → text p.header_option ≡ some o
    → Ready s
    → Ready (entered p f s)
entered-Ready p f o s e h =
    Same-Ready _ _ (note_ack-Same p (record s { memory = store s.memory f.at p }))
      (record { clean = h.clean; named = WellNamed-store s.memory f.at p o s.topics e h.named })

module _ (p : Packet) (conn addr : ℕ) (f : Frame) (o v : List ℕ) (fit : Fits p o v) where
  hello-Finishes : (s : Device) → Ready s → Finishes (handle_hello p conn addr s)
  unfolding handle_hello text
  hello-Finishes s h =
      let compared =
        strcmp-same p.header_option (lit "init") o (codes "init") fit.option_text refl in
      elim (Bool-cases (same o (codes "init"))) [
        | inl e ↦
            rw (compared, e) (Emits-Finishes conn addr (hello_response-Emits conn addr s h.clean) h)
        | inr e ↦ rw (compared, e) (Emits-Finishes conn addr (connect-Emits conn addr s h.clean) h)
      ]

  forward-Finishes : (s : Device) → Ready s → Finishes (forward p conn (take 2 s.topics) s)
  forward-Finishes s h =
      let (t, e, g) =
        forward-PushedTo p conn (take 2 s.topics) o v s h.clean
          (WellNamed-take s.memory 2 s.topics h.named) fit.option_text fit.payload_text
          fit.option_fits fit.payload_fits in
      (t, e, Same-Ready s t (PushedTo-Same conn _ o _ g) h)

  publish-Finishes : (s : Device) → Ready s → Finishes (handle_publish p conn addr s)
  unfolding handle_publish
  publish-Finishes s h = elim (Bool-cases (p.rel == 1)) [
    | inr e ↦ rw e (forward-Finishes s h)
    | inl e ↦
        let (t, acked, k) = Emits-Finishes conn addr (pub_ack-Emits conn addr s h.clean) h in
        rw (e, acked) (forward-Finishes t k)
  ]

  subscribe-Finishes :
      (s : Device)
      → text (s.memory f.at).header_option ≡ some o
      → Ready s
      → Finishes (handle_subscribe p conn addr f s)
  unfolding handle_subscribe
  subscribe-Finishes s stored h =
      rw (subscribe_topic_lem s.memory p.header_option o addr f s.topics fit.option_text h.named) (
        Emits-Finishes conn addr
          (sub_ack-Emits conn addr (record s { topics = subscribed s.memory o addr f s.topics })
            h.clean)
          (record {
            clean = h.clean;
            named = WellNamed-subscribed s.memory o addr f s.topics stored h.named;
          }))

  push-Finishes : (s : Device) → Ready s → Finishes (handle_push conn addr f s)
  unfolding handle_push
  push-Finishes s h =
      Emits-Finishes conn addr
        (push_ack-Emits conn addr (record s { pushed_info = some f.at; fresh = true }) h.clean)
        (record { clean = h.clean; named = h.named })

  dispatch-Finishes :
      (l : Option MessageType) (s : Device)
      → text (s.memory f.at).header_option ≡ some o
      → Ready s
      → Finishes (dispatch l p conn addr f s)
  unfolding dispatch stop_ping_thread
  dispatch-Finishes (some MessageType.hello) s st h = hello-Finishes s h
  dispatch-Finishes (some MessageType.publish) s st h = publish-Finishes s h
  dispatch-Finishes (some MessageType.subscribe) s st h = subscribe-Finishes s st h
  dispatch-Finishes (some MessageType.disconnect) s st h =
      (_, refl, record { clean = h.clean; named = h.named })
  dispatch-Finishes (some MessageType.connect) s st h =
      Emits-Finishes conn addr (conn_ack-Emits conn addr s h.clean) h
  dispatch-Finishes (some MessageType.connack) s st h =
      (_, refl, record { clean = h.clean; named = h.named })
  dispatch-Finishes (some MessageType.pingreq) s st h =
      Emits-Finishes conn addr (pingresp-Emits conn addr s h.clean) h
  dispatch-Finishes (some MessageType.pingresp) s st h =
      (_, refl, record { clean = h.clean; named = h.named })
  dispatch-Finishes (some MessageType.push) s st h = push-Finishes s h
  dispatch-Finishes _ s st h = (s, refl, h)

-- On a packet as above and from a state that is Ready, with the table's second slot as storage, the call has an
-- outcome, and that is Ready.
pub handle_message-Finishes :
    (p : Packet) (conn addr : ℕ) (f : Frame) (o v : List ℕ) (s : Device)
    → Fits p o v
    → Ready s
    → Finishes (handle_message p conn addr f s)
unfolding handle_message
handle_message-Finishes p conn addr f o v s fit h =
    dispatch-Finishes p conn addr f o v fit (of_code (get_message_type p)) (entered p f s)
      (rw (entered-memory p f s) fit.option_text) (entered-Ready p f o s fit.option_text h)
