-- ===== src/Device/Tableless.antt =====
-- The messages on which handleMessage of SBVK.c does not look at the topic table, which is declared with one slot.
use embedded_project_exam.Base.{
  ℕ, ◌≡◌, ◌≢◌, refl, ◌∙◌, ap, Bool, true, false, Option, some, List, [], arith, inl, inr,
  Bool-cases, Option-cases, ◌==◌, ◌>>=◌,
}
use embedded_project_exam.CString.{lit, strcmp}
use embedded_project_exam.Protocol.{Packet, MessageType, of_code, get_message_type}
use embedded_project_exam.Protocol.Create.{create_packet}
use embedded_project_exam.Topics.{Topic, Frame, store}
use embedded_project_exam.Device.{Device, send_packet, emit}
use embedded_project_exam.Device.Messages.{hello, connect, conn_ack, push_ack, pingresp}
use embedded_project_exam.Device.Processes.{stop_ping_thread}
use embedded_project_exam.Device.Handle.{
  note_ack, handle_hello, handle_push, dispatch, handle_message,
}
use embedded_project_exam.Device.Sends.{IsClean}
use embedded_project_exam.Device.Accepts.{Fits, handle_message-Finishes}

-- The outcome, with another table.
abbrev pub with_table : List Topic → Option Device → Option Device
with_table ts r = r >>= λ t. some (record t { topics = ts })

-- A step that is the same with any table.
abbrev Blind : (Device → Option Device) → Type 0
Blind step =
    (s : Device) (ts : List Topic) → step (record s { topics = ts }) ≡ with_table ts (step s)

send_packet-table :
    (p : Packet) (conn dest : ℕ) (s : Device) (ts : List Topic)
    → send_packet p conn dest (record s { topics = ts })
      ≡ record (send_packet p conn dest s) { topics = ts }
unfolding send_packet
send_packet-table p conn dest s ts = elim (Bool-cases (p.rel == 0)) [
  | inl e ↦ rw e refl
  | inr e ↦ rw e refl
]

emit-Blind :
    (mst rel : ℕ) (option payload : List ℕ) (conn dest : ℕ)
    → Blind (emit mst rel option payload conn dest)
unfolding emit
emit-Blind mst rel option payload conn dest s ts =
    elim (Option-cases (create_packet (s.locals s.calls) mst rel option payload)) [
      | inl e ↦ rw e refl
      | inr (p, e) ↦ rw e (ap some (send_packet-table p conn dest _ ts))
    ]

hello-Blind : (conn dest : ℕ) (init : Bool) → Blind (hello conn dest init)
unfolding hello
hello-Blind conn dest true = emit-Blind _ _ _ _ conn dest
hello-Blind conn dest false = emit-Blind _ _ _ _ conn dest

handle_hello-Blind : (p : Packet) (conn addr : ℕ) → Blind (handle_hello p conn addr)
unfolding handle_hello connect
handle_hello-Blind p conn addr s ts = elim (Option-cases (strcmp p.header_option (lit "init"))) [
  | inl e ↦ rw e refl
  | inr (true, e) ↦ rw e (hello-Blind conn addr false s ts)
  | inr (false, e) ↦ rw e (emit-Blind _ _ _ _ conn addr s ts)
]

note_ack-table :
    (p : Packet) (s : Device) (ts : List Topic)
    → note_ack p (record s { topics = ts }) ≡ record (note_ack p s) { topics = ts }
unfolding note_ack
note_ack-table p s ts = ground arith

dispatch-Blind :
    (l : Option MessageType) (p : Packet) (conn addr : ℕ) (f : Frame)
    → l ≢ some MessageType.publish
    → l ≢ some MessageType.subscribe
    → Blind (dispatch l p conn addr f)
unfolding dispatch conn_ack pingresp stop_ping_thread handle_push push_ack
dispatch-Blind (some MessageType.hello) p conn addr f np ns s ts =
    handle_hello-Blind p conn addr s ts
dispatch-Blind (some MessageType.publish) p conn addr f np ns s ts = absurd (np refl)
dispatch-Blind (some MessageType.subscribe) p conn addr f np ns s ts = absurd (ns refl)
dispatch-Blind (some MessageType.disconnect) p conn addr f np ns s ts = refl
dispatch-Blind (some MessageType.connect) p conn addr f np ns s ts =
    emit-Blind _ _ _ _ conn addr s ts
dispatch-Blind (some MessageType.connack) p conn addr f np ns s ts = refl
dispatch-Blind (some MessageType.pingreq) p conn addr f np ns s ts =
    emit-Blind _ _ _ _ conn addr s ts
dispatch-Blind (some MessageType.pingresp) p conn addr f np ns s ts = refl
dispatch-Blind (some MessageType.push) p conn addr f np ns s ts =
    emit-Blind _ _ _ _ conn addr (record s { pushed_info = some f.at; fresh = true }) ts
dispatch-Blind other p conn addr f np ns s ts = refl

pub handle_message-Blind :
    (p : Packet) (conn addr : ℕ) (f : Frame)
    → of_code p.mst ≢ some MessageType.publish
    → of_code p.mst ≢ some MessageType.subscribe
    → (s : Device) (ts : List Topic)
    → handle_message p conn addr f (record s { topics = ts })
      ≡ with_table ts (handle_message p conn addr f s)
unfolding handle_message get_message_type
handle_message-Blind p conn addr f np ns s ts =
    ap (dispatch (of_code p.mst) p conn addr f)
      (note_ack-table p (record s { memory = store s.memory f.at p }) ts)
    ∙ dispatch-Blind (of_code p.mst) p conn addr f np ns
        (note_ack p (record s { memory = store s.memory f.at p })) ts

-- On a packet whose arrays hold texts of at most 19 and 47 bytes and whose message is neither
-- PUBLISH nor SUBSCRIBE, from a state in which createPacket finds its modifPayload empty at every
-- call, handleMessage of SBVK.c runs without a fault; it does the same whatever is in the topic
-- table and however many slots that has, so it looks at none, and it leaves the table as it is;
-- createPacket finds its modifPayload empty again afterwards.
pub handle_message-any_table :
    (p : Packet) (conn addr : ℕ) (f : Frame) (o v : List ℕ) (s : Device)
    → Fits p o v
    → IsClean s
    → of_code p.mst ≢ some MessageType.publish
    → of_code p.mst ≢ some MessageType.subscribe
    → (t : Device) × IsClean t
      × ((ts : List Topic)
          → handle_message p conn addr f (record s { topics = ts })
            ≡ some (record t { topics = ts }))
handle_message-any_table p conn addr f o v s fit clean np ns =
    let (t, run, h) =
      handle_message-Finishes p conn addr f o v (record s { topics = [] }) fit
        (record { clean = clean; named = tt }) in
    (
      t,
      h.clean,
      λ ts.
          handle_message-Blind p conn addr f np ns (record s { topics = [] }) ts
          ∙ ap (with_table ts) run,
    )
