-- ===== src/System/Rounds.antt =====
-- The single exchanges of a handshake: a packet's bytes are taken, and what is answered.
use embedded_project_exam.Base.{
  ℕ, suc, ◌+◌, ◌<◌, ◌≡◌, refl, sym, ◌∙◌, ap, true, false, some, List, ◌∷◌, codes,
}
use embedded_project_exam.CString.{text}
use embedded_project_exam.Protocol.{Packet, of_code}
use embedded_project_exam.Protocol.Create.Laws.{Carries}
use embedded_project_exam.Protocol.Wire.{Layout, Padding, encode, decode}
use embedded_project_exam.Protocol.Wire.Laws.{Fills}
use embedded_project_exam.Topics.{Frame, store}
use embedded_project_exam.Device.{Device, Sent}
use embedded_project_exam.Device.Handle.{handle_message}
use embedded_project_exam.Device.Processes.{start_ping_thread}
use embedded_project_exam.Device.Acks.{send_reliable}
use embedded_project_exam.Device.Fanout.{sent_by-Same, sent_by-sent, IsClean-Same}
use embedded_project_exam.Device.Accepts.{entered, note_ack-Same}
use embedded_project_exam.Device.Sends.{sent_by, IsClean, Emits}
use embedded_project_exam.Broker.{udp_rx_callback}
use embedded_project_exam.Sensor.{receive}
use embedded_project_exam.Sensor.Receives.{start_ping_thread-Undisturbed, decode-Carries}
use embedded_project_exam.System.Answers.{
  response-Emits, connack_lem, entered-ack_rcv, entered-sent,
}

-- `t` is `s` but for one more datagram, from `c` to `dest`.
abbrev pub SentOne : Packet → ℕ → ℕ → Device → Device → Type 0
SentOne p c dest s t = t.sent ≡ record { conn = c; packet = p; dest = dest } ∷ s.sent

module _ (c : ℕ) where
  sends_one :
      (q p : Packet) (addr : ℕ) (f : Frame) (s : Device)
      → SentOne q c addr s (sent_by q c addr (entered p f s))
  sends_one q p addr f s =
      sent_by-sent q c addr (entered p f s)
      ∙ ap (λ (xs : List Sent). record { conn = c; packet = q; dest = addr } ∷ xs)
          (entered-sent p f s)

  stays_clean :
      (q p : Packet) (addr : ℕ) (f : Frame) (s : Device)
      → IsClean s
      → IsClean (sent_by q c addr (entered p f s))
  stays_clean q p addr f s k =
      IsClean-Same (entered p f s) _ (sent_by-Same q c addr (entered p f s))
        (λ n. rw ((note_ack-Same p (record s { memory = store s.memory f.at p })).locals_eq) (k n))

  pinged_clean : (addr : ℕ) (s : Device) → IsClean s → IsClean (start_ping_thread c addr s)
  pinged_clean addr s k n = rw (start_ping_thread-Undisturbed c addr s).locals_eq (k n)

  -- A reliable message is awaited.
  waits_for :
      (q p : Packet) (addr mst : ℕ) (o v : List ℕ) (f : Frame) (s : Device)
      → Carries q mst 1 o v
      → ((sent_by q c addr (entered p f s)).ack_rcv ≡ false)
        × ((sent_by q c addr (entered p f s)).ack_type_wanted ≡ mst + 1)
  waits_for q p addr mst o v f s car =
      let u = record (entered p f s) { calls = suc (entered p f s).calls } in
      let e = send_reliable q c addr u car.rel_eq in
      (
        ap (λ (t : Device). t.ack_rcv) e,
        ap (λ (t : Device). t.ack_type_wanted) e ∙ ap (λ (n : ℕ). n + 1) car.mst_eq,
      )

-- The mote answers a HELLO that is a response with a CONNECT, and waits for its acknowledgement.
pub mote_connects :
    (layout : Layout) (c : ℕ) (bytes : List ℕ) (p : Packet) (addr : ℕ) (f : Frame) (s : Device)
    → decode layout bytes ≡ some p
    → p.mst ≡ 0
    → text p.header_option ≡ some (codes "response")
    → IsClean s
    → (q : Packet) × (t : Device) × (receive layout c addr bytes f s ≡ some t)
      × SentOne q c addr s t
      × Carries q 6 1 (codes "CONNECT") (codes "  testpayload")
      × (t.ack_rcv ≡ false)
      × (t.ack_type_wanted ≡ 7)
unfolding receive of_code
mote_connects layout c bytes p addr f s read mst o k =
    let u = start_ping_thread c addr s in
    let (q, e, car) = response-Emits p c addr f u (pinged_clean c addr s k) (rw mst refl) o in
    let (waiting, wanted) = waits_for c q p addr 6 _ _ f u car in
    (
      q,
      sent_by q c addr (entered p f u),
      rw read e,
      sends_one c q p addr f u
          ∙ ap (λ (xs : List Sent). record { conn = c; packet = q; dest = addr } ∷ xs)
              (start_ping_thread-Undisturbed c addr s).sent_eq,
      car,
      waiting,
      wanted,
    )

-- The CONNACK that it waits for connects the mote.
pub mote_completes :
    (layout : Layout) (c : ℕ) (bytes : List ℕ) (p : Packet) (addr : ℕ) (f : Frame) (s : Device)
    → decode layout bytes ≡ some p
    → p.mst ≡ 7
    → s.ack_type_wanted ≡ 7
    → (t : Device) × (receive layout c addr bytes f s ≡ some t)
      × (t.sent ≡ s.sent)
      × (t.connected ≡ true)
      × (t.ack_rcv ≡ true)
unfolding receive of_code
mote_completes layout c bytes p addr f s read mst wanted =
    let u = start_ping_thread c addr s in
    let same = start_ping_thread-Undisturbed c addr s in
    (
      record (entered p f u) { connected = true },
      rw read (connack_lem p c addr f u (rw mst refl)),
      entered-sent p f u ∙ same.sent_eq,
      refl,
      entered-ack_rcv p f u (same.wanted_eq ∙ wanted ∙ sym mst),
    )

module _ (layout : Layout) (pad : Padding) (c : ℕ) (fills : Fills layout pad) where
  broker_takes :
      (p : Packet) (mst r addr : ℕ) (o v : List ℕ) (g : Frame) (s t : Device)
      → mst < 16
      → r < 2
      → Carries p mst r o v
      → handle_message p c addr g s ≡ some t
      → udp_rx_callback layout c addr (encode pad p) g s ≡ some t
  unfolding udp_rx_callback
  broker_takes p mst r addr o v g s t bits bit car e =
      rw (decode-Carries layout pad p mst r o v fills bits bit car) e

  -- The broker answers a packet with one of the given content.
  pub broker_round :
      (p : Packet) (mst r mst' r' addr : ℕ) (o v o' v' : List ℕ) (g : Frame) (s : Device)
      → mst < 16
      → r < 2
      → Carries p mst r o v
      → IsClean s
      → Emits (handle_message p c addr g s) (entered p g s) c addr mst' r' o' v'
      → (q : Packet) × (t : Device) × (udp_rx_callback layout c addr (encode pad p) g s ≡ some t)
        × SentOne q c addr s t
        × Carries q mst' r' o' v'
        × IsClean t
  broker_round p mst r mst' r' addr o v o' v' g s bits bit car k (q, e, car') = (
    q,
    sent_by q c addr (entered p g s),
    broker_takes p mst r addr o v g s _ bits bit car e,
    sends_one c q p addr g s,
    car',
    stays_clean c q p addr g s k,
  )
