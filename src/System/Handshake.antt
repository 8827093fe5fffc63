-- ===== src/System/Handshake.antt =====
-- The handshake of a mote (Sensors/) with a broker (broker/broker.c): HELLO, HELLO, CONNECT, CONNACK.
use embedded_project_exam.Base.{ℕ, ◌≡◌, refl, true, false, some, arith}
use embedded_project_exam.Protocol.{Packet, of_code}
use embedded_project_exam.Protocol.Wire.{Layout, Padding, encode}
use embedded_project_exam.Protocol.Wire.Laws.{Fills}
use embedded_project_exam.Topics.{Frame}
use embedded_project_exam.Device.{Device}
use embedded_project_exam.Device.Messages.{hello}
use embedded_project_exam.Device.Fanout.{sent_by-Same, sent_by-sent, IsClean-Same}
use embedded_project_exam.Device.Sends.{sent_by, IsClean, hello_init-Emits}
use embedded_project_exam.Broker.{udp_rx_callback}
use embedded_project_exam.Sensor.{receive}
use embedded_project_exam.System.Answers.{init-Emits, connect_answer-Emits}
use embedded_project_exam.Sensor.Receives.{decode-Carries}
use embedded_project_exam.System.Rounds.{SentOne, broker_round, mote_connects, mote_completes}

-- The packets of a handshake and the states between them. The mote's handleMessage runs in frame `f`,
-- the broker's in frame `g`.
pub record Handshake (layout : Layout) (pad : Padding) (c mote_addr broker_addr : ℕ) (f g : Frame)
    (mote broker : Device) : Type 0 where
  pub init : Packet
  pub response : Packet
  pub connecting : Packet
  pub connack : Packet
  pub mote1 : Device
  pub mote2 : Device
  pub mote3 : Device
  pub broker1 : Device
  pub broker2 : Device
  pub says_hello : hello c broker_addr true mote ≡ some mote1
  pub hello_sent : SentOne init c broker_addr mote mote1
  pub answers : udp_rx_callback layout c mote_addr (encode pad init) g broker ≡ some broker1
  pub answer_sent : SentOne response c mote_addr broker broker1
  pub connects : receive layout c broker_addr (encode pad response) f mote1 ≡ some mote2
  pub connect_sent : SentOne connecting c broker_addr mote1 mote2
  pub waits : mote2.ack_rcv ≡ false
  pub accepts : udp_rx_callback layout c mote_addr (encode pad connecting) g broker1 ≡ some broker2
  pub accept_sent : SentOne connack c mote_addr broker1 broker2
  pub completes : receive layout c broker_addr (encode pad connack) f mote2 ≡ some mote3
  pub nothing_sent : mote3.sent ≡ mote2.sent
  pub connected : mote3.connected ≡ true
  pub acknowledged : mote3.ack_rcv ≡ true

module _ (layout : Layout) (pad : Padding) (c : ℕ) (fills : Fills layout pad) where
  -- For a mote and a broker/broker.c that both find an empty modifPayload at every call and lay
  -- out the struct of a packet alike: the mote's HELLO, sent as bytes, makes the broker answer
  -- with a HELLO, that makes the mote send a CONNECT reliably and wait, that makes the broker send
  -- a CONNACK, and that leaves the mote connected with its wait over; each side sends just that
  -- one datagram at each step, and the mote none at the last. Nothing faults, whatever else their
  -- states hold.
  pub hello-Handshake :
      (mote_addr broker_addr : ℕ) (f g : Frame) (mote broker : Device)
      → IsClean mote
      → IsClean broker
      → Handshake layout pad c mote_addr broker_addr f g mote broker
  unfolding of_code
  hello-Handshake mote_addr broker_addr f g mote broker km kb =
      let (p1, e1, c1) = hello_init-Emits c broker_addr mote km in
      let m1 = sent_by p1 c broker_addr mote in
      let (p2, b1, answers, sent2, c2, kb1) =
        broker_round layout pad c fills p1 0 0 0 0 mote_addr _ _ _ _ g broker (omega arith)
          (omega arith) c1 kb
          (init-Emits p1 c mote_addr g broker kb (rw c1.mst_eq refl) c1.option_stored.content) in
      let (p3, m2, connects, sent3, c3, waiting, wanted) =
        mote_connects layout c (encode pad p2) p2 broker_addr f m1
          (decode-Carries layout pad p2 0 0 _ _ fills (omega arith) (omega arith) c2) c2.mst_eq
          c2.option_stored.content (IsClean-Same mote m1 (sent_by-Same p1 c broker_addr mote) km) in
      let (p4, b2, accepts, sent4, c4, kb2) =
        broker_round layout pad c fills p3 6 1 7 0 mote_addr _ _ _ _ g b1 (omega arith)
          (omega arith) c3 kb1 (connect_answer-Emits p3 c mote_addr g b1 kb1 (rw c3.mst_eq refl)) in
      let (m3, completes, quiet, connected, acknowledged) =
        mote_completes layout c (encode pad p4) p4 broker_addr f m2
          (decode-Carries layout pad p4 7 0 _ _ fills (omega arith) (omega arith) c4) c4.mst_eq
          wanted in
      record {
        init = p1;
        response = p2;
        connecting = p3;
        connack = p4;
        mote1 = m1;
        mote2 = m2;
        mote3 = m3;
        broker1 = b1;
        broker2 = b2;
        says_hello = e1;
        hello_sent = sent_by-sent p1 c broker_addr mote;
        answers = answers;
        answer_sent = sent2;
        connects = connects;
        connect_sent = sent3;
        waits = waiting;
        accepts = accepts;
        accept_sent = sent4;
        completes = completes;
        nothing_sent = quiet;
        connected = connected;
        acknowledged = acknowledged;
      }
