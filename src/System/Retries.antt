-- ===== src/System/Retries.antt =====
-- A mote's command over a network that loses datagrams: SBVK.c sends it until the PUBACK of broker/broker.c is
-- there, and no longer.
use embedded_project_exam.Base.{
  ℕ, suc, ◌<◌, ◌≡◌, refl, ◌∙◌, ap, true, false, some, List, ◌++◌, arith, length, take, codes, IsIn,
  replicate,
}
use embedded_project_exam.CString.{text}
use embedded_project_exam.Protocol.{Packet}
use embedded_project_exam.Protocol.Create.Laws.{Carries}
use embedded_project_exam.Protocol.Wire.{Layout, Padding, encode}
use embedded_project_exam.Protocol.Wire.Laws.{Fills}
use embedded_project_exam.Topics.{Frame}
use embedded_project_exam.Topics.Spec.{AllPointAt, everyone}
use embedded_project_exam.Device.{Device}
use embedded_project_exam.Device.Messages.{publish}
use embedded_project_exam.Device.Accepts.{Ready}
use embedded_project_exam.Device.Acks.{
  ack_expiries, ack_expiries_waiting, ack_expiries_done, send_packet-resent, send_reliable,
  awaiting,
}
use embedded_project_exam.Device.Sends.{sent_by, IsClean, publish-Emits}
use embedded_project_exam.Broker.{udp_rx_callback}
use embedded_project_exam.Sensor.{receive}
use embedded_project_exam.System.Deliveries.{datagram, udp_rx_callback-Relays, mote_acknowledged}

-- The mote sends a command; n expiries later the broker gets the packet, and the mote the PUBACK; after m + 1
-- more expiries nothing else was sent.
pub record Retried (layout : Layout) (pad : Padding) (c mote_addr broker_addr dest : ℕ)
    (f g : Frame) (topicname value o v : List ℕ) (n m : ℕ) (mote broker : Device) : Type 0 where
  pub command : Packet
  pub puback : Packet
  pub pushed : Packet
  pub command_content : Carries command 1 1 o (codes "  " ++ v)
  pub pushed_content : Carries pushed 12 1 o (codes "    " ++ v)
  pub mote1 : Device
  pub mote2 : Device
  pub broker1 : Device
  pub sends : publish c broker_addr true topicname value mote ≡ some mote1
  pub resends :
      (ack_expiries n mote1).sent ≡ replicate (suc n) (datagram c command broker_addr) ++ mote.sent
  pub handles : udp_rx_callback layout c mote_addr (encode pad command) g broker ≡ some broker1
  pub puback_sent : IsIn (datagram c puback mote_addr) broker1.sent
  pub push_sent : IsIn (datagram c pushed dest) broker1.sent
  pub takes : receive layout c broker_addr (encode pad puback) f (ack_expiries n mote1) ≡ some mote2
  pub stops : (ack_expiries (suc m) mote2).ack_thread ≡ false
  pub silent :
      (ack_expiries (suc m) mote2).sent
      ≡ replicate (suc n) (datagram c command broker_addr) ++ mote.sent

-- After any number of expiries the mote still waits for the same acknowledgement.
still_wanted :
    (n : ℕ) (p : Packet) (c dest : ℕ) (s : Device)
    → p.rel ≡ 1
    → p.mst ≡ 1
    → (ack_expiries n (sent_by p c dest s)).ack_type_wanted ≡ 2
still_wanted n p c dest s r t =
    rw
      (
        send_reliable p c dest (record s { calls = suc s.calls }) r,
        ack_expiries_waiting n (awaiting p c dest (record s { calls = suc s.calls })) refl refl,
        t,
      )
      refl

module _ (layout : Layout) (pad : Padding) (c : ℕ) (fills : Fills layout pad) where
  -- A command that a mote sends to a broker/broker.c, on texts of at most 19 and 45 bytes, both in
  -- a state as handleMessage needs them and with one layout of the struct, goes out once and once
  -- more at each of n expiries of ackThread's timer, so that any of the first n copies may be
  -- lost. The broker, with all names pointing at its frame, takes a copy without a fault and sends
  -- a PUBACK to the mote and, to each address in the slots in use among the first two, a PUSH with
  -- the command behind four spaces. When the mote takes the PUBACK ackThread ends at the next
  -- expiry, and at any number of expiries nothing more is sent.
  pub publish-Retried :
      (mote_addr broker_addr dest : ℕ) (f g : Frame) (topicname value o v : List ℕ) (n m : ℕ)
      (mote broker : Device)
      → IsClean mote
      → text topicname ≡ some o
      → text value ≡ some v
      → length o < 20
      → length v < 46
      → Ready broker
      → AllPointAt g.at broker.topics
      → IsIn dest (everyone (take 2 broker.topics))
      → Retried layout pad c mote_addr broker_addr dest f g topicname value o v n m mote broker
  publish-Retried mote_addr broker_addr dest f g topicname value o v n m mote broker k ho hv lo lv
        ready alias there =
      let (p, sent, car) =
        publish-Emits c broker_addr mote k true topicname value o v ho hv lo (omega arith) in
      let mote1 = sent_by p c broker_addr mote in
      let (broker1, handled, ((q, carq, qsent), (r, carr, rsent))) =
        udp_rx_callback-Relays layout pad c fills p o (codes "  " ++ v) mote_addr dest g broker car
          lo (omega arith) ready alias there in
      let again =
        send_packet-resent n p c broker_addr (record mote { calls = suc mote.calls }) car.rel_eq in
      let (mote2, taken, over, quiet) =
        mote_acknowledged layout pad c fills q _ _ broker_addr f (ack_expiries n mote1) carq
          (still_wanted n p c broker_addr mote car.rel_eq car.mst_eq) in
      let ended = ack_expiries_done m mote2 over in
      record {
        command = p;
        puback = q;
        pushed = r;
        command_content = car;
        pushed_content = carr;
        mote1 = mote1;
        mote2 = mote2;
        broker1 = broker1;
        sends = sent;
        resends = again;
        handles = handled;
        puback_sent = qsent;
        push_sent = rsent;
        takes = taken;
        stops = ap (λ (s : Device). s.ack_thread) ended;
        silent = ap (λ (s : Device). s.sent) ended ∙ quiet ∙ again;
      }
