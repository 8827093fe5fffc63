-- ===== src/Twin/Sends.antt =====
-- Sending from states that are alike: createPacket and sendPacket, and each message that both libraries have.
use embedded_project_exam.Base.{
  ℕ, suc, ◌≡◌, Bool, true, false, none, some, List, arith, inl, inr, Bool-cases, Option-cases, ◌==◌,
}
use embedded_project_exam.Protocol.{Packet}
use embedded_project_exam.Protocol.Create.{create_packet}
use embedded_project_exam.Device
use embedded_project_exam.Device.{Device}
use embedded_project_exam.Device.Messages as MoteMessages
use embedded_project_exam.Host
use embedded_project_exam.Host.{Host}
use embedded_project_exam.Host.Messages as HostMessages
use embedded_project_exam.Twin.{Alike, Both}

send_packet-Alike :
    (p : Packet) (c dest : ℕ) (d : Device) (h : Host)
    → Alike d h
    → Alike (Device.send_packet p c dest d) (Host.send_packet c p dest h)
unfolding Device.send_packet Host.send_packet
send_packet-Alike p c dest d h k = elim (Bool-cases (p.rel == 0)) [
  | inl e ↦ rw e (ground arith)
  | inr e ↦ rw e (ground arith)
]

counted-Alike :
    (d : Device) (h : Host)
    → Alike d h
    → Alike (record d { calls = suc d.calls }) (record h { calls = suc h.calls })
counted-Alike d h k = ground arith

pub emit-Both :
    (mst rel : ℕ) (option payload : List ℕ) (c dest : ℕ) (d : Device) (h : Host)
    → Alike d h
    → Both (Device.emit mst rel option payload c dest d) (Host.emit mst rel option payload c dest h)
unfolding Device.emit Host.emit
emit-Both mst rel option payload c dest d h k =
    elim (Option-cases (create_packet (d.locals d.calls) mst rel option payload)) [
      | inl e ↦
          let e' : create_packet (h.locals h.calls) mst rel option payload ≡ none =
            rw (k.locals_eq, k.calls_eq) e in
          rw (e, e') tt
      | inr (p, e) ↦
          let e' : create_packet (h.locals h.calls) mst rel option payload ≡ some p =
            rw (k.locals_eq, k.calls_eq) e in
          rw (e, e') (send_packet-Alike p c dest _ _ (counted-Alike d h k))
    ]

module _ (c dest : ℕ) (d : Device) (h : Host) (k : Alike d h) where
  pub hello-Both :
      (init : Bool)
      → init ≡ false
      → Both (MoteMessages.hello c dest init d) (HostMessages.hello c dest init h)
  unfolding MoteMessages.hello HostMessages.hello
  hello-Both init e = rw e (emit-Both _ _ _ _ c dest d h k)

  pub connect-Both : Both (MoteMessages.connect c dest d) (HostMessages.send_connect c dest h)
  unfolding MoteMessages.connect HostMessages.send_connect
  connect-Both = emit-Both _ _ _ _ c dest d h k

  pub conn_ack-Both : Both (MoteMessages.conn_ack c dest d) (HostMessages.conn_ack c dest h)
  unfolding MoteMessages.conn_ack HostMessages.conn_ack
  conn_ack-Both = emit-Both _ _ _ _ c dest d h k

  pub sub_ack-Both : Both (MoteMessages.sub_ack c dest d) (HostMessages.sub_ack c dest h)
  unfolding MoteMessages.sub_ack HostMessages.sub_ack
  sub_ack-Both = emit-Both _ _ _ _ c dest d h k

  pub pub_ack-Both : Both (MoteMessages.pub_ack c dest d) (HostMessages.pub_ack c dest h)
  unfolding MoteMessages.pub_ack HostMessages.pub_ack
  pub_ack-Both = emit-Both _ _ _ _ c dest d h k

  pub pingresp-Both : Both (MoteMessages.pingresp c dest d) (HostMessages.pingresp c dest h)
  unfolding MoteMessages.pingresp HostMessages.pingresp
  pingresp-Both = emit-Both _ _ _ _ c dest d h k

  pub push-Both :
      (command : Bool) (topicname value : List ℕ)
      → Both
          (MoteMessages.push c dest command topicname value d)
          (HostMessages.push c dest command topicname value h)
  unfolding MoteMessages.push HostMessages.push
  push-Both true topicname value = emit-Both _ _ _ _ c dest d h k
  push-Both false topicname value = emit-Both _ _ _ _ c dest d h k
