-- ===== src/System/ServerHandshake.antt =====
-- The handshake of a mote (Sensors/) with the control server (ControlServer/BrokerAndControlServer.c), each of
-- which lays out the struct of a packet in its own way.
use embedded_project_exam.Base.{ℕ, ◌≡◌, ◌∙◌, ap, true, false, some, ◌∷◌, arith}
use embedded_project_exam.Protocol.{Header, Packet}
use embedded_project_exam.Protocol.Wire.{encode}
use embedded_project_exam.Topics.{Frame}
use embedded_project_exam.Device.{Device}
use embedded_project_exam.Device.Messages.{hello}
use embedded_project_exam.Device.Fanout.{sent_by-Same, IsClean-Same}
use embedded_project_exam.Device.Sends as MoteSends
use embedded_project_exam.Device.Fanout.{sent_by-sent}
use embedded_project_exam.Host.Sends
use embedded_project_exam.Sensor.{receive}
use embedded_project_exam.Server.{Server}
use embedded_project_exam.Server.Receive.{receive_udp}
use embedded_project_exam.System.Rounds.{mote_connects, mote_completes}
use embedded_project_exam.System.ServerRounds.{IsOpen, mote_reads}
use embedded_project_exam.System.Rounds.{SentOne}
use embedded_project_exam.System.ServerAnswers.{Machines, server_init, server_connect}

-- `t` is `s` but for one more datagram, from the server's socket to `dest`.
abbrev pub ServerSentOne : Packet → ℕ → Server → Server → Type 0
ServerSentOne q dest s t = t.sent ≡ record { sock = s.sock; packet = q; dest = dest } ∷ s.sent

-- The packets of a handshake and the states between them. The mote's handleMessage runs in frame `f`,
-- the server's in frame `g`.
pub record ServerHandshake (m : Machines) (c mote_addr host_addr : ℕ) (f g : Frame) (mote : Device)
    (server : Server) : Type 0 where
  pub init : Packet
  pub response : Packet
  pub connecting : Packet
  pub connack : Packet
  pub mote1 : Device
  pub mote2 : Device
  pub mote3 : Device
  pub server1 : Server
  pub server2 : Server
  pub says_hello : hello c host_addr true mote ≡ some mote1
  pub hello_sent : SentOne init c host_addr mote mote1
  pub answers :
      receive_udp m.host_layout (encode m.mote_padding init) mote_addr g server ≡ some server1
  pub answer_sent : ServerSentOne response mote_addr server server1
  pub connects :
      receive m.mote_layout c host_addr (encode m.host_padding response) f mote1 ≡ some mote2
  pub connect_sent : SentOne connecting c host_addr mote1 mote2
  pub waits : mote2.ack_rcv ≡ false
  pub accepts :
      receive_udp m.host_layout (encode m.mote_padding connecting) mote_addr g server1
      ≡ some server2
  pub accept_sent : ServerSentOne connack mote_addr server1 server2
  pub completes :
      receive m.mote_layout c host_addr (encode m.host_padding connack) f mote2 ≡ some mote3
  pub nothing_sent : mote3.sent ≡ mote2.sent
  pub connected : mote3.connected ≡ true
  pub acknowledged : mote3.ack_rcv ≡ true

-- For a mote and a control server that is still running, whose receive buffer has the size of the
-- host's struct, that both find an empty modifPayload at every call, and whose machines lay out
-- the struct of a packet in their own ways (the host's is at least as large, and at most MAXLINE):
-- the mote's HELLO makes the server answer with a HELLO, that makes the mote send a CONNECT
-- reliably and wait, that makes the server send a CONNACK, and that leaves the mote connected with
-- its wait over; each side sends just that one datagram at each step, and the mote none at the
-- last. Nothing faults, whatever else their states hold.
pub hello-ServerHandshake :
    (m : Machines) (c mote_addr host_addr : ℕ) (f g : Frame) (mote : Device) (server : Server)
    → MoteSends.IsClean mote
    → Sends.IsClean server.host
    → IsOpen m.host_layout server
    → ServerHandshake m c mote_addr host_addr f g mote server
hello-ServerHandshake m c mote_addr host_addr f g mote server km ks open_ =
    let (p1, e1, c1) = MoteSends.hello_init-Emits c host_addr mote km in
    let m1 = MoteSends.sent_by p1 c host_addr mote in
    let (p2, s1, answers, sent2, c2, open1, k1) =
      server_init m mote_addr g p1 _ server c1 open_ ks in
    let (q2, read2, header2) =
      mote_reads m.mote_layout m.host_layout m.host_padding p2 0 0 _ _ m.host_fills m.smaller
        (omega arith) (omega arith) c2 in
    let (p3, m2, connects, sent3, c3, waiting, wanted) =
      mote_connects m.mote_layout c (encode m.host_padding p2) q2 host_addr f m1 read2
        (ap (λ (h : Header). h.mst) header2 ∙ c2.mst_eq)
        (rw (ap (λ (h : Header). h.header_option) header2) c2.option_stored.content)
        (IsClean-Same mote m1 (sent_by-Same p1 c host_addr mote) km) in
    let (p4, s2, accepts, sent4, c4, open2, k2) =
      server_connect m mote_addr g p3 _ _ s1 c3 open1 k1 in
    let (q4, read4, header4) =
      mote_reads m.mote_layout m.host_layout m.host_padding p4 7 0 _ _ m.host_fills m.smaller
        (omega arith) (omega arith) c4 in
    let (m3, completes, quiet, connected, acknowledged) =
      mote_completes m.mote_layout c (encode m.host_padding p4) q4 host_addr f m2 read4
        (ap (λ (h : Header). h.mst) header4 ∙ c4.mst_eq) wanted in
    record {
      init = p1;
      response = p2;
      connecting = p3;
      connack = p4;
      mote1 = m1;
      mote2 = m2;
      mote3 = m3;
      server1 = s1;
      server2 = s2;
      says_hello = e1;
      hello_sent = sent_by-sent p1 c host_addr mote;
      answers = answers;
      answer_sent = sent2;
      connects = connects;
      connect_sent = sent3;
      waits = waiting;
      accepts = accepts;
      accept_sent = sent4;
      completes = completes;
      nothing_sent = quiet;
      connected = connected;
      acknowledged = acknowledged;
    }
