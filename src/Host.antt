-- ===== src/Host.antt =====
-- ControlServer/SBVK_broker.c, the protocol library of the broker on the host: its globals, createPacket
-- and sendPacket. Each message is in Host/Messages.antt, handleMessage and publishTo in
-- Host/Handle.antt, the threads that wait for acknowledgements in Host/Threads.antt.
pub mod Declared
pub mod Messages
pub mod Handle
pub mod Threads
pub mod Sends
pub mod Relay
pub mod Accepts
pub mod Table
pub mod Acks
pub mod Keeps
pub mod Registry
pub mod Runs
pub mod Addresses
use embedded_project_exam.Base.{
  ℕ, suc, ◌+◌, Bool, true, false, Option, none, some, List, [], ◌∷◌, ◌==◌, if◌then◌else◌, ◌>>=◌,
}
use embedded_project_exam.Protocol.{Packet}
use embedded_project_exam.Protocol.Create.{Locals, create_packet}
use embedded_project_exam.Topics.{Topic, Memory}

-- A datagram handed to sendto.
pub record Sent : Type 0 where
  pub sock : ℕ
  pub packet : Packet
  pub dest : ℕ

-- The globals; how many threads run threadAck; the stack; and the datagrams sent, newest first.
pub record Host : Type 0 where
  pub ack_rcv : Bool
  pub ack_type_wanted : ℕ
  pub sock_ack : ℕ
  pub dest_addr_ack : ℕ
  pub packet_ack : Packet
  pub threads : ℕ
  pub topics : List Topic
  pub memory : Memory
  pub locals : ℕ → Locals
  pub calls : ℕ
  pub sent : List Sent

-- createPacket, with the stack as it is at this call.
unfoldable pub make : ℕ → ℕ → List ℕ → List ℕ → Host → Option (Packet × Host)
make mst rel header_option payload s = do
  p ← create_packet (s.locals s.calls) mst rel header_option payload
  some (p, record s { calls = suc s.calls })

abbrev pub sendto : ℕ → Packet → ℕ → Host → Host
sendto sock p dest s = record s { sent = record { sock = sock; packet = p; dest = dest } ∷ s.sent }

-- qosThread: one more thread, all of which share the stored packet.
unfoldable pub qos_thread : ℕ → Packet → ℕ → Host → Host
qos_thread sock p dest s = record s {
  packet_ack = p;
  dest_addr_ack = dest;
  sock_ack = sock;
  threads = suc s.threads;
}

-- sendPacket
unfoldable pub send_packet : ℕ → Packet → ℕ → Host → Host
unfolding qos_thread
send_packet sock p dest s = sendto sock p dest (
    if p.rel == 0
    then s
    else qos_thread sock p dest (record s { ack_rcv = false; ack_type_wanted = p.mst + 1 }))

-- createPacket and then sendPacket, as every message does.
unfoldable pub emit : ℕ → ℕ → List ℕ → List ℕ → ℕ → ℕ → Host → Option Host
unfolding make send_packet
emit mst rel header_option payload sock dest s = do
  (p, s') ← make mst rel header_option payload s
  some (send_packet sock p dest s')
