-- ===== src/Device.antt =====
-- SBVK.c, the protocol library of the motes: its globals, createPacket and sendPacket. Each message is
-- in Device/Messages.antt, handleMessage in Device/Handle.antt, the two processes in
-- Device/Processes.antt. Addresses and connections are numbers.
pub mod Tableless
pub mod Messages
pub mod Handle
pub mod Processes
pub mod Sends
pub mod Fanout
pub mod Accepts
pub mod Acks
pub mod Keeps
pub mod Awaits
pub mod Pings
pub mod Pushes
pub mod Relay
pub mod Sound
pub mod Events
use embedded_project_exam.Base.{
  ℕ, suc, ◌+◌, Bool, true, false, Option, none, some, List, [], ◌∷◌, ◌==◌, if◌then◌else◌, ◌>>=◌,
}
use embedded_project_exam.Protocol.{Packet}
use embedded_project_exam.Protocol.Create.{Locals, create_packet}
use embedded_project_exam.Topics.{Topic, Memory}

-- A datagram handed to simple_udp_sendto.
pub record Sent : Type 0 where
  pub conn : ℕ
  pub packet : Packet
  pub dest : ℕ

-- The globals of SBVK.c; whether its two processes run; the stack; and the datagrams sent, newest
-- first. `locals n` is what the stack holds at the n-th call of createPacket.
pub record Device : Type 0 where
  pub connected : Bool
  pub pushed_info : Option ℕ
  pub fresh : Bool
  pub ack_rcv : Bool
  pub ack_type_wanted : ℕ
  pub udp_conn_ack : ℕ
  pub dest_addr_ack : ℕ
  pub packet_ack : Packet
  pub ack_thread : Bool
  pub udp_conn_ping : ℕ
  pub dest_addr_ping : ℕ
  pub count_ping : ℕ
  pub wait_ping_process : Bool
  pub topics : List Topic
  pub memory : Memory
  pub locals : ℕ → Locals
  pub calls : ℕ
  pub sent : List Sent

-- createPacket, with the stack as it is at this call.
unfoldable pub make : ℕ → ℕ → List ℕ → List ℕ → Device → Option (Packet × Device)
make mst rel header_option payload s = do
  p ← create_packet (s.locals s.calls) mst rel header_option payload
  some (p, record s { calls = suc s.calls })

-- simple_udp_sendto
abbrev pub simple_udp_sendto : ℕ → Packet → ℕ → Device → Device
simple_udp_sendto conn p dest s = record s {
  sent = record { conn = conn; packet = p; dest = dest } ∷ s.sent;
}

-- qosThread: process_start does nothing if the process runs already.
unfoldable pub qos_thread : Packet → ℕ → ℕ → Device → Device
qos_thread p conn dest s = record s {
  udp_conn_ack = conn;
  packet_ack = p;
  dest_addr_ack = dest;
  ack_thread = true;
}

-- sendPacket
unfoldable pub send_packet : Packet → ℕ → ℕ → Device → Device
unfolding qos_thread
send_packet p conn dest s = simple_udp_sendto conn p dest (
    if p.rel == 0
    then s
    else qos_thread p conn dest (record s { ack_rcv = false; ack_type_wanted = p.mst + 1 }))

-- createPacket and then sendPacket, as every message does.
unfoldable pub emit : ℕ → ℕ → List ℕ → List ℕ → ℕ → ℕ → Device → Option Device
unfolding make send_packet
emit mst rel header_option payload conn dest s = do
  (p, s') ← make mst rel header_option payload s
  some (send_packet p conn dest s')

-- isConnected
abbrev pub is_connected : Device → Bool
is_connected s = s.connected

-- getPushedINFO: the pointer that it returns, and the globals after it.
unfoldable pub get_pushed_info : Device → Option ℕ × Device
get_pushed_info s = if s.fresh then (s.pushed_info, record s { fresh = true }) else (none, s)
