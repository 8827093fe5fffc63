-- ===== src/Examples.antt =====
-- Runs on concrete values: packets, motes, hosts and servers to start from, and the theorems at them.
pub mod Messages
pub mod Motes
pub mod Brokers
pub mod Hosts
pub mod Servers
pub mod Sensors
pub mod Twins
pub mod Events
pub mod Systems
pub mod Runs
pub mod Lives
use embedded_project_exam.Base.{
  ℕ, ◌-◌, ◌≡◌, ◌≢◌, refl, Bool, true, false, Option, none, some, List, [], ◌∷◌, ◌++◌, arith, length,
  replicate, codes,
}
use embedded_project_exam.CString.{text}
use embedded_project_exam.Protocol.{Header, Packet}
use embedded_project_exam.Protocol.Wire.{Layout, Padding}
use embedded_project_exam.Protocol.Wire.Laws.{Fills}
use embedded_project_exam.Protocol.Create.{Locals}
use embedded_project_exam.Protocol.Create.Laws.{Holds}
use embedded_project_exam.Topics.{Topic, Memory, Frame}
use embedded_project_exam.Device.{Device}
use embedded_project_exam.Host.{Host}
use embedded_project_exam.Server.{Server, Screen, main}

-- An array of `n` bytes that holds a text.
abbrev pub array : ℕ → List ℕ → List ℕ
array n o = o ++ replicate (n - length o) 0

abbrev pub packet : ℕ → ℕ → List ℕ → List ℕ → Packet
packet mst rel option payload = record {
  header = record { mst = mst; rel = rel; header_option = array 20 option };
  payload = array 50 payload;
}

abbrev pub clean : Locals
clean = record { header_option = array 20 []; payload = array 50 []; modif_payload = array 50 [] }

pub clean-Holds : Holds clean []
unfolding text
clean-Holds = record {
  option_size = refl;
  payload_size = refl;
  modif_size = refl;
  modif_text = refl;
}

-- A packet on the stack at 100, which a subscription to GAS left there; nothing elsewhere.
abbrev pub gas_at_100 : Memory
gas_at_100 a = packet 3 1 (codes "GAS") []

-- GAS, with two addresses, and free slots.
abbrev pub gas : Topic
gas = record { name = some 100; ips = 7 ∷ 9 ∷ [] }

abbrev pub free : Topic
free = record { name = none; ips = 0 ∷ 0 ∷ [] }

abbrev pub mote : Device
mote = record {
  connected = false;
  pushed_info = none;
  fresh = false;
  ack_rcv = false;
  ack_type_wanted = 0;
  udp_conn_ack = 0;
  dest_addr_ack = 0;
  packet_ack = packet 0 0 [] [];
  ack_thread = false;
  udp_conn_ping = 0;
  dest_addr_ping = 0;
  count_ping = 0;
  wait_ping_process = false;
  topics = gas ∷ free ∷ [];
  memory = gas_at_100;
  locals = λ n. clean;
  calls = 0;
  sent = [];
}

abbrev pub host : Host
host = record {
  ack_rcv = true;
  ack_type_wanted = 0;
  sock_ack = 0;
  dest_addr_ack = 0;
  packet_ack = packet 0 0 [] [];
  threads = 0;
  topics = gas ∷ replicate 10 free;
  memory = gas_at_100;
  locals = λ n. clean;
  calls = 0;
  sent = [];
}

abbrev pub server : Server
server = record {
  host = host;
  buffer = replicate 76 0;
  sin6 = 0;
  sock = 3;
  launch = 0;
  listening = true;
  screen = main;
}

-- The frame in which the packet at 100 lay, and another.
abbrev pub frame : Frame
frame = record { at = 100; tp = free }

abbrev pub elsewhere : Frame
elsewhere = record { at = 200; tp = free }

-- The struct of a packet on a Z1 mote and on a 64-bit host.
abbrev pub z1 : Layout
z1 = record { payload_at = 22; size = 72 }

abbrev pub x86 : Layout
x86 = record { payload_at = 24; size = 76 }

abbrev pub padding : Padding
padding = record { between = 0 ∷ []; behind = [] }

abbrev pub x86_padding : Padding
x86_padding = record { between = replicate 3 0; behind = replicate 2 0 }

pub z1-Fills : Fills z1 padding
z1-Fills = record { payload_after = refl; to_size = refl }

pub x86-Fills : Fills x86 x86_padding
x86-Fills = record { payload_after = refl; to_size = refl }
