-- ===== src/Twin.antt =====
-- SBVK.c and ControlServer/SBVK_broker.c side by side: two versions of one library, written apart. `Alike`
-- relates their states; the children prove that handleMessage keeps it.
pub mod Sends
pub mod Table
pub mod Handles
use embedded_project_exam.Base.{
  ℕ, Bool, true, ◌≡◌, Option, none, some, List, [], ◌∷◌, ◌++◌, map, length, drop, ◌>>=◌,
}
use embedded_project_exam.Protocol.{Packet}
use embedded_project_exam.Protocol.Create.{Locals}
use embedded_project_exam.Topics.{Topic, Memory}
use embedded_project_exam.Topics.Spec.{has_free, AreFree}
use embedded_project_exam.Device
use embedded_project_exam.Device.{Device}
use embedded_project_exam.Host
use embedded_project_exam.Host.{Host}

-- A mote's datagram as the host would have sent it: its connection for a socket.
abbrev pub as_host : Device.Sent → Host.Sent
as_host x = record { sock = x.conn; packet = x.packet; dest = x.dest }

-- The same memory, stack, wait and datagrams. The mote's two slots are the host's first two, and while one
-- of these is free so are all others.
pub record Alike (d : Device) (h : Host) : Type 0 where
  pub topics_split : h.topics ≡ d.topics ++ drop 2 h.topics
  pub two : length d.topics ≡ 2
  pub compact : has_free d.topics ≡ true → AreFree (drop 2 h.topics)
  pub memory_eq : h.memory ≡ d.memory
  pub locals_eq : h.locals ≡ d.locals
  pub calls_eq : h.calls ≡ d.calls
  pub ack_rcv_eq : h.ack_rcv ≡ d.ack_rcv
  pub wanted_eq : h.ack_type_wanted ≡ d.ack_type_wanted
  pub packet_eq : h.packet_ack ≡ d.packet_ack
  pub sock_eq : h.sock_ack ≡ d.udp_conn_ack
  pub dest_eq : h.dest_addr_ack ≡ d.dest_addr_ack
  pub sent_eq : h.sent ≡ map as_host d.sent

-- Both calls fault, or both return and the states are alike.
abbrev pub Both : Option Device → Option Host → Type 0
Both none none = Unit {0}
Both none (some h) = ⊥
Both (some d) none = ⊥
Both (some d) (some h) = Alike d h

pub Both-bind :
    (r : Option Device) (k : Option Host) (f : Device → Option Device) (g : Host → Option Host)
    → Both r k
    → ((d : Device) (h : Host) → Alike d h → Both (f d) (g h))
    → Both (r >>= f) (k >>= g)
Both-bind none none f g b next = tt
Both-bind none (some h) f g b next = absurd b
Both-bind (some d) none f g b next = absurd b
Both-bind (some d) (some h) f g b next = next d h b
