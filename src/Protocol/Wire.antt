-- ===== src/Protocol/Wire.antt =====
-- How a packet crosses the network: SBVK.c and ControlServer/SBVK_broker.c send `sizeof(packet)` bytes
-- of the struct, and the receivers (udp_rx_callback, receiveUDP) read the bytes through a pointer to
-- a struct Packet of their own. Where a compiler puts the payload and how large the struct is
-- depends on its ABI, so a layout is a parameter: on a 16-bit Z1 mote the payload lies at byte 22 of
-- 72, on a 64-bit host at byte 24 of 76. Both put the bit-fields in the first byte, low bits first.
pub mod Laws
pub mod Headers
use embedded_project_exam.Base.{
  ℕ, suc, ◌+◌, ◌*◌, ◌-◌, ◌/◌, ◌%◌, Option, none, some, List, [], ◌∷◌, ◌++◌, leb, if◌then◌else◌,
  length, take, drop,
}
use embedded_project_exam.Protocol.{Packet}

pub record Layout : Type 0 where
  pub payload_at : ℕ
  pub size : ℕ

-- What the padding of the struct holds.
pub record Padding : Type 0 where
  pub between : List ℕ
  pub behind : List ℕ

-- The bytes of `&packet`, as sent.
unfoldable pub encode : Padding → Packet → List ℕ
encode pad p =
    (p.mst + 16 * p.rel) ∷ (p.header_option ++ (pad.between ++ (p.payload ++ pad.behind)))

-- `*(struct Packet*) data`: a datagram shorter than the struct is read past its end.
unfoldable pub decode : Layout → List ℕ → Option Packet
decode f [] = none
decode f (b ∷ bytes) =
    if leb f.size (suc (length bytes))
    then some (record {
      header = record { mst = b % 16; rel = b / 16 % 2; header_option = take 20 bytes };
      payload = take 50 (drop (f.payload_at - 1) bytes);
    })
    else none
