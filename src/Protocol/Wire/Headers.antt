-- ===== src/Protocol/Wire/Headers.antt =====
-- The header of a packet, which machines of all layouts read alike.
use embedded_project_exam.Base.{
  lengths, ℕ, suc, ◌+◌, ◌*◌, ◌≤◌, ◌≡◌, some, List, ◌++◌, arith, length, take,
}
use embedded_project_exam.Protocol.{Packet}
use embedded_project_exam.Protocol.Wire.{Layout, Padding, encode, decode}
use embedded_project_exam.Protocol.Wire.Laws.{
  IsPacket, Fills, encode-length, bytes_regroup, decode_read, take_exact,
}

-- The bytes behind the first, and what follows them.
abbrev behind_first : Padding → Packet → List ℕ → List ℕ
behind_first pad p rest = (p.header_option ++ (pad.between ++ (p.payload ++ pad.behind))) ++ rest

long_enough :
    (f g : Layout) (pad : Padding) (p : Packet) (rest : List ℕ)
    → Fills f pad
    → IsPacket p
    → g.size ≤ f.size + length rest
    → g.size ≤ suc (length (behind_first pad p rest))
unfolding encode
long_enough f g pad p rest h wf room = grind (lengths, encode-length f pad p h wf)

option_first :
    (pad : Padding) (p : Packet) (rest : List ℕ)
    → IsPacket p
    → take 20 (behind_first pad p rest) ≡ p.header_option
option_first pad p rest wf = rw (bytes_regroup pad p rest) (
    take_exact 20 p.header_option (pad.between ++ (p.payload ++ (pad.behind ++ rest)))
      wf.option_size)

-- A datagram that, with what lies behind it in the buffer, fills the receiver's struct is read with the
-- header that was sent, however the two machines lay out the payload.
pub decode-encode_header :
    (f g : Layout) (pad : Padding) (p : Packet) (rest : List ℕ)
    → Fills f pad
    → IsPacket p
    → g.size ≤ f.size + length rest
    → (q : Packet) × (decode g (encode pad p ++ rest) ≡ some q) × (q.header ≡ p.header)
unfolding encode
decode-encode_header f g pad p rest h wf room =
    let option_read = option_first pad p rest wf in
    (
      _,
      decode_read g (p.mst + 16 * p.rel) (behind_first pad p rest)
          (long_enough f g pad p rest h wf room),
      ground (arith, option_read, wf.mst_bits, wf.rel_bit),
    )
