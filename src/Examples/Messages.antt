-- ===== src/Examples/Messages.antt =====
-- Packets made, sent and read: the theorems on SBVK.c's createPacket, structure.h and the string
-- functions at concrete values.
use embedded_project_exam.Base.{
  ◌≡◌, refl, inr, none, some, [], ◌∷◌, ◌++◌, arith, replicate, codes, ◌%◌,
}
use embedded_project_exam.CString.{lit, text}
use embedded_project_exam.Protocol.{Packet}
use embedded_project_exam.Protocol.Create.{create_packet}
use embedded_project_exam.Protocol.Create.Laws.{
  Carries, create_packet-Carries, create_packet-overflow,
}
use embedded_project_exam.Protocol.Wire.{encode, decode}
use embedded_project_exam.Protocol.Wire.Laws.{decode-encode, decode-encode_later}
use embedded_project_exam.Examples.{z1, x86, padding, packet, clean, clean-Holds}

create_packet-Carries_example :
    (p : Packet) × (create_packet clean 1 1 (lit "GAS") (lit "12") ≡ some p)
    × Carries p (1 % 16) (1 % 2) (codes "GAS") (([] ++ 32 ∷ 32 ∷ []) ++ codes "12")
unfolding text
create_packet-Carries_example =
    create_packet-Carries clean 1 1 (lit "GAS") (lit "12") [] (codes "GAS") (codes "12") clean-Holds
      refl refl (omega arith) (omega arith)

create_packet-overflow_example :
    create_packet clean 1 1 (lit "GAS") (replicate 48 55 ++ 0 ∷ []) ≡ none
unfolding text
create_packet-overflow_example =
    create_packet-overflow clean 1 1 (lit "GAS") (replicate 48 55 ++ 0 ∷ []) [] (codes "GAS")
      (replicate 48 55) clean-Holds refl refl (inr (omega arith))

abbrev reading : Packet
reading = packet 1 1 (codes "GAS") (codes "  12")

decode-encode_example : decode z1 (encode padding reading) ≡ some reading
decode-encode_example =
    decode-encode z1 padding reading (record { payload_after = refl; to_size = refl })
      (record {
        mst_bits = omega arith;
        rel_bit = omega arith;
        option_size = refl;
        payload_size = refl;
      })

decode-encode_later_example :
    (q : Packet) × (decode x86 (encode padding reading ++ replicate 4 0) ≡ some q)
    × (q.header ≡ reading.header)
    × (text q.payload ≡ some (codes "12"))
unfolding text
decode-encode_later_example =
    decode-encode_later z1 x86 padding reading (replicate 4 0) (codes "  12") 2
      (record { payload_after = refl; to_size = refl })
      (record {
        mst_bits = omega arith;
        rel_bit = omega arith;
        option_size = refl;
        payload_size = refl;
      })
      refl (omega arith) refl (omega arith)
