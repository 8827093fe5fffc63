-- ===== src/Protocol/Create/Sizes.antt =====
-- What createPacket makes always is a packet: its bit-fields and arrays have their declared sizes, whatever
-- texts it was given.
use embedded_project_exam.Base.{
  lengths, ℕ, suc, ◌+◌, ◌<◌, ◌≡◌, some, List, ◌∷◌, ◌++◌, arith, length, drop, Option-cases, inl,
  inr, >>=-eq_some,
}
use mathlib.Core.Option.{some-injective}
use embedded_project_exam.CString.{lit, text, strcpy, strcat}
use embedded_project_exam.Protocol.{Packet}
use embedded_project_exam.Protocol.Create.{Locals, create_packet}
use embedded_project_exam.Protocol.Wire.Laws.{IsPacket}

-- The declared sizes of the locals of createPacket.
pub record Sized (l : Locals) : Type 0 where
  pub option_size : length l.header_option ≡ 20
  pub payload_size : length l.payload ≡ 50
  pub modif_size : length l.modif_payload ≡ 50

length-terminated :
    (dst s : List ℕ)
    → length s < length dst
    → length (s ++ 0 ∷ drop (suc (length s)) dst) ≡ length dst
length-terminated dst s h = grind lengths

strcpy-length : (dst src r : List ℕ) → strcpy dst src ≡ some r → length r ≡ length dst
unfolding strcpy
strcpy-length dst src r e = elim (Option-cases (text src)) [
  | inl fault ↦ absurd (ground (arith, fault))
  | inr (s, found) ↦ ground (arith, found, length-terminated dst s)
]

length-joined :
    (dst d s : List ℕ)
    → length d + length s < length dst
    → length ((d ++ s) ++ 0 ∷ drop (suc (length d + length s)) dst) ≡ length dst
length-joined dst d s h = grind lengths

strcat-length : (dst src r : List ℕ) → strcat dst src ≡ some r → length r ≡ length dst
unfolding strcat
strcat-length dst src r e = elim (Option-cases (text dst)) [
  | inl fault ↦ absurd (ground (arith, fault))
  | inr (d, here) ↦ elim (Option-cases (text src)) [
    | inl fault ↦ absurd (ground (arith, here, fault))
    | inr (s, there) ↦ ground (arith, here, there, length-joined dst d s)
  ]
]

pub create_packet-IsPacket :
    (l : Locals) (mst rel : ℕ) (option payload : List ℕ) (p : Packet)
    → Sized l
    → create_packet l mst rel option payload ≡ some p
    → IsPacket p
unfolding create_packet
create_packet-IsPacket l mst rel option payload p h e =
    let (a, ea, r) = >>=-eq_some (strcpy l.header_option option) _ e in
    let (b, eb, r') = >>=-eq_some (strcat l.modif_payload (lit "  ")) _ r in
    let (c, ec, r'') = >>=-eq_some (strcat b payload) _ r' in
    let (d, ed, made) = >>=-eq_some (strcpy l.payload c) _ r'' in
    ground (arith, strcpy-length _ _ _ ea, strcpy-length _ _ _ ed, some-injective _ _ made)
