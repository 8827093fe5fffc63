-- ===== src/Protocol/Create/Laws.antt =====
-- What createPacket puts in a packet, and when it runs off an array.
use embedded_project_exam.Base.{
  lengths, ℕ, ◌+◌, ◌%◌, ◌≤◌, ◌<◌, ◌≡◌, refl, none, some, List, [], ◌∷◌, ◌++◌, arith, length, ◌⊎◌,
  inl, inr,
}
use embedded_project_exam.CString.{lit, text, strcat}
use embedded_project_exam.CString.Laws.{
  Stores, strcpy-Stores, strcat-Stores, strcat-cases, strcpy_overflow, strcat_overflow,
}
use embedded_project_exam.Protocol.{Packet}
use embedded_project_exam.Protocol.Create.{Locals, create_packet}

-- The declared sizes of the locals, and the text that `modifPayload` happens to hold.
pub record Holds (l : Locals) (junk : List ℕ) : Type 0 where
  pub option_size : length l.header_option ≡ 20
  pub payload_size : length l.payload ≡ 50
  pub modif_size : length l.modif_payload ≡ 50
  pub modif_text : text l.modif_payload ≡ some junk

-- A packet with these fields, its arrays of the declared sizes.
pub record Carries (p : Packet) (mst rel : ℕ) (option payload : List ℕ) : Type 0 where
  pub mst_eq : p.mst ≡ mst
  pub rel_eq : p.rel ≡ rel
  pub option_stored : Stores p.header_option 20 option
  pub payload_stored : Stores p.payload 50 payload

two_spaces : text (lit "  ") ≡ some (32 ∷ 32 ∷ [])
unfolding text
two_spaces = refl

-- createPacket, with arrays of the declared sizes and a modifPayload that happens to hold a text
-- of k bytes, on an option of at most 19 bytes and a payload of at most 47 - k bytes, makes a
-- packet with the lowest four bits of `mst`, the lowest bit of `rel`, the option, and as its
-- payload the text on the stack, two spaces and the payload given, in arrays of 20 and 50 bytes.
pub create_packet-Carries :
    (l : Locals) (mst rel : ℕ) (header_option payload junk o v : List ℕ)
    → Holds l junk
    → text header_option ≡ some o
    → text payload ≡ some v
    → length o < 20
    → length junk + 2 + length v < 50
    → (p : Packet) × (create_packet l mst rel header_option payload ≡ some p)
      × Carries p (mst % 16) (rel % 2) o ((junk ++ 32 ∷ 32 ∷ []) ++ v)
unfolding create_packet
create_packet-Carries l mst rel header_option payload junk o v h ho hv lo lv =
    let (a, ea, sa) = strcpy-Stores l.header_option header_option 20 o h.option_size ho lo in
    let (b, eb, sb) =
      strcat-Stores l.modif_payload (lit "  ") 50 junk (32 ∷ 32 ∷ [])
        (record { size = h.modif_size; content = h.modif_text }) two_spaces (omega arith) in
    let (c, ec, sc) = strcat-Stores b payload 50 (junk ++ 32 ∷ 32 ∷ []) v sb hv (grind lengths) in
    let (d, ed, sd) =
      strcpy-Stores l.payload c 50 ((junk ++ 32 ∷ 32 ∷ []) ++ v) h.payload_size sc.content
        (grind lengths) in
    (
      record { header = record { mst = mst % 16; rel = rel % 2; header_option = a }; payload = d },
      rw (ea, eb, ec, ed),
      record { mst_eq = refl; rel_eq = refl; option_stored = sa; payload_stored = sd },
    )

-- createPacket, with arrays of the declared sizes and a modifPayload that happens to hold a text
-- of k bytes, writes past the end of an array if the option has 20 bytes or more or the payload
-- has 48 - k or more.
pub create_packet-overflow :
    (l : Locals) (mst rel : ℕ) (header_option payload junk o v : List ℕ)
    → Holds l junk
    → text header_option ≡ some o
    → text payload ≡ some v
    → (20 ≤ length o) ⊎ (50 ≤ length junk + 2 + length v)
    → create_packet l mst rel header_option payload ≡ none
unfolding create_packet
create_packet-overflow l mst rel header_option payload junk o v h ho hv (inl over) =
    rw (strcpy_overflow l.header_option header_option o ho (omega (arith, h.option_size)))
create_packet-overflow l mst rel header_option payload junk o v h ho hv (inr over) =
    elim (strcat-cases l.modif_payload (lit "  ") 50 junk (32 ∷ 32 ∷ [])
      (record { size = h.modif_size; content = h.modif_text }) two_spaces) [
        | inl e ↦ ground (arith, e)
        | inr (b, eb, sb) ↦
            let full : strcat b payload ≡ none =
              strcat_overflow b payload _ v sb.content hv (grind (lengths, sb.size)) in
            ground (arith, eb, full)
      ]
