-- ===== src/Protocol/Create.antt =====
-- createPacket, which SBVK.c and ControlServer/SBVK_broker.c define alike. Its locals are not
-- initialised, so what the stack holds where they lie is an argument.
pub mod Laws
pub mod Sizes
use embedded_project_exam.Base.{ℕ, ◌%◌, Option, some, List, ◌>>=◌}
use embedded_project_exam.CString.{lit, strcpy, strcat}
use embedded_project_exam.Protocol.{Packet}

-- What the stack holds before the call: `header.headerOption`, `packet.payload`, `modifPayload`.
pub record Locals : Type 0 where
  pub header_option : List ℕ
  pub payload : List ℕ
  pub modif_payload : List ℕ

-- The bit-fields keep four bits and one bit.
unfoldable pub create_packet : Locals → ℕ → ℕ → List ℕ → List ℕ → Option Packet
create_packet l mst rel header_option payload = do
  copied ← strcpy l.header_option header_option
  padded ← strcat l.modif_payload (lit "  ")
  modif ← strcat padded payload
  stored ← strcpy l.payload modif
  some (record {
    header = record { mst = mst % 16; rel = rel % 2; header_option = copied };
    payload = stored;
  })
