-- ===== src/Protocol/Codes.antt =====
-- Message types and their four-bit codes.
use embedded_project_exam.Base.{ℕ, ◌<◌, ◌≡◌, refl, some, arith}
use embedded_project_exam.Protocol.{MessageType, code, of_code}

-- The code of every message type fits the four bits of `mst`, and the switch takes it back to the
-- same type.
pub of_code-code : (t : MessageType) → (of_code (code t) ≡ some t) × (code t < 16)
unfolding of_code
of_code-code MessageType.hello = (refl, omega arith)
of_code-code _ = (refl, omega arith)

-- A switch label is reached from no other number.
pub code-of_code : (n : ℕ) {t : MessageType} → of_code n ≡ some t → code t ≡ n
unfolding of_code
code-of_code n h = ground arith
