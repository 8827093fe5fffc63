-- ===== src/System.antt =====
-- A mote at work with a broker/broker.c, which runs SBVK.c as well and lays the packet's struct out alike, and
-- with the control server, whose layout is its own: each takes the bytes that the other sent.
pub mod Answers
pub mod Rounds
pub mod Handshake
pub mod ServerRounds
pub mod ServerAnswers
pub mod ServerHandshake
pub mod Deliveries
pub mod Reading
pub mod Retries
