-- ===== src/System/Answers.antt =====
-- What handleMessage of SBVK.c answers to each message of the handshake.
use embedded_project_exam.Base.{ℕ, ◌≡◌, refl, true, some, arith, codes}
use embedded_project_exam.CString.{lit, text}
use embedded_project_exam.CString.Laws.{strcmp-same}
use embedded_project_exam.Protocol.{Packet, MessageType, of_code, get_message_type}
use embedded_project_exam.Topics.{Frame, store}
use embedded_project_exam.Device.{Device}
use embedded_project_exam.Device.Handle.{note_ack, dispatch, handle_hello, handle_message}
use embedded_project_exam.Device.Accepts.{entered, note_ack-Same}
use embedded_project_exam.Device.Sends.{
  Emits, IsClean, hello_response-Emits, connect-Emits, conn_ack-Emits,
}

module _ (p : Packet) (c addr : ℕ) (f : Frame) (s : Device) (clean : IsClean s) where
  entered-IsClean : IsClean (entered p f s)
  entered-IsClean n =
      rw ((note_ack-Same p (record s { memory = store s.memory f.at p })).locals_eq) (clean n)

  pub init-Emits :
      of_code p.mst ≡ some MessageType.hello
      → text p.header_option ≡ some (codes "init")
      → Emits
          (handle_message p c addr f s)
          (entered p f s)
          c
          addr
          0
          0
          (codes "response")
          (codes "  testpayload")
  unfolding handle_message get_message_type dispatch handle_hello text
  init-Emits e h =
      rw (e, strcmp-same p.header_option (lit "init") _ (codes "init") h refl)
        (hello_response-Emits c addr (entered p f s) entered-IsClean)

  pub response-Emits :
      of_code p.mst ≡ some MessageType.hello
      → text p.header_option ≡ some (codes "response")
      → Emits
          (handle_message p c addr f s)
          (entered p f s)
          c
          addr
          6
          1
          (codes "CONNECT")
          (codes "  testpayload")
  unfolding handle_message get_message_type dispatch handle_hello text
  response-Emits e h =
      rw (e, strcmp-same p.header_option (lit "init") _ (codes "init") h refl)
        (connect-Emits c addr (entered p f s) entered-IsClean)

  pub connect_answer-Emits :
      of_code p.mst ≡ some MessageType.connect
      → Emits
          (handle_message p c addr f s)
          (entered p f s)
          c
          addr
          7
          0
          (codes "CONNACK")
          (codes "  testpayload")
  unfolding handle_message get_message_type dispatch
  connect_answer-Emits e = rw e (conn_ack-Emits c addr (entered p f s) entered-IsClean)

pub connack_lem :
    (p : Packet) (c addr : ℕ) (f : Frame) (s : Device)
    → of_code p.mst ≡ some MessageType.connack
    → handle_message p c addr f s ≡ some (record (entered p f s) { connected = true })
unfolding handle_message get_message_type dispatch
connack_lem p c addr f s e = rw e refl

-- An awaited message ends the wait.
pub entered-ack_rcv :
    (p : Packet) (f : Frame) (s : Device)
    → s.ack_type_wanted ≡ p.mst
    → (entered p f s).ack_rcv ≡ true
unfolding note_ack get_message_type
entered-ack_rcv p f s e = ground arith

pub entered-sent : (p : Packet) (f : Frame) (s : Device) → (entered p f s).sent ≡ s.sent
unfolding note_ack
entered-sent p f s = ground arith
