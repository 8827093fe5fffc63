-- ===== src/Host/Handle.antt =====
-- ControlServer/SBVK_broker.c: publishTo and handleMessage. `topics` is declared with ten slots.
use embedded_project_exam.Base.{
  ℕ, true, false, not, ◌&&◌, Option, some, take, ◌==◌, if◌then◌else◌, ◌>>=◌,
}
use embedded_project_exam.CString.{lit, strcmp}
use embedded_project_exam.Protocol.{MessageType, Packet, of_code}
use embedded_project_exam.Topics.{Frame, subscribe_topic, store}
use embedded_project_exam.Topics.Loops
use embedded_project_exam.Host.{Host}
use embedded_project_exam.Host.Messages.{
  hello, send_connect, conn_ack, sub_ack, pub_ack, push, pingresp,
}

-- getMessageType
unfoldable pub get_message_type : Packet → ℕ
get_message_type p = p.mst

-- The push in the loops of publishTo and of PUBLISH.
unfoldable pub push_message : Packet → ℕ → ℕ → Host → Option Host
push_message p sock ip = push sock ip (not (p.rel == 0)) p.header_option p.payload

-- publishTo walks eleven slots.
unfoldable pub publish_to : Packet → ℕ → Host → Option Host
unfolding push_message
publish_to p sock s =
    Loops.forward (λ h. h.memory) (push_message p sock) p.header_option (take 11 s.topics) s

-- An acknowledgement of the awaited type ends the wait.
unfoldable pub note_ack : Packet → Host → Host
unfolding get_message_type
note_ack p s =
    if not s.ack_rcv && get_message_type p == s.ack_type_wanted
    then record s { ack_rcv = true }
    else s

unfoldable pub handle_hello : Packet → ℕ → ℕ → Host → Option Host
handle_hello p sock addr s = do
  init ← strcmp p.header_option (lit "init")
  if init then hello sock addr false s else send_connect sock addr s

-- PUBLISH walks two slots.
unfoldable pub handle_publish : Packet → ℕ → ℕ → Host → Option Host
unfolding push_message
handle_publish p sock addr s = do
  s' ← (if p.rel == 1 then pub_ack sock addr s else some s)
  Loops.forward (λ h. h.memory) (push_message p sock) p.header_option (take 2 s'.topics) s'

unfoldable pub handle_subscribe : Packet → ℕ → ℕ → Frame → Host → Option Host
handle_subscribe p sock addr f s = do
  topics' ← subscribe_topic s.memory p.header_option addr f s.topics
  sub_ack sock addr (record s { topics = topics' })

-- The switch.
unfoldable pub dispatch : Option MessageType → Packet → ℕ → ℕ → Frame → Host → Option Host
unfolding handle_hello handle_publish handle_subscribe
dispatch (some MessageType.hello) p sock addr f s = handle_hello p sock addr s
dispatch (some MessageType.publish) p sock addr f s = handle_publish p sock addr s
dispatch (some MessageType.connect) p sock addr f s = conn_ack sock addr s
dispatch (some MessageType.subscribe) p sock addr f s = handle_subscribe p sock addr f s
dispatch (some MessageType.pingreq) p sock addr f s = pingresp sock addr s
dispatch other p sock addr f s = some s

-- handleMessage, called with its packet in frame `f`.
unfoldable pub handle_message : Packet → ℕ → ℕ → Frame → Host → Option Host
unfolding note_ack dispatch
handle_message p sock addr f s =
    dispatch (of_code (get_message_type p)) p sock addr f
      (note_ack p (record s { memory = store s.memory f.at p }))
