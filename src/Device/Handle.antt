-- ===== src/Device/Handle.antt =====
-- SBVK.c: handleMessage.
use embedded_project_exam.Base.{
  ℕ, true, false, not, ◌&&◌, Option, some, List, take, ◌==◌, if◌then◌else◌, ◌>>=◌,
}
use embedded_project_exam.CString.{lit, strcmp}
use embedded_project_exam.Protocol.{MessageType, Packet, of_code, get_message_type}
use embedded_project_exam.Topics.{Topic, Frame, subscribe_topic, store}
use embedded_project_exam.Topics.Loops
use embedded_project_exam.Device.{Device}
use embedded_project_exam.Device.Messages.{
  hello, connect, conn_ack, sub_ack, pub_ack, push, push_ack, pingresp,
}
use embedded_project_exam.Device.Processes.{stop_ping_thread}

-- An acknowledgement of the awaited type ends the wait.
unfoldable pub note_ack : Packet → Device → Device
unfolding get_message_type
note_ack p s =
    if not s.ack_rcv && get_message_type p == s.ack_type_wanted
    then record s { ack_rcv = true }
    else s

-- The push in the loops of PUBLISH.
unfoldable pub push_message : Packet → ℕ → ℕ → Device → Option Device
push_message p conn ip = push conn ip (not (p.rel == 0)) p.header_option p.payload

-- The loops of PUBLISH over the topics given.
unfoldable pub forward : Packet → ℕ → List Topic → Device → Option Device
unfolding push_message
forward p conn = Loops.forward (λ s. s.memory) (push_message p conn) p.header_option

unfoldable pub handle_hello : Packet → ℕ → ℕ → Device → Option Device
handle_hello p conn addr s = do
  init ← strcmp p.header_option (lit "init")
  if init then hello conn addr false s else connect conn addr s

unfoldable pub handle_publish : Packet → ℕ → ℕ → Device → Option Device
unfolding forward
handle_publish p conn addr s = do
  s' ← (if p.rel == 1 then pub_ack conn addr s else some s)
  forward p conn (take 2 s'.topics) s'

unfoldable pub handle_subscribe : Packet → ℕ → ℕ → Frame → Device → Option Device
handle_subscribe p conn addr f s = do
  topics' ← subscribe_topic s.memory p.header_option addr f s.topics
  sub_ack conn addr (record s { topics = topics' })

unfoldable pub handle_push : ℕ → ℕ → Frame → Device → Option Device
handle_push conn addr f s = push_ack conn addr (record s { pushed_info = some f.at; fresh = true })

-- The switch.
unfoldable pub dispatch : Option MessageType → Packet → ℕ → ℕ → Frame → Device → Option Device
unfolding handle_hello handle_publish handle_subscribe handle_push
dispatch (some MessageType.hello) p conn addr f s = handle_hello p conn addr s
dispatch (some MessageType.publish) p conn addr f s = handle_publish p conn addr s
dispatch (some MessageType.subscribe) p conn addr f s = handle_subscribe p conn addr f s
dispatch (some MessageType.disconnect) p conn addr f s = some (record s { connected = false })
dispatch (some MessageType.connect) p conn addr f s = conn_ack conn addr s
dispatch (some MessageType.connack) p conn addr f s = some (record s { connected = true })
dispatch (some MessageType.pingreq) p conn addr f s = pingresp conn addr s
dispatch (some MessageType.pingresp) p conn addr f s = some (stop_ping_thread s)
dispatch (some MessageType.push) p conn addr f s = handle_push conn addr f s
dispatch other p conn addr f s = some s

-- handleMessage, called with its packet in frame `f`.
unfoldable pub handle_message : Packet → ℕ → ℕ → Frame → Device → Option Device
unfolding note_ack dispatch
handle_message p conn addr f s =
    dispatch (of_code (get_message_type p)) p conn addr f
      (note_ack p (record s { memory = store s.memory f.at p }))
