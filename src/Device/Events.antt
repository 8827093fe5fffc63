-- ===== src/Device/Events.antt =====
-- Everything that happens to a mote that runs SBVK.c, in any order: messages, expiries of its two timers, and
-- what an application calls of the functions that SBVK.h declares. Contiki runs each to its end before the next.
pub mod Finish
pub mod Keep
use embedded_project_exam.Base.{
  ℕ, suc, ◌<◌, ◌≡◌, refl, sym, subst, Bool, true, false, Option, none, some, List, [], ◌∷◌, arith,
  length, ◌>>=◌, if◌then◌else◌, ltb,
}
use mathlib.Core.Option.{some-injective}
use embedded_project_exam.CString.{text}
use embedded_project_exam.Protocol.{Packet}
use embedded_project_exam.Topics.{Frame}
use embedded_project_exam.Device.{Device, get_pushed_info}
use embedded_project_exam.Device.Messages.{
  hello, connect, conn_ack, disconnect, subscribe, sub_ack, unsub, unsub_ack, publish, pub_ack,
  push, push_ack, pingreq, pingresp,
}
use embedded_project_exam.Device.Processes.{
  ack_thread_expires, start_ping_thread, stop_ping_thread, wait_ping_expires, wait_ping_round,
}
use embedded_project_exam.Device.Handle.{handle_message}
use embedded_project_exam.Device.Sends.{
  hello_init-Emits, hello_response-Emits, connect-Emits, conn_ack-Emits, disconnect-Emits,
  subscribe-Emits, sub_ack-Emits, publish-Emits, pub_ack-Emits, push-Emits, push_ack-Emits,
  pingreq-Emits, pingresp-Emits,
}
use embedded_project_exam.Device.Accepts.{
  Ready, Fits, Finishes, Emits-Finishes, handle_message-Finishes,
}
use embedded_project_exam.Device.Sound.{Sound, emit-Sound, handle_message-Sound}
use embedded_project_exam.Device.Sound.Timers.{
  ack_thread_expires-Sound, start_ping_thread-Sound, wait_ping_expires-Sound,
}

pub data Event : Type 0 where
  receives : Packet → ℕ → ℕ → Frame → Event
  ack_timer ping_timer stops_ping unsubscribed takes_pushed_info : Event
  starts_ping says_connect says_conn_ack says_disconnect says_sub_ack says_pub_ack says_push_ack
        says_pingreq says_pingresp :
      ℕ → ℕ → Event
  says_hello : ℕ → ℕ → Bool → Event
  subscribes unsubscribes : ℕ → ℕ → List ℕ → Event
  publishes pushes : ℕ → ℕ → Bool → List ℕ → List ℕ → Event

unfoldable pub perform : Event → Device → Option Device
perform (Event.receives p conn addr f) s = handle_message p conn addr f s
perform Event.ack_timer s = some (ack_thread_expires s)
perform Event.ping_timer s = wait_ping_expires s
perform Event.stops_ping s = some (stop_ping_thread s)
perform Event.unsubscribed s = unsub_ack s
perform Event.takes_pushed_info s = some (get_pushed_info s).1
perform (Event.starts_ping conn dest) s = some (start_ping_thread conn dest s)
perform (Event.says_connect conn dest) s = connect conn dest s
perform (Event.says_conn_ack conn dest) s = conn_ack conn dest s
perform (Event.says_disconnect conn dest) s = disconnect conn dest s
perform (Event.says_sub_ack conn dest) s = sub_ack conn dest s
perform (Event.says_pub_ack conn dest) s = pub_ack conn dest s
perform (Event.says_push_ack conn dest) s = push_ack conn dest s
perform (Event.says_pingreq conn dest) s = pingreq conn dest s
perform (Event.says_pingresp conn dest) s = pingresp conn dest s
perform (Event.says_hello conn dest init) s = hello conn dest init s
perform (Event.subscribes conn dest topicname) s = subscribe conn dest topicname s
perform (Event.unsubscribes conn dest topicname) s = unsub conn dest topicname s
perform (Event.publishes conn dest command topicname value) s =
    publish conn dest command topicname value s
perform (Event.pushes conn dest command topicname value) s =
    push conn dest command topicname value s

unfoldable pub perform_all : List Event → Device → Option Device
perform_all [] s = some s
perform_all (e ∷ es) s = perform e s >>= perform_all es

-- A text of fewer bytes than the bound.
abbrev pub IsShort : ℕ → List ℕ → Type 0
IsShort n a = (o : List ℕ) × (text a ≡ some o) × (length o < n)

-- Texts fit the arrays of a packet, and a frame has room for a topic's two addresses.
abbrev pub Acceptable : Event → Type 0
Acceptable (Event.receives p conn addr f) =
    (o : List ℕ) × (v : List ℕ) × Fits p o v × (length f.tp.ips ≡ 2)
Acceptable (Event.subscribes conn dest topicname) = IsShort 20 topicname
Acceptable (Event.publishes conn dest command topicname value) =
    IsShort 20 topicname × IsShort 48 value
Acceptable (Event.pushes conn dest command topicname value) =
    IsShort 20 topicname × IsShort 48 value
Acceptable _ = Unit {0}

abbrev pub AllAcceptable : List Event → Type 0
AllAcceptable [] = Unit {0}
AllAcceptable (e ∷ es) = Acceptable e × AllAcceptable es
