-- ===== src/Device/Messages.antt =====
-- SBVK.c: one function for each message that a mote sends.
use embedded_project_exam.Base.{ℕ, Bool, Option, some, List, if◌then◌else◌}
use embedded_project_exam.CString.{lit}
use embedded_project_exam.Protocol.{MessageType, Qos, code, qos}
use embedded_project_exam.Device.{Device, emit}

unfoldable pub hello : ℕ → ℕ → Bool → Device → Option Device
hello conn dest init s =
    if init
    then emit (code MessageType.hello) (qos Qos.unreliable) (lit "init") (lit "123456789100000000")
        conn dest s
    else emit (code MessageType.hello) (qos Qos.unreliable) (lit "response") (lit "testpayload")
        conn dest s

unfoldable pub connect : ℕ → ℕ → Device → Option Device
connect = emit (code MessageType.connect) (qos Qos.reliable) (lit "CONNECT") (lit "testpayload")

unfoldable pub conn_ack : ℕ → ℕ → Device → Option Device
conn_ack = emit (code MessageType.connack) (qos Qos.unreliable) (lit "CONNACK") (lit "testpayload")

unfoldable pub disconnect : ℕ → ℕ → Device → Option Device
disconnect =
    emit (code MessageType.disconnect) (qos Qos.unreliable) (lit "DISCONNECT") (lit "testpayload")

unfoldable pub subscribe : ℕ → ℕ → List ℕ → Device → Option Device
subscribe conn dest topicname =
    emit (code MessageType.subscribe) (qos Qos.reliable) topicname (lit "") conn dest

unfoldable pub sub_ack : ℕ → ℕ → Device → Option Device
sub_ack = emit (code MessageType.suback) (qos Qos.unreliable) (lit "") (lit "")

-- The bodies of unSUB and unSUBACK are empty.
unfoldable pub unsub : ℕ → ℕ → List ℕ → Device → Option Device
unsub conn dest topicname s = some s

unfoldable pub unsub_ack : Device → Option Device
unsub_ack s = some s

-- A command is sent reliably.
unfoldable pub publish : ℕ → ℕ → Bool → List ℕ → List ℕ → Device → Option Device
publish conn dest command topicname value s =
    if command
    then emit (code MessageType.publish) (qos Qos.reliable) topicname value conn dest s
    else emit (code MessageType.publish) (qos Qos.unreliable) topicname value conn dest s

unfoldable pub pub_ack : ℕ → ℕ → Device → Option Device
pub_ack = emit (code MessageType.puback) (qos Qos.unreliable) (lit "") (lit "")

unfoldable pub push : ℕ → ℕ → Bool → List ℕ → List ℕ → Device → Option Device
push conn dest command topicname value s =
    if command
    then emit (code MessageType.push) (qos Qos.reliable) topicname value conn dest s
    else emit (code MessageType.push) (qos Qos.unreliable) topicname value conn dest s

unfoldable pub push_ack : ℕ → ℕ → Device → Option Device
push_ack = emit (code MessageType.pushack) (qos Qos.unreliable) (lit "") (lit "")

unfoldable pub pingreq : ℕ → ℕ → Device → Option Device
pingreq = emit (code MessageType.pingreq) (qos Qos.unreliable) (lit "PINGREQ") (lit "testPayload")

unfoldable pub pingresp : ℕ → ℕ → Device → Option Device
pingresp =
    emit (code MessageType.pingresp) (qos Qos.unreliable) (lit "PINGRESP")
      (lit "pingRespTestPayload")
