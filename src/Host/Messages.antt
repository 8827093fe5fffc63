-- ===== src/Host/Messages.antt =====
-- ControlServer/SBVK_broker.c: one function for each message that the host sends.
use embedded_project_exam.Base.{ℕ, Bool, Option, List, if◌then◌else◌}
use embedded_project_exam.CString.{lit}
use embedded_project_exam.Protocol.{MessageType, Qos, code, qos}
use embedded_project_exam.Host.{Host, emit}

unfoldable pub hello : ℕ → ℕ → Bool → Host → Option Host
hello sock dest init s =
    if init
    then emit (code MessageType.hello) (qos Qos.unreliable) (lit "init") (lit "testpayload") sock
        dest s
    else emit (code MessageType.hello) (qos Qos.unreliable) (lit "response") (lit "testpayload")
        sock dest s

unfoldable pub send_connect : ℕ → ℕ → Host → Option Host
send_connect =
    emit (code MessageType.connect) (qos Qos.reliable) (lit "CONNECT") (lit "testpayload")

unfoldable pub conn_ack : ℕ → ℕ → Host → Option Host
conn_ack = emit (code MessageType.connack) (qos Qos.unreliable) (lit "CONNACK") (lit "testpayload")

unfoldable pub sub_ack : ℕ → ℕ → Host → Option Host
sub_ack = emit (code MessageType.suback) (qos Qos.unreliable) (lit "") (lit "")

unfoldable pub pub_ack : ℕ → ℕ → Host → Option Host
pub_ack = emit (code MessageType.puback) (qos Qos.unreliable) (lit "") (lit "")

-- A command is sent reliably.
unfoldable pub push : ℕ → ℕ → Bool → List ℕ → List ℕ → Host → Option Host
push sock dest command topicname value s =
    if command
    then emit (code MessageType.push) (qos Qos.reliable) topicname value sock dest s
    else emit (code MessageType.push) (qos Qos.unreliable) topicname value sock dest s

unfoldable pub pingresp : ℕ → ℕ → Host → Option Host
pingresp =
    emit (code MessageType.pingresp) (qos Qos.unreliable) (lit "PINGRESP")
      (lit "pingRespTestPayload")
