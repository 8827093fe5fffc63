-- ===== src/Protocol.antt =====
-- structure.h (and its copy ControlServer/structureapp.h): message types, reliability, packets.
pub mod Codes
pub mod Create
pub mod Wire
use embedded_project_exam.Base.{ℕ, Option, none, some, List, ◌==◌, if◌then◌else◌}

-- enum MESSAGE_TYPE
pub data MessageType : Type 0 where
  hello publish puback subscribe suback disconnect connect connack unsub unsuback pingreq pingresp
        push pushack :
      MessageType

-- enum QOS
pub data Qos : Type 0 where
  unreliable reliable : Qos

-- The value of an enumerator.
abbrev pub code : MessageType → ℕ
code MessageType.hello = 0
code MessageType.publish = 1
code MessageType.puback = 2
code MessageType.subscribe = 3
code MessageType.suback = 4
code MessageType.disconnect = 5
code MessageType.connect = 6
code MessageType.connack = 7
code MessageType.unsub = 8
code MessageType.unsuback = 9
code MessageType.pingreq = 10
code MessageType.pingresp = 11
code MessageType.push = 12
code MessageType.pushack = 13

abbrev pub qos : Qos → ℕ
qos Qos.unreliable = 0
qos Qos.reliable = 1

-- The label of a switch over the message type; `none` is `default`.
unfoldable pub of_code : ℕ → Option MessageType
of_code n =
    if n == 0
    then some MessageType.hello
    else if n == 1
    then some MessageType.publish
    else if n == 2
    then some MessageType.puback
    else if n == 3
    then some MessageType.subscribe
    else if n == 4
    then some MessageType.suback
    else if n == 5
    then some MessageType.disconnect
    else if n == 6
    then some MessageType.connect
    else if n == 7
    then some MessageType.connack
    else if n == 8
    then some MessageType.unsub
    else if n == 9
    then some MessageType.unsuback
    else if n == 10
    then some MessageType.pingreq
    else if n == 11
    then some MessageType.pingresp
    else if n == 12
    then some MessageType.push
    else if n == 13
    then some MessageType.pushack
    else none

-- struct Header: `mst` has four bits and `rel` has one; the array has 20 bytes.
pub record Header : Type 0 where
  pub mst : ℕ
  pub rel : ℕ
  pub header_option : List ℕ

-- struct Packet: the payload has 50 bytes.
pub record Packet : Type 0 where
  pub header : Header
  pub open header use *
  pub payload : List ℕ

-- getMessageType
unfoldable pub get_message_type : Packet → ℕ
get_message_type p = p.mst
