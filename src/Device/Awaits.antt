-- ===== src/Device/Awaits.antt =====
-- What a message changes in handleMessage of SBVK.c: the wait for an acknowledgement, the connection.
use embedded_project_exam.Base.{
  ℕ, ◌≡◌, refl, ◌∙◌, Bool, true, false, ◌⊎◌, Option, some, List, arith,
}
use embedded_project_exam.Protocol.{Packet, MessageType, of_code, get_message_type}
use embedded_project_exam.Topics.{Frame}
use embedded_project_exam.Device.{Device, emit}
use embedded_project_exam.Device.Handle.{note_ack, dispatch, handle_message}
use embedded_project_exam.Device.Keeps.{Keeps, IsFrame, Assigns, dispatch-Keeps}

-- The wait is not ended.
abbrev StillWaits : Device → Device → Type 0
StillWaits s t = t.ack_rcv ≡ true → s.ack_rcv ≡ true

emit-StillWaits :
    (mst rel : ℕ) (option payload : List ℕ) (conn dest : ℕ) (s : Device)
    → Keeps StillWaits (emit mst rel option payload conn dest s) s
unfolding emit
emit-StillWaits mst rel option payload conn dest s t e a = ground arith

StillWaits-IsFrame : IsFrame StillWaits
StillWaits-IsFrame = record {
  stays = λ s a. a;
  chains = λ s t u h k a. h (k a);
  sends = emit-StillWaits;
}

-- Whenever handleMessage of SBVK.c has run without a fault and the wait for an acknowledgement is
-- over afterwards, it was over before or the message was of the awaited type.
pub handle_message-ack_rcv :
    (p : Packet) (conn addr : ℕ) (f : Frame) (s t : Device)
    → handle_message p conn addr f s ≡ some t
    → t.ack_rcv ≡ true
    → (s.ack_rcv ≡ true) ⊎ (p.mst ≡ s.ack_type_wanted)
unfolding handle_message note_ack get_message_type
handle_message-ack_rcv p conn addr f s t e a = ground (
  arith,
  dispatch-Keeps StillWaits StillWaits-IsFrame p conn addr f (of_code p.mst) _ assigns t e a,
)
  where
    assigns : Assigns StillWaits (of_code p.mst) p addr f
    assigns = record {
      connects = λ l s a. a;
      disconnects = λ l s a. a;
      unpings = λ l s a. a;
      pushed = λ l s a. a;
      subscribes = λ l s ts h a. a;
    }

abbrev SameConnected : Device → Device → Type 0
SameConnected s t = t.connected ≡ s.connected

emit-SameConnected :
    (mst rel : ℕ) (option payload : List ℕ) (conn dest : ℕ) (s : Device)
    → Keeps SameConnected (emit mst rel option payload conn dest s) s
unfolding emit
emit-SameConnected mst rel option payload conn dest s t e = ground arith

SameConnected-IsFrame : IsFrame SameConnected
SameConnected-IsFrame = record {
  stays = λ s. refl;
  chains = λ s t u h k. k ∙ h;
  sends = emit-SameConnected;
}

-- What a message of the given type makes of the connection.
abbrev pub connection_after : Option MessageType → Bool → Bool
connection_after (some MessageType.connack) b = true
connection_after (some MessageType.disconnect) b = false
connection_after other b = b

dispatch_connected :
    (l : Option MessageType) (p : Packet) (conn addr : ℕ) (f : Frame) (s t : Device)
    → dispatch l p conn addr f s ≡ some t
    → t.connected ≡ connection_after l s.connected
unfolding dispatch
dispatch_connected (some MessageType.connack) p conn addr f s t e = ground arith
dispatch_connected (some MessageType.disconnect) p conn addr f s t e = ground arith
dispatch_connected other p conn addr f s t e =
    dispatch-Keeps SameConnected SameConnected-IsFrame p conn addr f other s
      (record {
        connects = λ l u. absurd (cc);
        disconnects = λ l u. absurd (cc);
        unpings = λ l u. refl;
        pushed = λ l u. refl;
        subscribes = λ l u ts h. refl;
      })
      t e

-- Whenever handleMessage of SBVK.c has run without a fault, the mote is connected after a CONNACK,
-- not connected after a DISCONNECT, and after a message of any other type it is as it was.
pub handle_message-connected :
    (p : Packet) (conn addr : ℕ) (f : Frame) (s t : Device)
    → handle_message p conn addr f s ≡ some t
    → t.connected ≡ connection_after (of_code p.mst) s.connected
unfolding handle_message note_ack get_message_type
handle_message-connected p conn addr f s t e =
    ground (arith, dispatch_connected (of_code p.mst) p conn addr f _ t e)
