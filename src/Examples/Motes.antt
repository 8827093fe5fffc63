-- ===== src/Examples/Motes.antt =====
-- A mote at work: the theorems on SBVK.c at concrete values.
use embedded_project_exam.Base.{
  ◌≡◌, List, refl, false, true, some, [], ◌∷◌, ◌++◌, arith, take, replicate, codes,
}
use embedded_project_exam.CString.{text}
use embedded_project_exam.Protocol.{Packet, of_code}
use embedded_project_exam.Topics.{Topic, store}
use embedded_project_exam.Topics.Spec.{recipients, NoneAt}
use embedded_project_exam.Device.{Device, send_packet}
use embedded_project_exam.Device.Handle.{handle_message}
use embedded_project_exam.Device.Processes.{start_ping_thread}
use embedded_project_exam.Device.Sends.{IsClean}
use embedded_project_exam.Device.Accepts.{Ready, Fits}
use embedded_project_exam.Device.Tableless.{handle_message-any_table}
use embedded_project_exam.Device.Relay.{
  Publishes, Subscribes, publish-recipients, subscribe-registered,
}
use embedded_project_exam.Device.Awaits.{connection_after, handle_message-connected}
use embedded_project_exam.Device.Acks.{ack_expiries, send_packet_forgets}
use embedded_project_exam.Device.Pings.{ping_expiries, GaveUp, ping_expiries-GaveUp}
use embedded_project_exam.Examples.{packet, clean-Holds, mote, frame, elsewhere}

pub mote-IsClean : IsClean mote
mote-IsClean n = clean-Holds

pub mote-Ready : Ready mote
unfolding text
mote-Ready = record { clean = mote-IsClean; named = ((codes "GAS", refl), (tt, tt)) }

abbrev pub news : Packet
news = packet 1 1 (codes "GAS") (codes "  12")

pub news-Fits : Fits news (codes "GAS") (codes "  12")
unfolding text
news-Fits = record {
  option_text = refl;
  payload_text = refl;
  option_fits = omega arith;
  payload_fits = omega arith;
}

away : NoneAt 200 (take 2 mote.topics)
away = (λ e. absurd (omega (arith, e)), (tt, tt))

publish-recipients_example :
    Publishes
      (handle_message news 1 5 elsewhere mote)
      news
      1
      5
      elsewhere
      (codes "GAS")
      (codes "  12")
      (7 ∷ 9 ∷ [])
      mote
unfolding of_code recipients text
publish-recipients_example =
    publish-recipients news 1 5 elsewhere (codes "GAS") (codes "  12") mote news-Fits mote-Ready
      refl away

abbrev pub interest : Packet
interest = packet 3 1 (codes "Light") []

subscribe-registered_example :
    Subscribes
      (handle_message interest 1 8 elsewhere mote)
      interest
      1
      8
      elsewhere
      (codes "Light")
      mote
unfolding of_code text
subscribe-registered_example =
    subscribe-registered interest 1 8 elsewhere (codes "Light") [] mote
      (record {
        option_text = refl;
        payload_text = refl;
        option_fits = omega arith;
        payload_fits = omega arith;
      })
      mote-Ready refl ((λ e. absurd (omega (arith, e))), (tt, tt))

-- The answer to a connection.
abbrev connack : Packet
connack = packet 7 0 (codes "CONNACK") (codes "  testpayload")

abbrev waiting : Device
waiting = record mote { ack_type_wanted = 7 }

handle_message-connected_example : true ≡ connection_after (of_code 7) false
unfolding handle_message of_code
handle_message-connected_example = handle_message-connected connack 1 5 frame waiting _ refl

abbrev connecting : Packet
connecting = packet 6 1 (codes "CONNECT") (codes "  testpayload")

send_packet_forgets_example :
    (ack_expiries 2 (send_packet interest 1 6 (send_packet news 1 5 mote))).sent
    ≡ replicate 3 (record { conn = 1; packet = interest; dest = 6 })
      ++ record { conn = 1; packet = news; dest = 5 } ∷ []
send_packet_forgets_example = send_packet_forgets 2 news interest 1 5 6 mote refl refl

ping_expiries-GaveUp_example :
    (t : Device) × (ping_expiries 5 (start_ping_thread 1 5 mote) ≡ some t) × GaveUp 5 mote t
ping_expiries-GaveUp_example = ping_expiries-GaveUp 1 5 mote mote-IsClean refl

abbrev value : Packet
value = packet 12 0 (codes "GAS") (codes "    12")

abbrev informed : Device
informed = record mote { pushed_info = some 100; fresh = true }

-- After a CONNACK in the frame of the push.
abbrev told : Device
told = record informed { connected = true; memory = store informed.memory 100 connack }

value-Fits : Fits value (codes "GAS") (codes "    12")
unfolding text
value-Fits = record {
  option_text = refl;
  payload_text = refl;
  option_fits = omega arith;
  payload_fits = omega arith;
}

handle_message-any_table_example :
    (t : Device) × IsClean t
    × ((ts : List Topic)
        → handle_message value 1 5 frame (record mote { topics = ts })
          ≡ some (record t { topics = ts }))
unfolding of_code
handle_message-any_table_example =
    handle_message-any_table value 1 5 frame (codes "GAS") (codes "    12") mote value-Fits
      mote-IsClean (λ e. absurd (cc)) (λ e. absurd (cc))
