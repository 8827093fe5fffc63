-- ===== src/Examples/Brokers.antt =====
-- A broker that takes its datagrams in one stack frame: the theorem on broker/broker.c at concrete values.
use embedded_project_exam.Base.{◌≡◌, refl, some, List, [], ◌∷◌, codes}
use embedded_project_exam.CString.{text, strcpy, strcat, strcmp}
use embedded_project_exam.Protocol.{Packet, of_code}
use embedded_project_exam.Protocol.Wire.{encode, decode}
use embedded_project_exam.Topics.Spec.{everyone}
use embedded_project_exam.Device.{Device, emit, send_packet}
use embedded_project_exam.Device.Messages.{sub_ack}
use embedded_project_exam.Device.Sends.{sent_by}
use embedded_project_exam.Device.Accepts.{Ready}
use embedded_project_exam.Topics.{store, subscribe_topic}
use embedded_project_exam.Protocol.Create.{create_packet}
use embedded_project_exam.Device.Handle.{handle_message}
use embedded_project_exam.Device.Relay.{Publishes}
use embedded_project_exam.Broker.{udp_rx_callback, Arrival, run}
use embedded_project_exam.Broker.Aliases.{run-publish-everyone}
use embedded_project_exam.Examples.{z1, padding, packet, clean-Holds, mote, frame}
use embedded_project_exam.Examples.Motes.{news, news-Fits, interest}

-- A subscription to Light from a mote at 8, and the broker after it. The one topic in the table has taken the
-- name of the packet that arrived.
abbrev arrivals : List Arrival
arrivals = record { sender = 8; bytes = encode padding interest; frame = frame } ∷ []

abbrev suback : Packet
suback = packet 4 0 [] (codes "  ")

abbrev after : Device
after = sent_by suback 1 8 (record mote { memory = store mote.memory 100 interest })

runs : run z1 1 arrivals mote ≡ some after
unfolding run udp_rx_callback decode handle_message of_code subscribe_topic sub_ack emit
    create_packet strcpy strcat strcmp text encode
runs = refl

after-Ready : Ready after
unfolding text send_packet
after-Ready = record { clean = λ n. clean-Holds; named = ((codes "Light", refl), (tt, tt)) }

run-publish-everyone_example :
    Publishes
      (handle_message news 1 5 frame after)
      news
      1
      5
      frame
      (codes "GAS")
      (codes "  12")
      (7 ∷ 9 ∷ [])
      after
unfolding everyone of_code send_packet
run-publish-everyone_example =
    run-publish-everyone z1 1 100 5 arrivals mote after news frame (codes "GAS") (codes "  12")
      (refl, tt) (refl, (tt, tt)) runs after-Ready news-Fits refl refl
