-- ===== src/Examples/Hosts.antt =====
-- The broker on the host at work: the theorems on ControlServer/SBVK_broker.c at concrete values.
use embedded_project_exam.Base.{
  ℕ, List, length, ◌≡◌, refl, false, some, [], ◌∷◌, ◌++◌, arith, replicate, codes,
}
use embedded_project_exam.CString.{text}
use embedded_project_exam.Protocol.{Packet, of_code}
use embedded_project_exam.Topics.Spec.{recipients, has_topic, has_free}
use embedded_project_exam.Host.{Host, send_packet}
use embedded_project_exam.Host.Handle.{handle_message, publish_to}
use embedded_project_exam.Host.Relay.{Ready, Fits, PushedTo, publish_to-recipients}
use embedded_project_exam.Host.Accepts.{Acknowledged, entered}
use embedded_project_exam.Host.Declared.{handle_message-declared}
use embedded_project_exam.Host.Sends.{IsClean}
use embedded_project_exam.Topics.{Topic}
use embedded_project_exam.Host.Table.{Subscribes, publish_misses, handle_message-registered}
use embedded_project_exam.Host.Acks.{wakes, wakes_forget}
use embedded_project_exam.Host.Addresses.{
  ipv6_expander, sprintf, expanded, hex_byte, hex_digit, read_address, ipv6_expander-read,
}
use embedded_project_exam.Host.Runs.{Arrival, handle_all, replay, publish_to-replay}
use embedded_project_exam.Examples.{packet, clean-Holds, host, elsewhere, free, gas}

pub host-Ready : Ready host
unfolding text
host-Ready = record {
  clean = λ n. clean-Holds;
  named = ((codes "GAS", refl), (tt, (tt, (tt, (tt, (tt, (tt, (tt, (tt, (tt, (tt, tt)))))))))));
}

abbrev pub news : Packet
news = packet 1 1 (codes "GAS") (codes "  12")

news-Fits : Fits news (codes "GAS") (codes "  12")
unfolding text
news-Fits = record {
  option_text = refl;
  payload_text = refl;
  option_fits = omega arith;
  payload_fits = omega arith;
}

publish_to-recipients_example :
    (t : Host) × (publish_to news 3 host ≡ some t)
    × PushedTo 3 news (codes "GAS") (codes "  12") (7 ∷ 9 ∷ []) host t
unfolding recipients text
publish_to-recipients_example =
    publish_to-recipients news 3 (codes "GAS") (codes "  12") news-Fits host host-Ready

abbrev other : Packet
other = packet 1 0 (codes "Light") (codes "  ON")

publish_misses_example :
    (t : Host) × (handle_message other 3 5 elsewhere host ≡ some t)
    × Acknowledged other 3 5 (entered other elsewhere host) t
unfolding of_code has_topic text
publish_misses_example =
    publish_misses other 3 5 elsewhere (codes "Light") (codes "  ON")
      (record {
        option_text = refl;
        payload_text = refl;
        option_fits = omega arith;
        payload_fits = omega arith;
      })
      host host-Ready refl ((λ e. absurd (omega (arith, e))), (tt, tt)) refl

abbrev pub interest : Packet
interest = packet 3 1 (codes "Light") []

handle_message-registered_example :
    Subscribes
      (handle_message interest 3 8 elsewhere host)
      interest
      3
      8
      elsewhere
      (codes "Light")
      host
unfolding of_code text
handle_message-registered_example =
    handle_message-registered interest 3 8 elsewhere (codes "Light") []
      (record {
        option_text = refl;
        payload_text = refl;
        option_fits = omega arith;
        payload_fits = omega arith;
      })
      host host-Ready refl
      (
        (λ e. absurd (omega (arith, e))),
        (tt, (tt, (tt, (tt, (tt, (tt, (tt, (tt, (tt, (tt, tt)))))))))),
      )

-- Two threads run.
abbrev busy : Host
busy = record host { threads = 2; ack_rcv = false; packet_ack = interest }

abbrev command : Packet
command = packet 12 1 (codes "Light") (codes "    ON")

wakes_forget_example :
    ((wakes 2 (send_packet 3 command 9 (send_packet 3 command 7 host))).threads ≡ 2)
    × ((wakes 2 (send_packet 3 command 9 (send_packet 3 command 7 host))).sent
        ≡ replicate 3 (record { sock = 3; packet = command; dest = 9 })
          ++ record { sock = 3; packet = command; dest = 7 } ∷ [])
wakes_forget_example = wakes_forget 2 3 command command 7 9 host refl refl

-- A host with an empty table, and two subscriptions to different topics.
abbrev pub fresh : Host
fresh = record host { topics = replicate 11 free }

pub fresh-Ready : Ready fresh
fresh-Ready = record {
  clean = λ n. clean-Holds;
  named = (tt, (tt, (tt, (tt, (tt, (tt, (tt, (tt, (tt, (tt, (tt, tt)))))))))));
}

abbrev pub to_gas : Arrival
to_gas = record {
  packet = packet 3 1 (codes "GAS") [];
  sock = 3;
  sender = 5;
  tp = free;
  option_text = codes "GAS";
  payload_text = [];
}

abbrev pub to_light : Arrival
to_light = record {
  packet = interest;
  sock = 3;
  sender = 8;
  tp = free;
  option_text = codes "Light";
  payload_text = [];
}

pub to_gas-Fits : Fits to_gas.packet (codes "GAS") []
unfolding text
to_gas-Fits = record {
  option_text = refl;
  payload_text = refl;
  option_fits = omega arith;
  payload_fits = omega arith;
}

pub to_light-Fits : Fits interest (codes "Light") []
unfolding text
to_light-Fits = record {
  option_text = refl;
  payload_text = refl;
  option_fits = omega arith;
  payload_fits = omega arith;
}

publish_to-replay_example :
    (t : Host) × (u : Host) × (handle_all 100 (to_gas ∷ to_light ∷ []) fresh ≡ some t)
    × (publish_to other 3 t ≡ some u)
    × PushedTo 3 other (codes "Light") (codes "  ON") (5 ∷ 0 ∷ []) t u
unfolding replay of_code text has_free
publish_to-replay_example =
    publish_to-replay 100 (to_gas ∷ to_light ∷ []) other 3 (codes "Light") (codes "  ON") fresh
      (to_gas-Fits, (to_light-Fits, tt))
      (record {
        option_text = refl;
        payload_text = refl;
        option_fits = omega arith;
        payload_fits = omega arith;
      })
      fresh-Ready
      ((refl, (refl, (refl, (refl, (refl, (refl, (refl, (refl, (refl, (refl, (refl, tt))))))))))))
      refl

-- bbbb::1, and what it is printed as.
abbrev bbbb_1 : List ℕ
bbbb_1 = 187 ∷ 187 ∷ replicate 13 0 ++ 1 ∷ []

ipv6_expander-read_example :
    (t : List ℕ) × (ipv6_expander (replicate 40 0) bbbb_1
      ≡ some ((codes "Ipv6 addr = " ++ t) ++ codes " \n"))
    × (length t ≡ 39)
    × (read_address t ≡ some bbbb_1)
ipv6_expander-read_example = ipv6_expander-read (replicate 40 0) bbbb_1 refl refl (omega arith)

-- As ipv6_expander prints it.
ipv6_expander_test :
    ipv6_expander (replicate 40 0) bbbb_1
    ≡ some (codes "Ipv6 addr = bbbb:0000:0000:0000:0000:0000:0000:0001 \n")
unfolding ipv6_expander sprintf expanded hex_byte hex_digit text
ipv6_expander_test = refl

-- The table as it is declared.
abbrev declared : List Topic
declared = gas ∷ replicate 9 free

handle_message-declared_example :
    (t : Host) × IsClean t
    × ((rest : List Topic)
        → handle_message news 3 5 elsewhere (record host { topics = declared ++ rest })
          ≡ some (record t { topics = declared ++ rest }))
unfolding of_code
handle_message-declared_example =
    handle_message-declared news 3 5 elsewhere (codes "GAS") (codes "  12") host declared news-Fits
      host-Ready.clean refl
      (host-Ready.named.0, (tt, (tt, (tt, (tt, (tt, (tt, (tt, (tt, (tt, tt))))))))))
      (λ e. absurd (cc))
