-- ===== src/Examples/Servers.antt =====
-- The control server at work: the theorems on ControlServer/BrokerAndControlServer.c at concrete values.
use embedded_project_exam.Base.{
  ℕ, ◌≡◌, ◌↔◌, refl, inl, false, some, List, [], ◌∷◌, ◌++◌, arith, length, codes, if◌then◌else◌,
}
use embedded_project_exam.Protocol.Wire.{encode, decode}
use embedded_project_exam.Protocol.{Packet, of_code}
use embedded_project_exam.Topics.{store}
use embedded_project_exam.Host.Handle.{handle_message}
use embedded_project_exam.Server.{Server, light, washer, ended}
use embedded_project_exam.Server.Menu.{messages, call_menu}
use embedded_project_exam.Server.Receive.{receive_udp}
use embedded_project_exam.Server.Typed.{Received}
use embedded_project_exam.Server.Commands.{Commands, washer-Commands}
use embedded_project_exam.Server.Interleavings.{types, Reach, here, next}
use embedded_project_exam.Server.Sizes.{IsLaidOut, Reach-IsLaidOut}
use embedded_project_exam.Server.Console.{prompt, reply, clear}
use embedded_project_exam.Server.Choices.{any_offers, wrong, messages-offered}
use embedded_project_exam.Server.Steps.{
  Covered, Reach-Covered, IsRunning, Reach-IsRunning, receive_udp-last,
}
use embedded_project_exam.Examples.{x86, server, host, packet, frame, elsewhere}
use embedded_project_exam.Examples.Hosts.{host-Ready}

washer-Commands_example :
    Commands
      (messages 1 (record server { screen = washer }))
      (codes "Washer")
      (codes "ON")
      (record server { screen = washer })
    × Commands
        (messages 2 (record server { screen = washer }))
        (codes "Washer")
        (codes "OFF")
        (record server { screen = washer })
washer-Commands_example = washer-Commands (record server { screen = washer }) host-Ready refl

-- The user ends the program.
abbrev quit : Server
quit = record server { launch = 1; screen = ended }

to_quit : Reach x86 server quit
unfolding messages call_menu
to_quit = next here (types 5 refl)

Reach-Covered_example : Covered quit.host
Reach-Covered_example = Reach-Covered x86 (inl refl) to_quit

Reach-IsRunning_example : IsRunning quit
Reach-IsRunning_example =
    Reach-IsRunning x86
      (record { launched = inl (refl, λ e. absurd (cc)); closed = λ e. absurd (cc) }) to_quit

server-IsLaidOut : IsLaidOut server.host
server-IsLaidOut = record {
  slots = refl;
  sized = λ n. record { option_size = refl; payload_size = refl; modif_size = refl };
  resends = record {
    mst_bits = omega arith;
    rel_bit = omega arith;
    option_size = refl;
    payload_size = refl;
  };
  sends = tt;
}

Reach-IsLaidOut_example : IsLaidOut quit.host × (length quit.buffer ≡ length server.buffer)
Reach-IsLaidOut_example = Reach-IsLaidOut x86 server-IsLaidOut to_quit

-- The menu of the lamps does not offer 4.
messages-offered_example :
    ((any_offers 4 (prompt light) ≡ false) ↔ (reply light 4 ≡ clear ++ wrong light))
    × (messages 4 (record server { screen = light }) ≡ (
        if any_offers 4 (prompt light)
        then messages 4 (record server { screen = light })
        else some (record server { screen = light })))
messages-offered_example = messages-offered 4 (record server { screen = light }) (λ e. absurd (cc))

-- Its last datagram, a PUBACK.
abbrev puback : Packet
puback = packet 2 0 [] (codes "  ")

abbrev datagram : List ℕ
datagram = encode (record { between = 0 ∷ 0 ∷ 0 ∷ []; behind = 0 ∷ 0 ∷ [] }) puback

abbrev closed : Server
closed = record quit {
  host = record host { memory = store host.memory 200 puback };
  buffer = datagram;
  sin6 = 5;
  listening = false;
}

receive_udp-last_example :
    Received x86 datagram 5 elsewhere quit closed
    × (receive_udp x86 [] 6 frame closed ≡ some closed)
unfolding receive_udp decode handle_message of_code encode
receive_udp-last_example =
    receive_udp-last x86 datagram [] 5 6 elsewhere frame quit closed refl refl refl
