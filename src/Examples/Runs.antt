-- ===== src/Examples/Runs.antt =====
-- A run of the control server at concrete values: a mote subscribes to GAS and another to Light, the user opens
-- the menu of the lamps, and the command goes to the first.
use embedded_project_exam.Base.{suc, false, ◌≡◌, refl, some, List, [], ◌∷◌, arith, codes}
use embedded_project_exam.Protocol.{Packet, of_code}
use embedded_project_exam.Protocol.Create.Laws.{Carries}
use embedded_project_exam.Protocol.Wire.{encode, decode}
use embedded_project_exam.Topics.Spec.{has_free}
use embedded_project_exam.Host.Relay.{PushedTo}
use embedded_project_exam.Server.{Server, main, ended}
use embedded_project_exam.Server.Menu.{messages}
use embedded_project_exam.Server.Runs.{
  Input, datagram, typed, woken, perform_all, AllIntact, observe_all, IsFresh, Seen,
}
use embedded_project_exam.Server.Runs.Laws.{perform_all-light, perform_all-Seen}
use embedded_project_exam.Examples.{x86, x86_padding, server}
use embedded_project_exam.Examples.Hosts.{
  fresh, fresh-Ready, to_gas, to_gas-Fits, to_light, to_light-Fits,
}

abbrev started : Server
started = record server { host = fresh }

started-IsFresh : IsFresh x86 started
unfolding has_free
started-IsFresh = record {
  free = (refl, (refl, (refl, (refl, (refl, (refl, (refl, (refl, (refl, (refl, (refl, tt)))))))))));
  some_free = refl;
  ready = fresh-Ready;
  buffer_size = refl;
}

abbrev inputs : List Input
inputs =
    datagram (encode x86_padding to_gas.packet) to_gas
    ∷ woken
    ∷ datagram (encode x86_padding to_light.packet) to_light
    ∷ typed 1
    ∷ []

inputs-AllIntact : AllIntact x86 inputs
unfolding encode decode
inputs-AllIntact = ((refl, refl, to_gas-Fits), (tt, ((refl, refl, to_light-Fits), (tt, tt))))

perform_all-light_example :
    (t : Server) × (u : Server) × (p : Packet) × (perform_all x86 100 inputs started ≡ some t)
    × (messages 1 t ≡ some u)
    × Carries p 1 1 (codes "Light") (codes "  ON")
    × PushedTo t.sock p
        (codes "Light")
        (codes "  ON")
        (5 ∷ 0 ∷ [])
        (record t.host { calls = suc t.calls })
        u.host
    × (u.screen ≡ main)
unfolding observe_all of_code
perform_all-light_example =
    perform_all-light x86 100 (omega arith) inputs started started-IsFresh inputs-AllIntact refl

-- The user ends the program between the two subscriptions, and goes on typing; a third is not taken.
abbrev ending : List Input
ending =
    datagram (encode x86_padding to_gas.packet) to_gas
    ∷ typed 1
    ∷ typed 2
    ∷ typed 5
    ∷ typed 1
    ∷ woken
    ∷ datagram (encode x86_padding to_light.packet) to_light
    ∷ typed 7
    ∷ datagram (encode x86_padding to_gas.packet) to_gas
    ∷ []

ending-AllIntact : AllIntact x86 ending
unfolding encode decode
ending-AllIntact = (
  (refl, refl, to_gas-Fits),
  (
    tt,
    (tt, (tt, (tt, (tt, ((refl, refl, to_light-Fits), (tt, ((refl, refl, to_gas-Fits), tt))))))),
  ),
)

perform_all-Seen_example :
    (t : Server) × (perform_all x86 100 ending started ≡ some t)
    × Seen t (record {
      registry = record { holder = some (5 ∷ 0 ∷ []); topic = codes "Light" };
      screen = ended;
      launch = 1;
      listening = false;
    })
unfolding observe_all of_code
perform_all-Seen_example =
    perform_all-Seen x86 100 (omega arith) ending started started-IsFresh ending-AllIntact
