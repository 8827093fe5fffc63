-- ===== src/Server/Commands.antt =====
-- The commands of ControlServer/BrokerAndControlServer.c, and where they go.
use embedded_project_exam.Base.{
  ℕ, suc, ◌<◌, ◌+◌, ◌≡◌, refl, sym, subst, Option, some, List, [], ◌++◌, arith, length, take, ◌>>=◌,
  codes,
}
use embedded_project_exam.CString.{lit, text}
use embedded_project_exam.Protocol.{Packet}
use embedded_project_exam.Protocol.Create.Laws.{Carries, create_packet-Carries}
use embedded_project_exam.Topics.Spec.{recipients}
use embedded_project_exam.Host.{make}
use embedded_project_exam.Host.Relay.{Ready, Fits, PushedTo, publish_to-recipients}
use embedded_project_exam.Server.{Server, Screen, main, light, washer}
use embedded_project_exam.Server.Menu.{
  command, messages, call_light, call_washer, send_command_to_light, send_command_to_washer, go_to,
  at_menu,
}

-- A reliable publication of `v` on the topic `o`, pushed in order to the topic's recipients in all eleven
-- slots; the menu is back at its start.
abbrev pub Commands : Option Server → List ℕ → List ℕ → Server → Type 0
Commands r o v s =
    (p : Packet) × (t : Server) × (r ≡ some t)
    × Carries p 1 1 o (codes "  " ++ v)
    × PushedTo s.sock p o (codes "  " ++ v) (recipients s.memory o (take 11 s.topics))
        (record s.host { calls = suc s.calls }) t.host
    × (t.screen ≡ main)

-- Any command that fits is published, and the menu is back at its start.
pub command-Commands :
    (topicname value o v : List ℕ) (s : Server)
    → Ready s.host
    → text topicname ≡ some o
    → text value ≡ some v
    → length o < 20
    → length v + 2 < 48
    → Commands (command topicname value s >>= λ t. some (go_to main t)) o v s
unfolding command make
command-Commands topicname value o v s h ho hv lo lv =
    let (p, made, c) =
      create_packet-Carries (s.locals s.calls) 1 1 topicname value [] o v (h.clean s.calls) ho hv lo
        (omega arith) in
    let ready : Ready (record s.host { calls = suc s.calls }) = record {
      clean = h.clean;
      named = h.named;
    } in
    let fit : Fits p o (codes "  " ++ v) = record {
      option_text = c.option_stored.content;
      payload_text = c.payload_stored.content;
      option_fits = lo;
      payload_fits = omega arith;
    } in
    let (h', sent, pushed) = publish_to-recipients p s.sock o (codes "  " ++ v) fit _ ready in
    (p, go_to main (record s { host = h' }), ground (arith, made, sent), c, pushed, refl)

-- In the menu of the lamps, from a state as handleMessage needs it, the numbers 1 and 2 publish
-- the texts ON and OFF on the topic Light reliably, two spaces put before them twice, to the
-- addresses of all slots among the first eleven whose name reads Light, in their order, and lead
-- back to the main menu.
pub light-Commands :
    (s : Server)
    → Ready s.host
    → s.screen ≡ light
    → Commands (messages 1 s) (codes "Light") (codes "ON") s
      × Commands (messages 2 s) (codes "Light") (codes "OFF") s
unfolding messages call_light send_command_to_light text
light-Commands s h e =
    subst
      (λ (m : Screen).
        Commands (at_menu m 1 s) (codes "Light") (codes "ON") s
        × Commands (at_menu m 2 s) (codes "Light") (codes "OFF") s)
      (sym e)
      (
        command-Commands (lit "Light") (lit "ON") _ _ s h refl refl (omega arith) (omega arith),
        command-Commands (lit "Light") (lit "OFF") _ _ s h refl refl (omega arith) (omega arith),
      )

-- In the menu of the washing machine, from a state as handleMessage needs it, the numbers 1 and 2
-- publish the texts ON and OFF on the topic Washer reliably, two spaces put before them twice, to
-- the addresses of all slots among the first eleven whose name reads Washer, in their order, and
-- lead back to the main menu.
pub washer-Commands :
    (s : Server)
    → Ready s.host
    → s.screen ≡ washer
    → Commands (messages 1 s) (codes "Washer") (codes "ON") s
      × Commands (messages 2 s) (codes "Washer") (codes "OFF") s
unfolding messages call_washer send_command_to_washer text
washer-Commands s h e =
    subst
      (λ (m : Screen).
        Commands (at_menu m 1 s) (codes "Washer") (codes "ON") s
        × Commands (at_menu m 2 s) (codes "Washer") (codes "OFF") s)
      (sym e)
      (
        command-Commands (lit "Washer") (lit "ON") _ _ s h refl refl (omega arith) (omega arith),
        command-Commands (lit "Washer") (lit "OFF") _ _ s h refl refl (omega arith) (omega arith),
      )
