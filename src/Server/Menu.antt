-- ===== src/Server/Menu.antt =====
-- ControlServer/BrokerAndControlServer.c: messages, callMenu, callLight, callWasher and the commands.
-- Each function takes the number that scanf reads; one that is not in the menu asks again.
use embedded_project_exam.Base.{ℕ, Option, some, List, ◌==◌, if◌then◌else◌, ◌>>=◌}
use embedded_project_exam.CString.{lit}
use embedded_project_exam.Protocol.{MessageType, Qos, code, qos}
use embedded_project_exam.Host.{make}
use embedded_project_exam.Host.Handle.{publish_to}
use embedded_project_exam.Server.{Server, Screen, main, light, washer, ended}

-- A reliable publication of a command, through publishTo.
unfoldable pub command : List ℕ → List ℕ → Server → Option Server
command topicname value s = do
  (p, h) ← make (code MessageType.publish) (qos Qos.reliable) topicname value s.host
  h' ← publish_to p s.sock h
  some (record s { host = h' })

unfoldable pub send_command_to_light : ℕ → Server → Option Server
unfolding command
send_command_to_light result s =
    if result == 1
    then command (lit "Light") (lit "ON") s
    else if result == 2
    then command (lit "Light") (lit "OFF") s
    else some s

unfoldable pub send_command_to_washer : ℕ → Server → Option Server
unfolding command
send_command_to_washer result s =
    if result == 1
    then command (lit "Washer") (lit "ON") s
    else if result == 2
    then command (lit "Washer") (lit "OFF") s
    else some s

abbrev pub go_to : Screen → Server → Server
go_to m s = record s { screen = m }

-- One round of callLight.
unfoldable pub call_light : ℕ → Server → Option Server
unfolding send_command_to_light
call_light result s =
    if result == 1
    then (send_command_to_light result s >>= λ t. some (go_to main t))
    else if result == 2
    then (send_command_to_light result s >>= λ t. some (go_to main t))
    else if result == 3
    then some (go_to main s)
    else some s

-- One round of callWasher.
unfoldable pub call_washer : ℕ → Server → Option Server
unfolding send_command_to_washer
call_washer result s =
    if result == 1
    then (send_command_to_washer result s >>= λ t. some (go_to main t))
    else if result == 2
    then (send_command_to_washer result s >>= λ t. some (go_to main t))
    else if result == 3
    then some (go_to main s)
    else some s

-- One round of `messages`. callGazSensor and callAlarm only print.
unfoldable pub call_menu : ℕ → Server → Server
call_menu response s =
    if response == 1
    then go_to light s
    else if response == 2
    then go_to washer s
    else if response == 5
    then record s { launch = 1; screen = ended }
    else s

abbrev pub at_menu : Screen → ℕ → Server → Option Server
at_menu main n s = some (call_menu n s)
at_menu light n s = call_light n s
at_menu washer n s = call_washer n s
at_menu ended n s = some s

-- The menu thread when the user types a number.
unfoldable pub messages : ℕ → Server → Option Server
unfolding call_menu call_light call_washer
messages n s = at_menu s.screen n s
