-- ===== src/Server/Runs.antt =====
-- The control server as a whole, ControlServer/BrokerAndControlServer.c: datagrams, numbers typed and wakings of the
-- acknowledgement threads in any order, against what the user and the motes see of it.
pub mod Messages
pub mod Numbers
pub mod Laws
use embedded_project_exam.Base.{
  ℕ, suc, ◌≤◌, ◌≡◌, refl, sym, ◌∙◌, ap, subst, Bool, true, false, ◌||◌, Option, none, some, List,
  [], ◌∷◌, ◌++◌, length, drop, take, ◌==◌, arith, if◌then◌else◌, ◌>>=◌, >>=-eq_some, Bool-cases,
  inl, inr, codes,
}
use mathlib.Core.List.{append-nil}
use embedded_project_exam.CString.{lit, text}
use embedded_project_exam.Protocol.Wire.{Layout, decode}
use embedded_project_exam.Topics.{Frame}
use embedded_project_exam.Host.{Host}
use embedded_project_exam.Host.Threads.{thread_ack_wakes}
use embedded_project_exam.Host.Handle.{handle_message}
use embedded_project_exam.Host.Relay.{Ready, Fits}
use embedded_project_exam.Host.Registry.{Registry, nobody, targets}
use embedded_project_exam.Topics.Spec.{AreFree, has_free, recipients}
use embedded_project_exam.Host.Runs.{Arrival, note, Represents, handle_message-Represents}
use embedded_project_exam.Server.{Server, Screen, main, light, washer, ended}
use embedded_project_exam.Server.Menu.{
  messages, at_menu, call_menu, call_light, call_washer, command, go_to,
}
use embedded_project_exam.Server.Receive.{recvfrom, receive_round, receive_udp, maxline}

-- A datagram with the message that its bytes are, a number, or a thread that wakes.
pub data Input : Type 0 where
  datagram : List ℕ → Arrival → Input
  typed : ℕ → Input
  woken : Input

-- One step of one thread, each message at the address `a`.
unfoldable pub perform : Layout → ℕ → Input → Server → Option Server
perform layout a (datagram bytes x) s =
    receive_udp layout bytes x.sender (record { at = a; tp = x.tp }) s
perform layout a (typed n) s = messages n s
perform layout a woken s = some (record s { host = thread_ack_wakes s.host })

unfoldable pub perform_all : Layout → ℕ → List Input → Server → Option Server
perform_all layout a [] s = some s
perform_all layout a (i ∷ is) s = perform layout a i s >>= perform_all layout a is

-- The bytes are a struct of the server's layout that holds the message, on texts that fit.
abbrev pub IsIntact : Layout → Input → Type 0
IsIntact layout (datagram bytes x) =
    (decode layout bytes ≡ some x.packet)
    × (length bytes ≡ layout.size)
    × Fits x.packet x.option_text x.payload_text
IsIntact layout _ = Unit {0}

abbrev pub AllIntact : Layout → List Input → Type 0
AllIntact layout [] = Unit {0}
AllIntact layout (i ∷ is) = IsIntact layout i × AllIntact layout is

-- What is seen of the server.
pub record View : Type 0 where
  pub registry : Registry
  pub screen : Screen
  pub launch : ℕ
  pub listening : Bool

abbrev pub next_screen : Screen → ℕ → Screen
next_screen main n =
    if n == 1 then light else if n == 2 then washer else if n == 5 then ended else main
next_screen light n = if n == 1 || n == 2 || n == 3 then main else light
next_screen washer n = if n == 1 || n == 2 || n == 3 then main else washer
next_screen ended n = ended

abbrev pub quits : Screen → ℕ → Bool
quits main n = n == 5
quits _ n = false

-- A message is noted while the server listens, and the last one after the user has ended it.
abbrev pub observe : Input → View → View
observe (datagram bytes x) v =
    if v.listening then record v { registry = note x v.registry; listening = v.launch == 0 } else v
observe (typed n) v = record v {
  screen = next_screen v.screen n;
  launch = if quits v.screen n then 1 else v.launch;
}
observe woken v = v

unfoldable pub observe_all : List Input → View → View
observe_all [] v = v
observe_all (i ∷ is) v = observe_all is (observe i v)

-- The server is as the view says, and fit for the next input.
pub record Stands (layout : Layout) (a : ℕ) (s : Server) (v : View) : Type 0 where
  pub represents : Represents a s.host v.registry
  pub ready : Ready s.host
  pub buffer_size : length s.buffer ≡ layout.size
  pub screen_eq : s.screen ≡ v.screen
  pub launch_eq : s.launch ≡ v.launch
  pub listening_eq : s.listening ≡ v.listening

-- The server as it starts, with the view of it: nobody has subscribed.
pub record IsFresh (layout : Layout) (s : Server) : Type 0 where
  pub free : AreFree s.topics
  pub some_free : has_free s.topics ≡ true
  pub ready : Ready s.host
  pub buffer_size : length s.buffer ≡ layout.size

abbrev pub view : Server → View
view s = record { registry = nobody; screen = s.screen; launch = s.launch; listening = s.listening }

-- What the view says of the server: its screen, whether it was ended, whether it still listens, and where a
-- command on any topic goes.
pub record Seen (s : Server) (v : View) : Type 0 where
  pub screen_eq : s.screen ≡ v.screen
  pub launch_eq : s.launch ≡ v.launch
  pub listening_eq : s.listening ≡ v.listening
  pub delivers : (q : List ℕ) → recipients s.memory q (take 11 s.topics) ≡ targets v.registry q
