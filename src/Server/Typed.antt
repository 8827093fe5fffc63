-- ===== src/Server/Typed.antt =====
-- ControlServer/BrokerAndControlServer.c: what a number typed into the menu can do, and what the receiving
-- thread can do, as cases.
use embedded_project_exam.Base.{
  ℕ, ◌≡◌, ◌≢◌, refl, sym, inl, inr, Bool, true, false, some, List, arith, ◌==◌, if◌then◌else◌,
  ◌>>=◌, >>=-eq_some, Bool-cases,
}
use mathlib.Core.Option.{some-injective}
use embedded_project_exam.CString.{lit}
use embedded_project_exam.Protocol.{Packet}
use embedded_project_exam.Protocol.Wire.{Layout, decode}
use embedded_project_exam.Topics.{Frame}
use embedded_project_exam.Host.{Host, make}
use embedded_project_exam.Host.Handle.{handle_message, publish_to}
use embedded_project_exam.Server.{Server, Screen, main, light, washer, ended}
use embedded_project_exam.Server.Menu.{
  command, messages, call_light, call_washer, call_menu, send_command_to_light,
  send_command_to_washer, at_menu, go_to,
}
use embedded_project_exam.Server.Receive.{recvfrom, receive_round, receive_udp}

-- A number is a choice of the main menu, is asked for again, goes back to the main menu, or sends a
-- command and goes back.
pub data Typed (n : ℕ) (s t : Server) : Type 0 where
  at_main : s.screen ≡ main → t ≡ call_menu n s → Typed n s t
  again : t ≡ s → Typed n s t
  back : s.screen ≢ ended → t ≡ go_to main s → Typed n s t
  commands :
      s.screen ≢ ended
      → (topicname value : List ℕ) (u : Server) → command topicname value s ≡ some u
      → t ≡ go_to main u
      → Typed n s t

then_main :
    (n : ℕ) (s t : Server) (topicname value : List ℕ)
    → s.screen ≢ ended
    → (command topicname value s >>= λ u. some (go_to main u)) ≡ some t
    → Typed n s t
then_main n s t topicname value open_ e =
    let (u, sent, moved) = >>=-eq_some (command topicname value s) _ e in
    commands open_ topicname value u sent (sym (some-injective _ _ moved))

ask :
    (n : ℕ) (s t : Server) (b : Bool)
    → s.screen ≢ ended
    → (if b then some (go_to main s) else some s) ≡ some t
    → Typed n s t
ask n s t true open_ e = back open_ (sym (some-injective _ _ e))
ask n s t false open_ e = again (sym (some-injective _ _ e))

call_light-Typed : (n : ℕ) (s t : Server) → s.screen ≢ ended → call_light n s ≡ some t → Typed n s t
unfolding call_light send_command_to_light
call_light-Typed n s t open_ e = elim (Bool-cases (n == 1)) [
  | inl on ↦ then_main n s t (lit "Light") (lit "ON") open_ (rw on at e)
  | inr not_on ↦ elim (Bool-cases (n == 2)) [
    | inl off ↦ then_main n s t (lit "Light") (lit "OFF") open_ (rw (not_on, off) at e)
    | inr not_off ↦ ask n s t (n == 3) open_ (rw (not_on, not_off) at e)
  ]
]

call_washer-Typed :
    (n : ℕ) (s t : Server) → s.screen ≢ ended → call_washer n s ≡ some t → Typed n s t
unfolding call_washer send_command_to_washer
call_washer-Typed n s t open_ e = elim (Bool-cases (n == 1)) [
  | inl on ↦ then_main n s t (lit "Washer") (lit "ON") open_ (rw on at e)
  | inr not_on ↦ elim (Bool-cases (n == 2)) [
    | inl off ↦ then_main n s t (lit "Washer") (lit "OFF") open_ (rw (not_on, off) at e)
    | inr not_off ↦ ask n s t (n == 3) open_ (rw (not_on, not_off) at e)
  ]
]

at_menu-Typed :
    (m : Screen) (n : ℕ) (s t : Server) → s.screen ≡ m → at_menu m n s ≡ some t → Typed n s t
at_menu-Typed main n s t m e = at_main m (sym (some-injective _ _ e))
at_menu-Typed light n s t m e = call_light-Typed n s t (λ k. absurd (cc)) e
at_menu-Typed washer n s t m e = call_washer-Typed n s t (λ k. absurd (cc)) e
at_menu-Typed ended n s t m e = again (sym (some-injective _ _ e))

pub messages-Typed : (n : ℕ) (s t : Server) → messages n s ≡ some t → Typed n s t
unfolding messages
messages-Typed n s t e = at_menu-Typed s.screen n s t refl e

-- What a command does: a packet is made, and publishTo sends it.
pub command-inv :
    (topicname value : List ℕ) (s u : Server)
    → command topicname value s ≡ some u
    → (p : Packet) × (h h' : Host) × (make 1 1 topicname value s.host ≡ some (p, h))
      × (publish_to p s.sock h ≡ some h')
      × (u ≡ record s { host = h' })
unfolding command
command-inv topicname value s u e =
    let ((p, h), made, rest) = >>=-eq_some (make 1 1 topicname value s.host) _ e in
    let (h', sent, done) = >>=-eq_some (publish_to p s.sock h) _ rest in
    (p, h, h', made, sent, sym (some-injective _ _ done))

-- What a datagram does while the loop of receiveUDP runs.
pub record Received (layout : Layout) (datagram : List ℕ) (from : ℕ) (f : Frame) (s t : Server)
    : Type 0 where
  pub buffer' : List ℕ
  pub packet : Packet
  pub host' : Host
  pub filled : recvfrom s.buffer datagram ≡ some buffer'
  pub read : decode layout buffer' ≡ some packet
  pub handled : handle_message packet s.sock from f s.host ≡ some host'
  pub after :
      t ≡ record s { host = host'; buffer = buffer'; sin6 = from; listening = s.launch == 0 }

pub receive_udp-Received :
    (layout : Layout) (datagram : List ℕ) (from : ℕ) (f : Frame) (s t : Server)
    → receive_udp layout datagram from f s ≡ some t
    → s.listening ≡ true
    → Received layout datagram from f s t
unfolding receive_udp receive_round
receive_udp-Received layout datagram from f s t e l =
    let (b, filled, rest) = >>=-eq_some (recvfrom s.buffer datagram) _ (rw l at e) in
    let (p, read, rest') = >>=-eq_some (decode layout b) _ rest in
    let (h, handled, done) = >>=-eq_some (handle_message p s.sock from f s.host) _ rest' in
    record {
      buffer' = b;
      packet = p;
      host' = h;
      filled = filled;
      read = read;
      handled = handled;
      after = sym (some-injective _ _ done);
    }

-- Once the loop has ended a datagram does nothing.
pub receive_udp-closed :
    (layout : Layout) (datagram : List ℕ) (from : ℕ) (f : Frame) (s : Server)
    → s.listening ≡ false
    → receive_udp layout datagram from f s ≡ some s
unfolding receive_udp
receive_udp-closed layout datagram from f s l = ground arith
