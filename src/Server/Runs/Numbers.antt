-- ===== src/Server/Runs/Numbers.antt =====
-- Numbers typed in a run of the control server, ControlServer/BrokerAndControlServer.c.
use embedded_project_exam.Base.{
  ℕ, ◌+◌, ◌<◌, ◌≡◌, refl, sym, ◌∙◌, ap, true, false, some, List, ◌++◌, length, ◌==◌, arith,
  if◌then◌else◌, ◌>>=◌, >>=-eq_some, Bool-cases, inl, inr, codes,
}
use mathlib.Core.Option.{some-injective}
use embedded_project_exam.CString.{lit, text}
use embedded_project_exam.Protocol.Wire.{Layout}
use embedded_project_exam.Host.Relay.{PushedTo-Same, Same-Ready}
use embedded_project_exam.Server.{Server, Screen, main, light, washer, ended}
use embedded_project_exam.Server.Menu.{
  at_menu, call_menu, call_light, call_washer, command, go_to, send_command_to_light,
  send_command_to_washer,
}
use embedded_project_exam.Server.Typed.{command-inv}
use embedded_project_exam.Server.Commands.{command-Commands}
use embedded_project_exam.Server.Runs.{View, next_screen, quits, Stands}

module _ (layout : Layout) (a : ℕ) where
  moved :
      (m : Screen) (s : Server) (v : View)
      → Stands layout a s v
      → Stands layout a (go_to m s) (record v { screen = m })
  moved m s v k = record {
    represents = k.represents;
    ready = k.ready;
    buffer_size = k.buffer_size;
    screen_eq = refl;
    launch_eq = k.launch_eq;
    listening_eq = k.listening_eq;
  }

  -- A command is pushed, and the menu is back at its start.
  command-Stands :
      (topicname value o w : List ℕ) (s : Server) (v : View)
      → Stands layout a s v
      → text topicname ≡ some o
      → text value ≡ some w
      → length o < 20
      → length w + 2 < 48
      → (t : Server) × ((command topicname value s >>= λ u. some (go_to main u)) ≡ some t)
        × Stands layout a t (record v { screen = main })
  command-Stands topicname value o w s v k ho hw lo lw =
      let (p, t, run, car, pushed, at_main) =
        command-Commands topicname value o w s k.ready ho hw lo lw in
      let (u, sent, back) = >>=-eq_some (command topicname value s) _ run in
      let (p', h, h', made, sent', after) = command-inv topicname value s u sent in
      let e : t ≡ go_to main (record s { host = h' }) =
        sym (some-injective _ _ back) ∙ ap (λ (w : Server). go_to main w) after in
      let same = PushedTo-Same s.sock p o (codes "  " ++ w) pushed in
      (
        t,
        run,
        record {
          represents = rw (same.memory_eq, same.topics_eq) k.represents;
          ready =
              Same-Ready _ t.host same (record { clean = k.ready.clean; named = k.ready.named });
          buffer_size = ap (λ (w : Server). length w.buffer) e ∙ k.buffer_size;
          screen_eq = at_main;
          launch_eq = ap (λ (w : Server). w.launch) e ∙ k.launch_eq;
          listening_eq = ap (λ (w : Server). w.listening) e ∙ k.listening_eq;
        },
      )

  -- A number that a menu does not take.
  asked :
      (m : Screen) (s : Server) (v : View)
      → v.screen ≡ m
      → Stands layout a s v
      → Stands layout a s (record v { screen = m })
  asked m s v e k = record {
    represents = k.represents;
    ready = k.ready;
    buffer_size = k.buffer_size;
    screen_eq = k.screen_eq ∙ e;
    launch_eq = k.launch_eq;
    listening_eq = k.listening_eq;
  }

  call_light-Stands :
      (n : ℕ) (s : Server) (v : View)
      → v.screen ≡ light
      → Stands layout a s v
      → (t : Server) × (call_light n s ≡ some t)
        × Stands layout a t (record v { screen = next_screen light n })
  unfolding call_light send_command_to_light text
  call_light-Stands n s v e k = elim (Bool-cases (n == 1)) [
    | inl one ↦
        rw one
          (command-Stands (lit "Light") (lit "ON") _ _ s v k refl refl (omega arith) (omega arith))
    | inr not_one ↦ elim (Bool-cases (n == 2)) [
      | inl two ↦
          rw (not_one, two)
            (command-Stands (lit "Light") (lit "OFF") _ _ s v k refl refl (omega arith)
              (omega arith))
      | inr not_two ↦ elim (Bool-cases (n == 3)) [
        | inl three ↦ rw (not_one, not_two, three) (go_to main s, refl, moved main s v k)
        | inr other ↦ rw (not_one, not_two, other) (s, refl, asked light s v e k)
      ]
    ]
  ]

  call_washer-Stands :
      (n : ℕ) (s : Server) (v : View)
      → v.screen ≡ washer
      → Stands layout a s v
      → (t : Server) × (call_washer n s ≡ some t)
        × Stands layout a t (record v { screen = next_screen washer n })
  unfolding call_washer send_command_to_washer text
  call_washer-Stands n s v e k = elim (Bool-cases (n == 1)) [
    | inl one ↦
        rw one
          (command-Stands (lit "Washer") (lit "ON") _ _ s v k refl refl (omega arith) (omega arith))
    | inr not_one ↦ elim (Bool-cases (n == 2)) [
      | inl two ↦
          rw (not_one, two)
            (command-Stands (lit "Washer") (lit "OFF") _ _ s v k refl refl (omega arith)
              (omega arith))
      | inr not_two ↦ elim (Bool-cases (n == 3)) [
        | inl three ↦ rw (not_one, not_two, three) (go_to main s, refl, moved main s v k)
        | inr other ↦ rw (not_one, not_two, other) (s, refl, asked washer s v e k)
      ]
    ]
  ]

  no_quit : (n : ℕ) → (n == 1) ≡ true → (n == 5) ≡ false
  no_quit n e = ground arith

  no_quit_two : (n : ℕ) → (n == 2) ≡ true → (n == 5) ≡ false
  no_quit_two n e = ground arith

  call_menu-Stands :
      (n : ℕ) (s : Server) (v : View)
      → v.screen ≡ main
      → Stands layout a s v
      → Stands layout a
          (call_menu n s)
          (record v { screen = next_screen main n; launch = if quits main n then 1 else v.launch })
  unfolding call_menu
  call_menu-Stands n s v e k = elim (Bool-cases (n == 1)) [
    | inl one ↦ rw (one, no_quit n one) (moved light s v k)
    | inr not_one ↦ elim (Bool-cases (n == 2)) [
      | inl two ↦ rw (not_one, two, no_quit_two n two) (moved washer s v k)
      | inr not_two ↦ elim (Bool-cases (n == 5)) [
        | inl five ↦
            rw (not_one, not_two, five)
              (record {
                represents = k.represents;
                ready = k.ready;
                buffer_size = k.buffer_size;
                screen_eq = refl;
                launch_eq = refl;
                listening_eq = k.listening_eq;
              })
        | inr other ↦ rw (not_one, not_two, other) (asked main s v e k)
      ]
    ]
  ]

  pub typed-Stands :
      (m : Screen) (n : ℕ) (s : Server) (v : View)
      → v.screen ≡ m
      → Stands layout a s v
      → (t : Server) × (at_menu m n s ≡ some t)
        × Stands layout a t
            (record v { screen = next_screen m n; launch = if quits m n then 1 else v.launch })
  typed-Stands main n s v e k = (call_menu n s, refl, call_menu-Stands n s v e k)
  typed-Stands light n s v e k = call_light-Stands n s v e k
  typed-Stands washer n s v e k = call_washer-Stands n s v e k
  typed-Stands ended n s v e k = (s, refl, asked ended s v e k)
