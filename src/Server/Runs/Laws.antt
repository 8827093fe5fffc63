-- ===== src/Server/Runs/Laws.antt =====
-- A run of the control server, ControlServer/BrokerAndControlServer.c, never faults on intact messages, and is
-- as its view says.
use embedded_project_exam.Base.{ℕ, suc, ◌≤◌, ◌≡◌, refl, sym, ◌∙◌, subst, some, List, [], ◌∷◌, codes}
use embedded_project_exam.Protocol.{Packet}
use embedded_project_exam.Protocol.Create.Laws.{Carries}
use embedded_project_exam.Protocol.Wire.{Layout}
use embedded_project_exam.Host.Relay.{PushedTo}
use embedded_project_exam.Host.Registry.{targets, Shows-recipients}
use embedded_project_exam.Server.{Server, Screen, main, light}
use embedded_project_exam.Server.Menu.{messages, at_menu}
use embedded_project_exam.Server.Receive.{maxline}
use embedded_project_exam.Server.Commands.{light-Commands}
use embedded_project_exam.Server.Runs.{
  Input, datagram, typed, woken, perform, perform_all, IsIntact, AllIntact, View, observe,
  observe_all, Stands, Seen, IsFresh, view,
}
use embedded_project_exam.Server.Runs.Messages.{datagram-Stands, woken-Stands}
use embedded_project_exam.Server.Runs.Numbers.{typed-Stands}

module _ (layout : Layout) (a : ℕ) (line : layout.size ≤ maxline) where
  perform-Stands :
      (i : Input) (s : Server) (v : View)
      → IsIntact layout i
      → Stands layout a s v
      → (t : Server) × (perform layout a i s ≡ some t) × Stands layout a t (observe i v)
  unfolding perform messages
  perform-Stands (datagram bytes x) s v intact k =
      datagram-Stands layout a line bytes x s v intact k
  perform-Stands (typed n) s v intact k =
      subst
        (λ (m : Screen).
          (t : Server) × (at_menu m n s ≡ some t) × Stands layout a t (observe (typed n) v))
        (sym k.screen_eq) (typed-Stands layout a v.screen n s v refl k)
  perform-Stands woken s v intact k = (_, refl, woken-Stands layout a s v k)

  pub perform_all-Stands :
      (is : List Input) (s : Server) (v : View)
      → AllIntact layout is
      → Stands layout a s v
      → (t : Server) × (perform_all layout a is s ≡ some t) × Stands layout a t (observe_all is v)
  unfolding perform_all observe_all
  perform_all-Stands [] s v intact k = (s, refl, k)
  perform_all-Stands (i ∷ is) s v intact k =
      let (u, first, k') = perform-Stands i s v intact.0 k in
      let (t, rest, k'') = perform_all-Stands is u (observe i v) intact.1 k' in
      (t, rw first rest, k'')

  started-Stands : (s : Server) → IsFresh layout s → Stands layout a s (view s)
  started-Stands s fresh = record {
    represents = (fresh.free, fresh.some_free);
    ready = fresh.ready;
    buffer_size = fresh.buffer_size;
    screen_eq = refl;
    launch_eq = refl;
    listening_eq = refl;
  }

  -- From its start (an empty table with a free slot, the eleventh slot, past the declared array,
  -- taken as storage like the others; a state as handleMessage needs it, a buffer of the size of
  -- the struct, at most MAXLINE), on any sequence of datagrams of its struct with texts that fit,
  -- numbers typed and wakings of threadAck, each message in the one frame at address a, a control
  -- server never faults, also not after the user has ended the program, and at the end the
  -- following is as the inputs alone say: the screen, which the numbers move through the menus
  -- until the end of the program and not any more after it; whether the program was ended; whether
  -- the server still listens, which it does until the first datagram after the end of the program,
  -- that one included; and for every topic the addresses in the eleven slots that publishTo
  -- visits, which are those of the first subscription that was taken while the server listened if
  -- the last message so taken was on that topic, and else none.
  pub perform_all-Seen :
      (is : List Input) (s : Server)
      → IsFresh layout s
      → AllIntact layout is
      → (t : Server) × (perform_all layout a is s ≡ some t) × Seen t (observe_all is (view s))
  perform_all-Seen is s fresh intact =
      let v = observe_all is (view s) in
      let (t, run, k) = perform_all-Stands is s (view s) intact (started-Stands s fresh) in
      (
        t,
        run,
        record {
          screen_eq = k.screen_eq;
          launch_eq = k.launch_eq;
          listening_eq = k.listening_eq;
          delivers = λ q.
              Shows-recipients a t.memory t.topics v.registry.holder v.registry.topic 10 q
                k.represents;
        },
      )

  -- From its start (an empty table with a free slot, the eleventh slot, past the declared array,
  -- taken as storage like the others; a state as handleMessage needs it, a buffer of the size of
  -- the struct, at most MAXLINE), on any sequence of datagrams of its struct with texts that fit,
  -- numbers typed and wakings of threadAck, each message in the one frame at address a, after
  -- which by the inputs alone the menu of the lamps is open (so the user has not ended the
  -- program), a control server that has run without a fault sends ON at the number 1, reliably, on
  -- the topic Light, to the addresses of the first subscription, whatever its topic was, if the
  -- last message taken was on Light, and else to nobody, and goes back to the main menu.
  pub perform_all-light :
      (is : List Input) (s : Server)
      → IsFresh layout s
      → AllIntact layout is
      → (observe_all is (view s)).screen ≡ light
      → (t : Server) × (u : Server) × (p : Packet) × (perform_all layout a is s ≡ some t)
        × (messages 1 t ≡ some u)
        × Carries p 1 1 (codes "Light") (codes "  ON")
        × PushedTo t.sock p
            (codes "Light")
            (codes "  ON")
            (targets (observe_all is (view s)).registry (codes "Light"))
            (record t.host { calls = suc t.calls })
            u.host
        × (u.screen ≡ main)
  perform_all-light is s fresh intact at =
      let v = observe_all is (view s) in
      let (t, run, k) = perform_all-Stands is s (view s) intact (started-Stands s fresh) in
      let ((p, u, sent, car, pushed, back), _) = light-Commands t k.ready (k.screen_eq ∙ at) in
      let reached =
        Shows-recipients a t.memory t.topics v.registry.holder v.registry.topic 10 (codes "Light")
          k.represents in
      (t, u, p, run, sent, car, rw reached at pushed, back)
