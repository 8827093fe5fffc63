-- ===== src/Device/Sends.antt =====
-- What each message function of SBVK.c puts on the network.
use embedded_project_exam.Base.{
  ℕ, suc, ◌⊎◌, ◌+◌, ◌%◌, ◌≤◌, ◌<◌, ◌≡◌, refl, Bool, true, false, Option, none, some, List, [], ◌∷◌,
  ◌++◌, arith, length, if◌then◌else◌, codes,
}
use embedded_project_exam.CString.{lit, text}
use embedded_project_exam.Protocol.{Packet}
use embedded_project_exam.Protocol.Create.Laws.{
  Holds, Carries, create_packet-Carries, create_packet-overflow,
}
use embedded_project_exam.Device.{Device, make, emit, send_packet}
use embedded_project_exam.Device.Messages.{
  hello, connect, conn_ack, disconnect, subscribe, sub_ack, publish, pub_ack, push, push_ack,
  pingreq, pingresp,
}

-- The state after one packet went out.
abbrev pub sent_by : Packet → ℕ → ℕ → Device → Device
sent_by p conn dest s = send_packet p conn dest (record s { calls = suc s.calls })

-- The outcome is that a packet of this content was sent; `junk` is what the stack put in front.
abbrev pub Emits : Option Device → Device → ℕ → ℕ → ℕ → ℕ → List ℕ → List ℕ → Type 0
Emits r s conn dest mst rel o v =
    (p : Packet) × (r ≡ some (sent_by p conn dest s)) × Carries p mst rel o v

-- Every call of createPacket finds `modifPayload` empty.
abbrev pub IsClean : Device → Type 0
IsClean s = (n : ℕ) → Holds (s.locals n) []

-- A message that fits is sent, its payload behind the text that the stack held and two spaces.
pub emit-Emits :
    (mst rel : ℕ) (option payload : List ℕ) (conn dest : ℕ) (s : Device) (junk o v : List ℕ)
    → Holds (s.locals s.calls) junk
    → text option ≡ some o
    → text payload ≡ some v
    → length o < 20
    → length junk + 2 + length v < 50
    → Emits
        (emit mst rel option payload conn dest s)
        s
        conn
        dest
        (mst % 16)
        (rel % 2)
        o
        ((junk ++ 32 ∷ 32 ∷ []) ++ v)
unfolding emit
emit-Emits mst rel option payload conn dest s junk o v h ho hv lo lv =
    let (p, e, c) =
      create_packet-Carries (s.locals s.calls) mst rel option payload junk o v h ho hv lo lv in
    (p, rw (emit, make, e), c)

-- A message that does not fit runs off an array.
pub emit-overflow :
    (mst rel : ℕ) (option payload : List ℕ) (conn dest : ℕ) (s : Device) (junk o v : List ℕ)
    → Holds (s.locals s.calls) junk
    → text option ≡ some o
    → text payload ≡ some v
    → (20 ≤ length o) ⊎ (50 ≤ length junk + 2 + length v)
    → emit mst rel option payload conn dest s ≡ none
unfolding emit
emit-overflow mst rel option payload conn dest s junk o v h ho hv over =
    let e =
      create_packet-overflow (s.locals s.calls) mst rel option payload junk o v h ho hv over in
    rw (emit, make, e)

-- The messages of fixed content.
module _ (conn dest : ℕ) (s : Device) (clean : IsClean s) where
  pub hello_init-Emits :
      Emits (hello conn dest true s) s conn dest 0 0 (codes "init") (codes "  123456789100000000")
  unfolding hello text
  hello_init-Emits =
      emit-Emits 0 0 (lit "init") (lit "123456789100000000") conn dest s [] _ _ (clean s.calls) refl
        refl (omega arith) (omega arith)

  pub hello_response-Emits :
      Emits (hello conn dest false s) s conn dest 0 0 (codes "response") (codes "  testpayload")
  unfolding hello text
  hello_response-Emits =
      emit-Emits 0 0 (lit "response") (lit "testpayload") conn dest s [] _ _ (clean s.calls) refl
        refl (omega arith) (omega arith)

  pub connect-Emits :
      Emits (connect conn dest s) s conn dest 6 1 (codes "CONNECT") (codes "  testpayload")
  unfolding connect text
  connect-Emits =
      emit-Emits 6 1 (lit "CONNECT") (lit "testpayload") conn dest s [] _ _ (clean s.calls) refl
        refl (omega arith) (omega arith)

  pub conn_ack-Emits :
      Emits (conn_ack conn dest s) s conn dest 7 0 (codes "CONNACK") (codes "  testpayload")
  unfolding conn_ack text
  conn_ack-Emits =
      emit-Emits 7 0 (lit "CONNACK") (lit "testpayload") conn dest s [] _ _ (clean s.calls) refl
        refl (omega arith) (omega arith)

  pub disconnect-Emits :
      Emits (disconnect conn dest s) s conn dest 5 0 (codes "DISCONNECT") (codes "  testpayload")
  unfolding disconnect text
  disconnect-Emits =
      emit-Emits 5 0 (lit "DISCONNECT") (lit "testpayload") conn dest s [] _ _ (clean s.calls) refl
        refl (omega arith) (omega arith)

  pub sub_ack-Emits : Emits (sub_ack conn dest s) s conn dest 4 0 (codes "") (codes "  ")
  unfolding sub_ack text
  sub_ack-Emits =
      emit-Emits 4 0 (lit "") (lit "") conn dest s [] _ _ (clean s.calls) refl refl (omega arith)
        (omega arith)

  pub pub_ack-Emits : Emits (pub_ack conn dest s) s conn dest 2 0 (codes "") (codes "  ")
  unfolding pub_ack text
  pub_ack-Emits =
      emit-Emits 2 0 (lit "") (lit "") conn dest s [] _ _ (clean s.calls) refl refl (omega arith)
        (omega arith)

  pub push_ack-Emits : Emits (push_ack conn dest s) s conn dest 13 0 (codes "") (codes "  ")
  unfolding push_ack text
  push_ack-Emits =
      emit-Emits 13 0 (lit "") (lit "") conn dest s [] _ _ (clean s.calls) refl refl (omega arith)
        (omega arith)

  pub pingreq-Emits :
      Emits (pingreq conn dest s) s conn dest 10 0 (codes "PINGREQ") (codes "  testPayload")
  unfolding pingreq text
  pingreq-Emits =
      emit-Emits 10 0 (lit "PINGREQ") (lit "testPayload") conn dest s [] _ _ (clean s.calls) refl
        refl (omega arith) (omega arith)

  pub pingresp-Emits :
      Emits
        (pingresp conn dest s)
        s
        conn
        dest
        11
        0
        (codes "PINGRESP")
        (codes "  pingRespTestPayload")
  unfolding pingresp text
  pingresp-Emits =
      emit-Emits 11 0 (lit "PINGRESP") (lit "pingRespTestPayload") conn dest s [] _ _
        (clean s.calls) refl refl (omega arith) (omega arith)

abbrev pub flag : Bool → ℕ
flag command = if command then 1 else 0

-- The messages that carry a topic and a value of the caller.
module _ (conn dest : ℕ) (s : Device) (clean : IsClean s) where
  pub subscribe-Emits :
      (topicname o : List ℕ)
      → text topicname ≡ some o
      → length o < 20
      → Emits (subscribe conn dest topicname s) s conn dest 3 1 o (codes "  ")
  unfolding subscribe text
  subscribe-Emits topicname o ho lo =
      emit-Emits 3 1 topicname (lit "") conn dest s [] o [] (clean s.calls) ho refl lo (omega arith)

  pub publish-Emits :
      (command : Bool) (topicname value o v : List ℕ)
      → text topicname ≡ some o
      → text value ≡ some v
      → length o < 20
      → length v < 48
      → Emits
          (publish conn dest command topicname value s)
          s
          conn
          dest
          1
          (flag command)
          o
          (codes "  " ++ v)
  unfolding publish
  publish-Emits true topicname value o v ho hv lo lv =
      emit-Emits 1 1 topicname value conn dest s [] o v (clean s.calls) ho hv lo (omega arith)
  publish-Emits false topicname value o v ho hv lo lv =
      emit-Emits 1 0 topicname value conn dest s [] o v (clean s.calls) ho hv lo (omega arith)

  -- push of SBVK.c, in a state with an empty modifPayload at every call, sends one PUSH to the
  -- address given, reliably exactly if it is a command, with the topic and, behind two spaces, the
  -- value, for texts of at most 19 and 47 bytes.
  pub push-Emits :
      (command : Bool) (topicname value o v : List ℕ)
      → text topicname ≡ some o
      → text value ≡ some v
      → length o < 20
      → length v < 48
      → Emits
          (push conn dest command topicname value s)
          s
          conn
          dest
          12
          (flag command)
          o
          (codes "  " ++ v)
  unfolding push
  push-Emits true topicname value o v ho hv lo lv =
      emit-Emits 12 1 topicname value conn dest s [] o v (clean s.calls) ho hv lo (omega arith)
  push-Emits false topicname value o v ho hv lo lv =
      emit-Emits 12 0 topicname value conn dest s [] o v (clean s.calls) ho hv lo (omega arith)
