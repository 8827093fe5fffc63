-- ===== src/Host/Sends.antt =====
-- What each message function of ControlServer/SBVK_broker.c puts on the network.
use embedded_project_exam.Base.{
  ℕ, suc, ◌⊎◌, ◌+◌, ◌%◌, ◌≤◌, ◌<◌, ◌≡◌, refl, Bool, true, false, Option, none, some, List, [], ◌∷◌,
  ◌++◌, arith, length, if◌then◌else◌, codes,
}
use embedded_project_exam.CString.{lit, text}
use embedded_project_exam.Protocol.{Packet}
use embedded_project_exam.Protocol.Create.Laws.{
  Holds, Carries, create_packet-Carries, create_packet-overflow,
}
use embedded_project_exam.Host.{Host, make, emit, send_packet}
use embedded_project_exam.Host.Messages.{
  hello, send_connect, conn_ack, sub_ack, pub_ack, push, pingresp,
}

-- The state after one packet went out.
abbrev pub sent_by : Packet → ℕ → ℕ → Host → Host
sent_by p sock dest s = send_packet sock p dest (record s { calls = suc s.calls })

-- The outcome is that a packet of this content was sent; `junk` is what the stack put in front.
abbrev pub Emits : Option Host → Host → ℕ → ℕ → ℕ → ℕ → List ℕ → List ℕ → Type 0
Emits r s sock dest mst rel o v =
    (p : Packet) × (r ≡ some (sent_by p sock dest s)) × Carries p mst rel o v

-- Every call of createPacket finds `modifPayload` empty.
abbrev pub IsClean : Host → Type 0
IsClean s = (n : ℕ) → Holds (s.locals n) []

-- A message that fits is sent, its payload behind the text that the stack held and two spaces.
pub emit-Emits :
    (mst rel : ℕ) (option payload : List ℕ) (sock dest : ℕ) (s : Host) (junk o v : List ℕ)
    → Holds (s.locals s.calls) junk
    → text option ≡ some o
    → text payload ≡ some v
    → length o < 20
    → length junk + 2 + length v < 50
    → Emits
        (emit mst rel option payload sock dest s)
        s
        sock
        dest
        (mst % 16)
        (rel % 2)
        o
        ((junk ++ 32 ∷ 32 ∷ []) ++ v)
unfolding emit
emit-Emits mst rel option payload sock dest s junk o v h ho hv lo lv =
    let (p, e, c) =
      create_packet-Carries (s.locals s.calls) mst rel option payload junk o v h ho hv lo lv in
    (p, rw (emit, make, e), c)

-- A message that does not fit runs off an array.
pub emit-overflow :
    (mst rel : ℕ) (option payload : List ℕ) (sock dest : ℕ) (s : Host) (junk o v : List ℕ)
    → Holds (s.locals s.calls) junk
    → text option ≡ some o
    → text payload ≡ some v
    → (20 ≤ length o) ⊎ (50 ≤ length junk + 2 + length v)
    → emit mst rel option payload sock dest s ≡ none
unfolding emit
emit-overflow mst rel option payload sock dest s junk o v h ho hv over =
    let e =
      create_packet-overflow (s.locals s.calls) mst rel option payload junk o v h ho hv over in
    rw (emit, make, e)

-- The messages of fixed content.
module _ (sock dest : ℕ) (s : Host) (clean : IsClean s) where
  pub hello_response-Emits :
      Emits (hello sock dest false s) s sock dest 0 0 (codes "response") (codes "  testpayload")
  unfolding hello text
  hello_response-Emits =
      emit-Emits 0 0 (lit "response") (lit "testpayload") sock dest s [] _ _ (clean s.calls) refl
        refl (omega arith) (omega arith)

  pub send_connect-Emits :
      Emits (send_connect sock dest s) s sock dest 6 1 (codes "CONNECT") (codes "  testpayload")
  unfolding send_connect text
  send_connect-Emits =
      emit-Emits 6 1 (lit "CONNECT") (lit "testpayload") sock dest s [] _ _ (clean s.calls) refl
        refl (omega arith) (omega arith)

  pub conn_ack-Emits :
      Emits (conn_ack sock dest s) s sock dest 7 0 (codes "CONNACK") (codes "  testpayload")
  unfolding conn_ack text
  conn_ack-Emits =
      emit-Emits 7 0 (lit "CONNACK") (lit "testpayload") sock dest s [] _ _ (clean s.calls) refl
        refl (omega arith) (omega arith)

  pub sub_ack-Emits : Emits (sub_ack sock dest s) s sock dest 4 0 (codes "") (codes "  ")
  unfolding sub_ack text
  sub_ack-Emits =
      emit-Emits 4 0 (lit "") (lit "") sock dest s [] _ _ (clean s.calls) refl refl (omega arith)
        (omega arith)

  pub pub_ack-Emits : Emits (pub_ack sock dest s) s sock dest 2 0 (codes "") (codes "  ")
  unfolding pub_ack text
  pub_ack-Emits =
      emit-Emits 2 0 (lit "") (lit "") sock dest s [] _ _ (clean s.calls) refl refl (omega arith)
        (omega arith)

  pub pingresp-Emits :
      Emits
        (pingresp sock dest s)
        s
        sock
        dest
        11
        0
        (codes "PINGRESP")
        (codes "  pingRespTestPayload")
  unfolding pingresp text
  pingresp-Emits =
      emit-Emits 11 0 (lit "PINGRESP") (lit "pingRespTestPayload") sock dest s [] _ _
        (clean s.calls) refl refl (omega arith) (omega arith)

-- A push carries a topic and a value of its caller.
module _ (sock dest : ℕ) (s : Host) (clean : IsClean s) where
  pub push-Emits :
      (command : Bool) (topicname value o v : List ℕ)
      → text topicname ≡ some o
      → text value ≡ some v
      → length o < 20
      → length v < 48
      → Emits
          (push sock dest command topicname value s)
          s
          sock
          dest
          12
          (if command then 1 else 0)
          o
          (codes "  " ++ v)
  unfolding push
  push-Emits true topicname value o v ho hv lo lv =
      emit-Emits 12 1 topicname value sock dest s [] o v (clean s.calls) ho hv lo (omega arith)
  push-Emits false topicname value o v ho hv lo lv =
      emit-Emits 12 0 topicname value sock dest s [] o v (clean s.calls) ho hv lo (omega arith)

-- What sending leaves alone.
pub record Same (s t : Host) : Type 0 where
  pub topics_eq : t.topics ≡ s.topics
  pub memory_eq : t.memory ≡ s.memory
  pub locals_eq : t.locals ≡ s.locals

pub Same-refl : (s : Host) → Same s s
Same-refl s = ground arith

pub Same-trans : (s t u : Host) → Same s t → Same t u → Same s u
Same-trans s t u h k = ground arith

pub sent_by-Same : (p : Packet) (sock dest : ℕ) (s : Host) → Same s (sent_by p sock dest s)
unfolding send_packet
sent_by-Same p sock dest s = ground arith

pub IsClean-Same : (s t : Host) → Same s t → IsClean s → IsClean t
IsClean-Same s t h c n = rw (h.locals_eq) (c n)
