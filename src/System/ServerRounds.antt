-- ===== src/System/ServerRounds.antt =====
-- The control server's part in a handshake: a datagram is received into the buffer and read in the host's
-- layout, and what ControlServer/SBVK_broker.c answers.
use embedded_project_exam.Base.{
  lengths, ℕ, ◌≤◌, ◌<◌, ◌≡◌, refl, true, some, List, [], ◌++◌, arith, length, drop, codes,
  length-drop,
}
use mathlib.Core.List.{append-nil}
use embedded_project_exam.CString.{lit, text}
use embedded_project_exam.CString.Laws.{strcmp-same}
use embedded_project_exam.Protocol.{Packet, MessageType, of_code}
use embedded_project_exam.Protocol.Create.Laws.{Carries}
use embedded_project_exam.Protocol.Wire.{Layout, Padding, encode, decode}
use embedded_project_exam.Protocol.Wire.Laws.{IsPacket, Fills, encode-length}
use embedded_project_exam.Protocol.Wire.Headers.{decode-encode_header}
use embedded_project_exam.Topics.{Frame}
use embedded_project_exam.Host.{Host}
use embedded_project_exam.Host.Handle.{get_message_type, handle_hello, dispatch, handle_message}
use embedded_project_exam.Host.Sends.{Emits, IsClean, hello_response-Emits, conn_ack-Emits}
use embedded_project_exam.Host.Accepts.{entered, entered-Same}
use embedded_project_exam.Server.{Server}
use embedded_project_exam.Server.Receive.Laws.{recvfrom_short}
use embedded_project_exam.Server.Receive.{recvfrom, receive_round, receive_udp, maxline}

-- The program runs, and its buffer has the size of the struct.
pub record IsOpen (layout : Layout) (s : Server) : Type 0 where
  pub going : s.launch ≡ 0
  pub listens : s.listening ≡ true
  pub buffer_size : length s.buffer ≡ layout.size

Carries-IsPacket :
    (p : Packet) (mst r : ℕ) (o v : List ℕ) → mst < 16 → r < 2 → Carries p mst r o v → IsPacket p
Carries-IsPacket p mst r o v bits bit car = record {
  mst_bits = omega (arith, car.mst_eq);
  rel_bit = omega (arith, car.rel_eq);
  option_size = car.option_stored.size;
  payload_size = car.payload_stored.size;
}

-- What the host reads of a packet from a machine whose struct is no larger.
pub host_reads :
    (z x : Layout) (pad : Padding) (p : Packet) (mst r : ℕ) (o v : List ℕ) (s : Server)
    → Fills z pad
    → z.size ≤ x.size
    → x.size ≤ maxline
    → IsOpen x s
    → mst < 16
    → r < 2
    → Carries p mst r o v
    → (b : List ℕ) × (q : Packet) × (recvfrom s.buffer (encode pad p) ≡ some b)
      × (decode x b ≡ some q)
      × (q.header ≡ p.header)
      × (length b ≡ x.size)
host_reads z x pad p mst r o v s fills smaller fits open_ bits bit car =
    let wf = Carries-IsPacket p mst r o v bits bit car in
    let sent = encode-length z pad p fills wf in
    let tail = length-drop (length (encode pad p)) s.buffer in
    let (q, read, header) =
      decode-encode_header z x pad p (drop (length (encode pad p)) s.buffer) fills wf
        (omega (arith, sent, tail, open_.buffer_size)) in
    (
      encode pad p ++ drop (length (encode pad p)) s.buffer,
      q,
      recvfrom_short s.buffer (encode pad p) (omega (arith, sent))
          (omega (arith, sent, open_.buffer_size)),
      read,
      header,
      grind (lengths, sent, tail, open_.buffer_size),
    )

-- What a mote reads of a packet from a machine whose struct is no smaller.
pub mote_reads :
    (z x : Layout) (pad : Padding) (p : Packet) (mst r : ℕ) (o v : List ℕ)
    → Fills x pad
    → z.size ≤ x.size
    → mst < 16
    → r < 2
    → Carries p mst r o v
    → (q : Packet) × (decode z (encode pad p) ≡ some q) × (q.header ≡ p.header)
mote_reads z x pad p mst r o v fills smaller bits bit car =
    let (q, read, header) =
      decode-encode_header x z pad p [] fills (Carries-IsPacket p mst r o v bits bit car)
        (omega arith) in
    (q, rw (append-nil (encode pad p)) at read, header)

-- A round of receiveUDP on a packet that was read.
abbrev pub received_by : Host → List ℕ → ℕ → Server → Server
received_by h b from s = record s { host = h; buffer = b; sin6 = from; listening = true }

pub receives :
    (x : Layout) (datagram b : List ℕ) (q : Packet) (from : ℕ) (f : Frame) (s : Server) (h : Host)
    → IsOpen x s
    → recvfrom s.buffer datagram ≡ some b
    → decode x b ≡ some q
    → handle_message q s.sock from f s.host ≡ some h
    → receive_udp x datagram from f s ≡ some (received_by h b from s)
unfolding receive_udp receive_round
receives x datagram b q from f s h open_ got read handled =
    ground (arith, open_.going, open_.listens, got, read, handled)

module _ (q : Packet) (sock addr : ℕ) (f : Frame) (s : Host) (clean : IsClean s) where
  entered_clean : IsClean (entered q f s)
  entered_clean n = rw ((entered-Same q f s).locals_eq) (clean n)

  pub host_init-Emits :
      of_code q.mst ≡ some MessageType.hello
      → text q.header_option ≡ some (codes "init")
      → Emits
          (handle_message q sock addr f s)
          (entered q f s)
          sock
          addr
          0
          0
          (codes "response")
          (codes "  testpayload")
  unfolding handle_message get_message_type dispatch handle_hello text
  host_init-Emits e h =
      rw (e, strcmp-same q.header_option (lit "init") _ (codes "init") h refl)
        (hello_response-Emits sock addr (entered q f s) entered_clean)

  pub host_connect-Emits :
      of_code q.mst ≡ some MessageType.connect
      → Emits
          (handle_message q sock addr f s)
          (entered q f s)
          sock
          addr
          7
          0
          (codes "CONNACK")
          (codes "  testpayload")
  unfolding handle_message get_message_type dispatch
  host_connect-Emits e = rw e (conn_ack-Emits sock addr (entered q f s) entered_clean)
