-- ===== src/Server/Receive.antt =====
-- ControlServer/BrokerAndControlServer.c: receiveUDP, by the datagrams that arrive. The buffer is
-- allocated with the size of a struct Packet, and recvfrom may write MAXLINE bytes into it.
pub mod Laws
use embedded_project_exam.Base.{
  ℕ, Option, none, some, List, ◌++◌, length, take, drop, leb, ◌==◌, if◌then◌else◌, ◌>>=◌,
}
use embedded_project_exam.Protocol.Wire.{Layout, decode}
use embedded_project_exam.Topics.{Frame}
use embedded_project_exam.Host.Handle.{handle_message}
use embedded_project_exam.Server.{Server}

abbrev pub maxline : ℕ
maxline = 1024

-- recvfrom: a datagram longer than the buffer is written past its end; what a shorter one leaves is
-- the end of the last.
unfoldable pub recvfrom : List ℕ → List ℕ → Option (List ℕ)
recvfrom buffer datagram =
    let got = take maxline datagram in
    if leb (length got) (length buffer) then some (got ++ drop (length got) buffer) else none

-- One round of the loop of receiveUDP: receive, handle, and look at `launch`.
unfoldable pub receive_round : Layout → List ℕ → ℕ → Frame → Server → Option Server
unfolding recvfrom
receive_round layout datagram from f s = do
  buffer' ← recvfrom s.buffer datagram
  p ← decode layout buffer'
  h ← handle_message p s.sock from f s.host
  some (record s { host = h; buffer = buffer'; sin6 = from; listening = s.launch == 0 })

-- receiveUDP when a datagram arrives. After its loop the socket is closed.
unfoldable pub receive_udp : Layout → List ℕ → ℕ → Frame → Server → Option Server
unfolding receive_round
receive_udp layout datagram from f s =
    if s.listening then receive_round layout datagram from f s else some s
