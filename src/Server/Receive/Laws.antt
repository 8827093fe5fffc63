-- ===== src/Server/Receive/Laws.antt =====
-- recvfrom into the buffer of receiveUDP, on datagrams that fit it.
use embedded_project_exam.Base.{
  ℕ, zero, suc, ◌≤◌, ◌≡◌, refl, ap, some, List, [], ◌∷◌, ◌++◌, length, take, drop, arith,
}
use embedded_project_exam.Server.Receive.{recvfrom, maxline}

take_whole : (n : ℕ) (xs : List ℕ) → length xs ≤ n → take n xs ≡ xs
take_whole zero [] h = refl
take_whole zero (x ∷ xs) h = absurd (omega arith)
take_whole (suc n) [] h = refl
take_whole (suc n) (x ∷ xs) h = ap (◌∷◌ x) (take_whole n xs (omega arith))

pub recvfrom_short :
    (buffer datagram : List ℕ)
    → length datagram ≤ maxline
    → length datagram ≤ length buffer
    → recvfrom buffer datagram ≡ some (datagram ++ drop (length datagram) buffer)
unfolding recvfrom
recvfrom_short buffer datagram line room = ground (arith, take_whole maxline datagram line)
