-- ===== src/Protocol/Wire/Laws.antt =====
-- A packet read back by a machine of the same layout, and by one of another.
use embedded_project_exam.Base.{
  ℕ, zero, suc, ◌+◌, ◌-◌, ◌*◌, ◌/◌, ◌%◌, ◌≤◌, ◌<◌, ◌≡◌, refl, ap, sym, ◌∙◌, some, List, [], ◌∷◌,
  ◌++◌, arith, length, take, drop, lengths, lengths, take-append, drop-append,
}
use mathlib.Core.List.{append_assoc, append-nil}
use embedded_project_exam.CString.{text}
use embedded_project_exam.CString.Laws.{text-drop, text-take, text-append_right, length-text}
use embedded_project_exam.Protocol.{Packet}
use embedded_project_exam.Protocol.Wire.{Layout, Padding, encode, decode}

-- The fields fit their bits and the arrays have the declared sizes.
pub record IsPacket (p : Packet) : Type 0 where
  pub mst_bits : p.mst < 16
  pub rel_bit : p.rel < 2
  pub option_size : length p.header_option ≡ 20
  pub payload_size : length p.payload ≡ 50

-- The padding fills the gaps of the layout.
pub record Fills (f : Layout) (pad : Padding) : Type 0 where
  pub payload_after : length pad.between + 21 ≡ f.payload_at
  pub to_size : f.payload_at + 50 + length pad.behind ≡ f.size

-- take and drop by a number that equals a length.
pub take_exact : (n : ℕ) (xs ys : List ℕ) → length xs ≡ n → take n (xs ++ ys) ≡ xs
take_exact n xs ys h = rw (← h) (take-append xs ys)

drop_exact : (n : ℕ) (xs ys : List ℕ) → length xs ≡ n → drop n (xs ++ ys) ≡ ys
drop_exact n xs ys h = rw (← h) (drop-append xs ys)

drop-drop : (m n k : ℕ) (xs : List ℕ) → m + n ≡ k → drop k xs ≡ drop n (drop m xs)
drop-drop zero n k xs h = ap (λ (j : ℕ). drop j xs) (omega arith)
drop-drop (suc m) n zero xs h = absurd (omega arith)
drop-drop (suc m) zero (suc k) [] h = refl
drop-drop (suc m) (suc n) (suc k) [] h = refl
drop-drop (suc m) n (suc k) (x ∷ xs) h = drop-drop m n k xs (omega arith)

drop-append_le : (k : ℕ) (xs ys : List ℕ) → k ≤ length xs → drop k (xs ++ ys) ≡ drop k xs ++ ys
drop-append_le zero xs ys h = refl
drop-append_le (suc k) [] ys h = absurd (omega arith)
drop-append_le (suc k) (x ∷ xs) ys h = drop-append_le k xs ys (omega arith)

payload_of_encode :
    (f : Layout) (pad : Padding) (p : Packet) (rest : List ℕ)
    → Fills f pad
    → IsPacket p
    → drop (f.payload_at - 1) (p.header_option ++ (pad.between ++ (p.payload ++ rest)))
      ≡ p.payload ++ rest
payload_of_encode f pad p rest h g =
    rw (sym (append_assoc p.header_option pad.between (p.payload ++ rest))) (
      drop_exact (f.payload_at - 1) (p.header_option ++ pad.between) (p.payload ++ rest)
        (grind (lengths, h.payload_after, g.option_size)))

pub encode-length :
    (f : Layout) (pad : Padding) (p : Packet)
    → Fills f pad
    → IsPacket p
    → length (encode pad p) ≡ f.size
unfolding encode
encode-length f pad p h g =
    grind (lengths, h.payload_after, h.to_size, g.option_size, g.payload_size)

pub bytes_regroup :
    (pad : Padding) (p : Packet) (rest : List ℕ)
    → (p.header_option ++ (pad.between ++ (p.payload ++ pad.behind))) ++ rest
      ≡ p.header_option ++ (pad.between ++ (p.payload ++ (pad.behind ++ rest)))
bytes_regroup pad p rest = simp append_assoc

pub decode_read :
    (f : Layout) (b : ℕ) (bytes : List ℕ)
    → f.size ≤ suc (length bytes)
    → decode f (b ∷ bytes)
      ≡ some (record {
        header = record { mst = b % 16; rel = b / 16 % 2; header_option = take 20 bytes };
        payload = take 50 (drop (f.payload_at - 1) bytes);
      })
unfolding decode
decode_read f b bytes h = ground arith

decode-encode_at :
    (f g : Layout) (pad : Padding) (p : Packet) (rest : List ℕ) (k : ℕ)
    → Fills f pad
    → IsPacket p
    → g.payload_at ≡ f.payload_at + k
    → g.size ≤ f.size + length rest
    → k ≤ 50
    → decode g (encode pad p ++ rest)
      ≡ some (record {
        header = p.header;
        payload = take 50 (drop k p.payload ++ (pad.behind ++ rest));
      })
unfolding encode
decode-encode_at f g pad p rest k h wf later room hk =
    decode_read g (p.mst + 16 * p.rel) bytes long ∙ ground (arith, option_read, payload_read)
  where
    bytes : List ℕ
    bytes = (p.header_option ++ (pad.between ++ (p.payload ++ pad.behind))) ++ rest

    long : g.size ≤ suc (length bytes)
    long = grind (lengths, encode-length f pad p h wf)

    option_read : take 20 bytes ≡ p.header_option
    option_read = rw (bytes_regroup pad p rest) (
        take_exact 20 p.header_option (pad.between ++ (p.payload ++ (pad.behind ++ rest)))
          wf.option_size)

    payload_read : drop (g.payload_at - 1) bytes ≡ drop k p.payload ++ (pad.behind ++ rest)
    payload_read = rw (bytes_regroup pad p rest) (
        drop-drop (f.payload_at - 1) k (g.payload_at - 1) _ (omega (arith, h.payload_after))
        ∙ ap (drop k) (payload_of_encode f pad p (pad.behind ++ rest) h wf)
        ∙ drop-append_le k p.payload (pad.behind ++ rest) (omega (arith, wf.payload_size)))

-- A packet whose fields fit their bits and whose arrays have the declared sizes, sent as the bytes
-- of the struct, is read as the same packet by a machine that lays the struct out in the same way.
pub decode-encode :
    (f : Layout) (pad : Padding) (p : Packet)
    → Fills f pad
    → IsPacket p
    → decode f (encode pad p) ≡ some p
decode-encode f pad p h g =
    let read = decode-encode_at f f pad p [] 0 h g (omega arith) (omega arith) (omega arith) in
    let whole = take_exact 50 p.payload (pad.behind ++ []) g.payload_size in
    let no_rest = append-nil (encode pad p) in ground (arith, read, whole, no_rest)

-- Where the receiver's struct has its payload k bytes later than the sender's, and what lies
-- behind the datagram in the buffer makes up the size of its struct, it reads the header of the
-- packet that was sent, and of its payload's text, which has k bytes or more, all but the first k
-- bytes.
pub decode-encode_later :
    (f g : Layout) (pad : Padding) (p : Packet) (rest v : List ℕ) (k : ℕ)
    → Fills f pad
    → IsPacket p
    → g.payload_at ≡ f.payload_at + k
    → g.size ≤ f.size + length rest
    → text p.payload ≡ some v
    → k ≤ length v
    → (q : Packet) × (decode g (encode pad p ++ rest) ≡ some q)
      × (q.header ≡ p.header)
      × (text q.payload ≡ some (drop k v))
decode-encode_later f g pad p rest v k h wf later room hv hk = (
  record { header = p.header; payload = take 50 (drop k p.payload ++ (pad.behind ++ rest)) },
  decode-encode_at f g pad p rest k h wf later room
      (omega (arith, length-text p.payload v hv, wf.payload_size)),
  refl,
  text-take 50 _ (drop k v) (grind (lengths, length-text p.payload v hv, wf.payload_size)) (
      text-append_right (drop k p.payload) (pad.behind ++ rest) (drop k v)
        (text-drop k p.payload v hk hv)),
)
