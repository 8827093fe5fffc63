-- ===== src/Host/Addresses.antt =====
-- ControlServer/SBVK_broker.c: ipv6_expander, which prints an address in full.
use embedded_project_exam.Base.{
  ℕ, suc, ◌+◌, ◌-◌, ◌*◌, ◌/◌, ◌%◌, ◌<◌, ◌≡◌, refl, sym, ap, subst, true, false, ◌&&◌, ◌≢◌, Option,
  none, some, List, [], ◌∷◌, ◌++◌, length, drop, ltb, leb, if◌then◌else◌, ◌>>=◌, arith, codes, ◌==◌,
}
use mathlib.Core.List.{append_assoc, append-nil}
use embedded_project_exam.CString.{text}
use embedded_project_exam.CString.Laws.{IsText, text-append}

-- The character of a hexadecimal digit, as `%x` prints it.
unfoldable pub hex_digit : ℕ → ℕ
hex_digit n = if ltb n 10 then 48 + n else 87 + n

-- `%02x` on a byte.
unfoldable pub hex_byte : ℕ → List ℕ
unfolding hex_digit
hex_byte b = hex_digit (b / 16) ∷ hex_digit (b % 16) ∷ []

-- The format: two bytes, a colon, and so on.
unfoldable pub expanded : List ℕ → List ℕ
unfolding hex_byte
expanded (a ∷ b ∷ []) = hex_byte a ++ hex_byte b
expanded (a ∷ b ∷ bs) = (hex_byte a ++ hex_byte b) ++ 58 ∷ expanded bs
expanded _ = []

-- sprintf into an array: the text and its terminator.
unfoldable pub sprintf : List ℕ → List ℕ → Option (List ℕ)
sprintf str t =
    if ltb (length t) (length str) then some (t ++ 0 ∷ drop (suc (length t)) str) else none

-- What it prints: `str` has 40 bytes, and `addr->s6_addr` has 16.
unfoldable pub ipv6_expander : List ℕ → List ℕ → Option (List ℕ)
unfolding sprintf expanded
ipv6_expander str addr = do
  str' ← sprintf str (expanded addr)
  t ← text str'
  some ((codes "Ipv6 addr = " ++ t) ++ codes " \n")

-- Reading an address back, by its definition in RFC 4291: groups of four hexadecimal digits.
unfoldable pub read_hex : ℕ → Option ℕ
read_hex c =
    if leb 48 c && leb c 57
    then some (c - 48)
    else if leb 97 c && leb c 102
    then some (c - 87)
    else none

unfoldable pub read_byte : ℕ → ℕ → Option ℕ
read_byte c d = do x ← read_hex c; y ← read_hex d; some (16 * x + y)

unfoldable pub read_address : List ℕ → Option (List ℕ)
read_address (c ∷ d ∷ e ∷ f ∷ []) = do a ← read_byte c d; b ← read_byte e f; some (a ∷ b ∷ [])
read_address (c ∷ d ∷ e ∷ f ∷ s ∷ rest) = do
  a ← read_byte c d
  b ← read_byte e f
  bs ← read_address rest
  if s == 58 then some (a ∷ b ∷ bs) else none
read_address _ = none

-- An even number of bytes, and two at least.
abbrev pub IsAddress : List ℕ → Type 0
IsAddress (a ∷ b ∷ []) = (a < 256) × (b < 256)
IsAddress (a ∷ b ∷ bs) = ((a < 256) × (b < 256)) × IsAddress bs
IsAddress _ = ⊥

read_hex-hex_digit : (n : ℕ) → n < 16 → read_hex (hex_digit n) ≡ some n
unfolding read_hex hex_digit
read_hex-hex_digit n h = ground arith

read_byte-hex : (b : ℕ) → b < 256 → read_byte (hex_digit (b / 16)) (hex_digit (b % 16)) ≡ some b
unfolding read_byte
read_byte-hex b h =
    rw (read_hex-hex_digit (b / 16) (omega arith), read_hex-hex_digit (b % 16) (omega arith))
      (ap some (omega arith))

read_address-expanded : (addr : List ℕ) → IsAddress addr → read_address (expanded addr) ≡ some addr
unfolding read_address expanded hex_byte
read_address-expanded [] h = absurd h
read_address-expanded (a ∷ []) h = absurd h
read_address-expanded (a ∷ b ∷ []) h = rw (read_byte-hex a h.0, read_byte-hex b h.1) refl
read_address-expanded (a ∷ b ∷ c ∷ bs) h =
    rw (read_byte-hex a (h.0.0), read_byte-hex b (h.0.1), read_address-expanded (c ∷ bs) h.1) refl

hex_digit-nonzero : (n : ℕ) → (hex_digit n == 0) ≡ false
unfolding hex_digit
hex_digit-nonzero n = ground arith

length-expanded :
    (addr : List ℕ) → IsAddress addr → length (expanded addr) + 1 ≡ 5 * (length addr / 2)
unfolding expanded hex_byte
length-expanded [] h = absurd h
length-expanded (a ∷ []) h = absurd h
length-expanded (a ∷ b ∷ []) h = omega arith
length-expanded (a ∷ b ∷ c ∷ bs) h = omega (arith, length-expanded (c ∷ bs) h.1)

hex_digit_ne : (n : ℕ) → hex_digit n ≢ 0
unfolding hex_digit
hex_digit_ne n e = ground arith

IsText-hex : (b : ℕ) (rest : List ℕ) → IsText rest → IsText (hex_byte b ++ rest)
unfolding hex_byte
IsText-hex b rest h = (hex_digit_ne (b / 16), (hex_digit_ne (b % 16), h))

IsText-expanded : (addr : List ℕ) → IsText (expanded addr)
unfolding expanded
IsText-expanded [] = tt
IsText-expanded (a ∷ []) = tt
IsText-expanded (a ∷ b ∷ []) =
    IsText-hex a (hex_byte b) (subst IsText (append-nil (hex_byte b)) (IsText-hex b [] tt))
IsText-expanded (a ∷ b ∷ c ∷ bs) =
    subst IsText (sym (append_assoc (hex_byte a) (hex_byte b) (58 ∷ expanded (c ∷ bs)))) (
      IsText-hex a (hex_byte b ++ 58 ∷ expanded (c ∷ bs))
        (IsText-hex b (58 ∷ expanded (c ∷ bs)) (omega arith, IsText-expanded (c ∷ bs))))

-- ipv6_expander on an address of 16 bytes runs without a fault and prints 39 characters, which
-- with the terminator fill `str`, of 40 bytes; and reading them as hexadecimal groups gives the
-- address back.
pub ipv6_expander-read :
    (str addr : List ℕ)
    → length str ≡ 40
    → length addr ≡ 16
    → IsAddress addr
    → (t : List ℕ) × (ipv6_expander str addr ≡ some ((codes "Ipv6 addr = " ++ t) ++ codes " \n"))
      × (length t ≡ 39)
      × (read_address t ≡ some addr)
unfolding ipv6_expander
ipv6_expander-read str addr room full is =
    let long : length (expanded addr) ≡ 39 = omega (arith, length-expanded addr is) in
    let fits : ltb (length (expanded addr)) (length str) ≡ true = ground (arith, long) in
    let stored : sprintf str (expanded addr) ≡ some (expanded addr ++ 0 ∷ drop 40 str) =
      rw (sprintf, fits, long) refl in
    (
      expanded addr,
      rw (stored, text-append (expanded addr) (drop 40 str) (IsText-expanded addr)) refl,
      long,
      read_address-expanded addr is,
    )
