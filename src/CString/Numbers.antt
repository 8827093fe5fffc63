-- ===== src/CString/Numbers.antt =====
-- atoi and sprintf("%d") as the sensors call them, on numbers of Z1's 16-bit int.
use embedded_project_exam.Base.{
  ℕ, zero, suc, ◌+◌, ◌*◌, ◌-◌, ◌/◌, ◌%◌, Bool, true, false, ◌&&◌, ◌||◌, Option, none, some, List,
  [], ◌∷◌, ◌++◌, ltb, leb, ◌==◌, if◌then◌else◌, ◌>>=◌,
}
use embedded_project_exam.CString.{text, strcpy}

abbrev pub int_max : ℕ
int_max = 32767

-- isspace and isdigit
abbrev pub is_space : ℕ → Bool
is_space c = c == 32 || (leb 9 c && leb c 13)

abbrev pub is_digit : ℕ → Bool
is_digit c = leb 48 c && leb c 57

-- The value of the digits up to the first other byte.
unfoldable pub read_digits : ℕ → List ℕ → ℕ
read_digits acc [] = acc
read_digits acc (c ∷ cs) =
    let rest = read_digits (acc * 10 + (c - 48)) cs in if is_digit c then rest else acc

-- Sign and value after the white space.
unfoldable pub read_signed : List ℕ → Bool × ℕ
unfolding read_digits
read_signed [] = (false, 0)
read_signed (c ∷ cs) =
    if c == 45
    then (true, read_digits 0 cs)
    else if c == 43
    then (false, read_digits 0 cs)
    else (false, read_digits 0 (c ∷ cs))

unfoldable pub read_number : List ℕ → Bool × ℕ
unfolding read_signed
read_number [] = (false, 0)
read_number (c ∷ cs) =
    let rest = read_number cs in if is_space c then rest else read_signed (c ∷ cs)

-- atoi: whether the number is negative, and its absolute value. Out of range it is undefined.
unfoldable pub atoi : List ℕ → Option (Bool × ℕ)
unfolding read_number
atoi a = do t ← text a; let n = read_number t; if leb (n.1) int_max then some n else none

-- The decimal digits of n, of which fuel above n is enough.
unfoldable pub digits : ℕ → ℕ → List ℕ
digits zero n = []
digits (suc fuel) n =
    let front = digits fuel (n / 10) in
    if ltb n 10 then (48 + n) ∷ [] else front ++ (48 + n % 10) ∷ []

abbrev pub decimal : ℕ → List ℕ
decimal n = digits (suc n) n

-- sprintf(dst, "%d", n)
unfoldable pub sprintf_d : List ℕ → ℕ → Option (List ℕ)
sprintf_d dst n = strcpy dst (decimal n ++ 0 ∷ [])
