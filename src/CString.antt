-- ===== src/CString.antt =====
-- The <string.h> calls that SBVK.c, ControlServer/SBVK_broker.c and the sensors make, on char arrays
-- as lists of bytes. A pointer to an array is the array from there on; running off its end is a
-- fault, as is a copy that does not fit.
pub mod Laws
pub mod Numbers
pub mod Decimal
use embedded_project_exam.Base.{
  ℕ, zero, suc, ◌+◌, Bool, true, false, Option, none, some, List, [], ◌∷◌, ◌++◌, ltb, ◌==◌,
  if◌then◌else◌, length, drop, codes, ◌>>=◌,
}
use Prim.Native.String.{String}

-- A string literal with its terminator.
abbrev pub lit : String → List ℕ
lit s = codes s ++ 0 ∷ []

-- The text that an array holds: its bytes before the first NUL.
unfoldable pub text : List ℕ → Option (List ℕ)
text [] = none
text (c ∷ cs) = if c == 0 then some [] else (text cs >>= λ t. some (c ∷ t))

-- strcpy(dst, src): the bytes of dst behind the terminator stay.
unfoldable pub strcpy : List ℕ → List ℕ → Option (List ℕ)
strcpy dst src = do
  s ← text src
  if ltb (length s) (length dst) then some (s ++ 0 ∷ drop (suc (length s)) dst) else none

-- strcat(dst, src)
unfoldable pub strcat : List ℕ → List ℕ → Option (List ℕ)
strcat dst src = do
  d ← text dst
  s ← text src
  let n = length d + length s
  if ltb n (length dst) then some ((d ++ s) ++ 0 ∷ drop (suc n) dst) else none

-- strcmp(a, b) == 0: stops at the first difference or at the common terminator.
unfoldable pub strcmp : List ℕ → List ℕ → Option Bool
strcmp [] bs = none
strcmp (a ∷ xs) [] = none
strcmp (a ∷ xs) (b ∷ bs) =
    let rest = strcmp xs bs in if a == b then (if a == 0 then some true else rest) else some false
