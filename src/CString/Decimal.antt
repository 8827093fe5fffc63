-- ===== src/CString/Decimal.antt =====
-- What sprintf prints, atoi reads back.
use embedded_project_exam.Base.{
  lengths, ℕ, zero, suc, ◌+◌, ◌*◌, ◌-◌, ◌/◌, ◌%◌, ◌≤◌, ◌<◌, ◌≡◌, refl, ◌∙◌, ap, false, some, List,
  [], ◌∷◌, ◌++◌, arith, length, ltb, Bool-cases, inl, inr,
}
use embedded_project_exam.CString.{text}
use embedded_project_exam.CString.Laws.{IsText, text-append, strcpy-Stores}
use embedded_project_exam.Base.{replicate}
use embedded_project_exam.CString.Numbers.{
  int_max, read_digits, read_number, atoi, digits, decimal, sprintf_d,
}

-- Every byte is a digit.
abbrev pub IsDigits : List ℕ → Type 0
IsDigits [] = Unit {0}
IsDigits (c ∷ cs) = ((48 ≤ c) × (c ≤ 57)) × IsDigits cs

IsDigits-snoc : (cs : List ℕ) (d : ℕ) → IsDigits cs → d < 10 → IsDigits (cs ++ (48 + d) ∷ [])
IsDigits-snoc [] d h l = ((omega arith, omega arith), tt)
IsDigits-snoc (c ∷ cs) d h l = (h.0, IsDigits-snoc cs d h.1 l)

pub digits-IsDigits : (fuel n : ℕ) → IsDigits (digits fuel n)
unfolding digits
digits-IsDigits zero n = tt
digits-IsDigits (suc fuel) n = elim (Bool-cases (ltb n 10)) [
  | inl small ↦ rw small ((omega arith, ground arith), tt)
  | inr large ↦
      rw large (
        IsDigits-snoc (digits fuel (n / 10)) (n % 10) (digits-IsDigits fuel (n / 10)) (omega arith))
]

read_digits-snoc :
    (acc : ℕ) (cs : List ℕ) (d : ℕ)
    → IsDigits cs
    → d < 10
    → read_digits acc (cs ++ (48 + d) ∷ []) ≡ read_digits acc cs * 10 + d
unfolding read_digits
read_digits-snoc acc [] d h l = ground arith
read_digits-snoc acc (c ∷ cs) d h l =
    ground (arith, read_digits-snoc (acc * 10 + (c - 48)) cs d h.1 l, h.0)

read_digits-one : (n : ℕ) → n < 10 → read_digits 0 ((48 + n) ∷ []) ≡ n
unfolding read_digits
read_digits-one n h = ground arith

-- The digits printed for a number read back as it.
pub read_digits-digits : (fuel n : ℕ) → n < fuel → read_digits 0 (digits fuel n) ≡ n
unfolding digits
read_digits-digits zero n h = absurd (omega arith)
read_digits-digits (suc fuel) n h = elim (Bool-cases (ltb n 10)) [
  | inl small ↦ rw small (ground (arith, read_digits-one n))
  | inr large ↦ rw large (
      read_digits-snoc 0 (digits fuel (n / 10)) (n % 10) (digits-IsDigits fuel (n / 10))
        (omega arith)
      ∙ ap (λ (m : ℕ). m * 10 + n % 10) (read_digits-digits fuel (n / 10) (ground arith))
      ∙ omega arith)
]

read_number-digits : (cs : List ℕ) → IsDigits cs → read_number cs ≡ (false, read_digits 0 cs)
unfolding read_number read_digits
read_number-digits [] h = refl
read_number-digits (c ∷ cs) h = ground (arith, h.0)

read_number-spaces : (k : ℕ) (cs : List ℕ) → read_number (replicate k 32 ++ cs) ≡ read_number cs
unfolding read_number
read_number-spaces zero cs = refl
read_number-spaces (suc k) cs = read_number-spaces k cs

-- atoi reads the number that sprintf printed, whatever spaces were put before it.
pub atoi-decimal :
    (k n : ℕ) (a : List ℕ)
    → text a ≡ some (replicate k 32 ++ decimal n)
    → n ≤ int_max
    → atoi a ≡ some (false, n)
unfolding atoi
atoi-decimal k n a h fits =
    let value : read_number (replicate k 32 ++ decimal n) ≡ (false, n) =
      read_number-spaces k (decimal n)
      ∙ read_number-digits (decimal n) (digits-IsDigits (suc n) n)
      ∙ ap (λ (m : ℕ). (false, m)) (read_digits-digits (suc n) n (omega arith)) in
    rw (h, value) (ground arith)

IsDigits-IsText : (cs : List ℕ) → IsDigits cs → IsText cs
IsDigits-IsText [] h = tt
IsDigits-IsText (c ∷ cs) h = ((λ e. absurd (omega (arith, e, h.0.0))), IsDigits-IsText cs h.1)

length-digits_one : (fuel n : ℕ) → n < 10 → length (digits fuel n) ≤ 1
unfolding digits
length-digits_one zero n h = omega arith
length-digits_one (suc fuel) n h = ground arith

-- A number below a hundred takes at most two bytes and a terminator.
length-digits : (fuel n : ℕ) → n < 100 → length (digits fuel n) ≤ 2
unfolding digits
length-digits zero n h = omega arith
length-digits (suc fuel) n h = elim (Bool-cases (ltb n 10)) [
  | inl small ↦ rw small (omega arith)
  | inr large ↦ rw large (grind (lengths, length-digits_one fuel (n / 10) (omega arith)))
]

pub length-decimal : (n : ℕ) → n < 100 → length (decimal n) ≤ 2
length-decimal n h = length-digits (suc n) n h

pub sprintf_d_lem :
    (dst : List ℕ) (n : ℕ)
    → n < 100
    → 3 ≤ length dst
    → (out : List ℕ) × (sprintf_d dst n ≡ some out)
      × (text out ≡ some (decimal n))
      × (length out ≡ length dst)
      × (length (decimal n) ≤ 2)
unfolding sprintf_d
sprintf_d_lem dst n h room =
    let short = length-digits (suc n) n h in
    let (r, e, st) =
      strcpy-Stores dst (decimal n ++ 0 ∷ []) (length dst) (decimal n) refl
        (text-append (decimal n) [] (IsDigits-IsText (decimal n) (digits-IsDigits (suc n) n)))
        (omega arith) in
    (r, e, st.content, st.size, short)
