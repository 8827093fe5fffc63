-- ===== src/CString/Laws.antt =====
-- What the string calls promise on arrays that hold a text.
use embedded_project_exam.Base.{
  lengths, ℕ, zero, suc, ◌+◌, ◌≤◌, ◌<◌, ◌≡◌, refl, ◌≢◌, ◌↔◌, ◌⊎◌, inl, inr, Bool, true, false, none,
  some, List, [], ◌∷◌, ◌++◌, arith, ◌==◌, if◌then◌else◌, length, take, drop, Bool-cases, ltb-false,
}
use native.Mathlib.Decide.{dec_lt}
use embedded_project_exam.CString.{text, strcpy, strcat, strcmp}

-- A text holds no terminator.
abbrev pub IsText : List ℕ → Type 0
IsText [] = Unit {0}
IsText (c ∷ cs) = (c ≢ 0) × IsText cs

pub IsText-append : (s t : List ℕ) → IsText s → IsText t → IsText (s ++ t)
IsText-append [] t hs ht = ht
IsText-append (c ∷ s) t hs ht = (hs.0, IsText-append s t hs.1 ht)

pub text-IsText : (a s : List ℕ) → text a ≡ some s → IsText s
unfolding text
text-IsText [] s h = cc
text-IsText (c ∷ cs) [] h = tt
text-IsText (c ∷ cs) (x ∷ s) h = ground (arith, text-IsText cs s)

-- Reading an array whose text is known.
pub text-append : (s rest : List ℕ) → IsText s → text (s ++ 0 ∷ rest) ≡ some s
unfolding text
text-append [] rest h = refl
text-append (c ∷ s) rest h = ground (arith, text-append s rest h.1)

pub strcpy_lem :
    (dst src : List ℕ) {s : List ℕ}
    → text src ≡ some s
    → length s < length dst
    → strcpy dst src ≡ some (s ++ 0 ∷ drop (suc (length s)) dst)
unfolding strcpy
strcpy_lem dst src h fits = ground arith

pub strcat_lem :
    (dst src : List ℕ) {d s : List ℕ}
    → text dst ≡ some d
    → text src ≡ some s
    → length d + length s < length dst
    → strcat dst src ≡ some ((d ++ s) ++ 0 ∷ drop (suc (length d + length s)) dst)
unfolding strcat
strcat_lem dst src hd hs fits = ground arith

abbrev pub same : List ℕ → List ℕ → Bool
same [] [] = true
same [] (b ∷ bs) = false
same (a ∷ xs) [] = false
same (a ∷ xs) (b ∷ bs) = let rest = same xs bs in if a == b then rest else false

-- strcmp on two arrays that hold texts finds them equal exactly if the texts are, whatever lies
-- behind their terminators.
pub strcmp-same :
    (a b s t : List ℕ) → text a ≡ some s → text b ≡ some t → strcmp a b ≡ some (same s t)
unfolding text strcmp
strcmp-same [] b s t hs ht = cc
strcmp-same (x ∷ xs) [] s t hs ht = cc
strcmp-same (x ∷ xs) (y ∷ ys) [] [] hs ht = ground arith
strcmp-same (x ∷ xs) (y ∷ ys) [] (d ∷ t) hs ht = ground arith
strcmp-same (x ∷ xs) (y ∷ ys) (c ∷ s) [] hs ht = ground arith
strcmp-same (x ∷ xs) (y ∷ ys) (c ∷ s) (d ∷ t) hs ht = ground (arith, strcmp-same xs ys s t)

pub same_iff : (s t : List ℕ) → (same s t ≡ true) ↔ (s ≡ t)
same_iff [] [] = (λ h. refl, λ h. refl)
same_iff [] (d ∷ t) = (λ h. cc, λ h. cc)
same_iff (c ∷ s) [] = (λ h. cc, λ h. cc)
same_iff (c ∷ s) (d ∷ t) =
    (λ h. ground (arith, (same_iff s t).0), λ h. ground (arith, (same_iff s t).1))

pub same_self : (s : List ℕ) → same s s ≡ true
same_self s = (same_iff s s).1 refl

pub same_ne : (s t : List ℕ) → s ≢ t → same s t ≡ false
same_ne s t h = elim (Bool-cases (same s t)) [ inl e ↦ absurd (h ((same_iff s t).0 e)) | inr e ↦ e ]

-- What follows the terminator does not matter, nor does cutting the array behind it.
pub text-append_right : (a b s : List ℕ) → text a ≡ some s → text (a ++ b) ≡ some s
unfolding text
text-append_right [] b s h = cc
text-append_right (c ∷ cs) b [] h = ground arith
text-append_right (c ∷ cs) b (x ∷ s) h = ground (arith, text-append_right cs b s)

pub text-take : (n : ℕ) (a s : List ℕ) → length s < n → text a ≡ some s → text (take n a) ≡ some s
unfolding text
text-take zero a s l h = absurd (omega arith)
text-take (suc n) [] s l h = cc
text-take (suc n) (c ∷ cs) [] l h = ground arith
text-take (suc n) (c ∷ cs) (x ∷ s) l h = ground (arith, text-take n cs s)

-- A pointer k bytes into an array sees the text without its first k bytes.
pub text-drop :
    (k : ℕ) (a s : List ℕ) → k ≤ length s → text a ≡ some s → text (drop k a) ≡ some (drop k s)
unfolding text
text-drop zero a s l h = h
text-drop (suc k) a [] l h = absurd (omega arith)
text-drop (suc k) [] (x ∷ s) l h = cc
text-drop (suc k) (c ∷ cs) (x ∷ s) l h = ground (arith, text-drop k cs s)

pub length-text : (a s : List ℕ) → text a ≡ some s → length s < length a
unfolding text
length-text [] s h = cc
length-text (c ∷ cs) [] h = omega arith
length-text (c ∷ cs) (x ∷ s) h = ground (arith, length-text cs s)

-- An array of the given size that holds the given text.
pub record Stores (a : List ℕ) (n : ℕ) (s : List ℕ) : Type 0 where
  pub size : length a ≡ n
  pub content : text a ≡ some s

-- strcpy into an array that is large enough stores the text and keeps the array's size.
pub strcpy-Stores :
    (dst src : List ℕ) (n : ℕ) (s : List ℕ)
    → length dst ≡ n
    → text src ≡ some s
    → length s < n
    → (r : List ℕ) × (strcpy dst src ≡ some r) × Stores r n s
strcpy-Stores dst src n s ln hs fits = (
  s ++ 0 ∷ drop (suc (length s)) dst,
  strcpy_lem dst src hs (omega arith),
  record { size = grind lengths; content = text-append s _ (text-IsText src s hs) },
)

pub strcat-Stores :
    (dst src : List ℕ) (n : ℕ) (d s : List ℕ)
    → Stores dst n d
    → text src ≡ some s
    → length d + length s < n
    → (r : List ℕ) × (strcat dst src ≡ some r) × Stores r n (d ++ s)
strcat-Stores dst src n d s hd hs fits = (
  (d ++ s) ++ 0 ∷ rest,
  strcat_lem dst src hd.content hs (omega (arith, hd.size)),
  record {
    size = grind (lengths, hd.size);
    content =
        text-append (d ++ s) rest
          (IsText-append d s (text-IsText dst d hd.content) (text-IsText src s hs));
  },
)
  where
    rest : List ℕ
    rest = drop (suc (length d + length s)) dst

pub strcpy_overflow :
    (dst src s : List ℕ) → text src ≡ some s → length dst ≤ length s → strcpy dst src ≡ none
unfolding strcpy
strcpy_overflow dst src s hs over = rw (hs, ltb-false _ _ over)

pub strcat_overflow :
    (dst src d s : List ℕ)
    → text dst ≡ some d
    → text src ≡ some s
    → length dst ≤ length d + length s
    → strcat dst src ≡ none
unfolding strcat
strcat_overflow dst src d s hd hs over = rw (hd, hs, ltb-false _ _ over)

pub strcat-cases :
    (dst src : List ℕ) (n : ℕ) (d s : List ℕ)
    → Stores dst n d
    → text src ≡ some s
    → (strcat dst src ≡ none) ⊎ ((r : List ℕ) × (strcat dst src ≡ some r) × Stores r n (d ++ s))
strcat-cases dst src n d s hd hs = elim (dec_lt (length d + length s) n) [
  | yes fits ↦ inr (strcat-Stores dst src n d s hd hs fits)
  | no over ↦ inl (strcat_overflow dst src d s hd.content hs (omega (arith, hd.size)))
]
