-- ===== src/Topics/Spec.antt =====
-- What the topic table stands for: for each topic's text, the addresses that a message on it goes to.
use embedded_project_exam.Base.{
  ℕ, Bool, false, ◌||◌, Option, none, some, List, [], ◌∷◌, ◌++◌, ◌≡◌, ◌≢◌, if◌then◌else◌,
}
use embedded_project_exam.CString.{text}
use embedded_project_exam.CString.Laws.{same}
use embedded_project_exam.Topics.{Topic, Memory, is_null}

-- The text behind a name, where it can be read.
abbrev pub text_is : List ℕ → Option (List ℕ) → Bool
text_is o none = false
text_is o (some t) = same t o

abbrev pub name_is : Memory → List ℕ → Option ℕ → Bool
name_is m o none = false
name_is m o (some a) = text_is o (text (m a).header_option)

-- Where a message on the topic `o` goes, in the order of the slots.
unfoldable pub recipients : Memory → List ℕ → List Topic → List ℕ
recipients m o [] = []
recipients m o (t ∷ ts) =
    let rest = recipients m o ts in if name_is m o t.name then t.ips ++ rest else rest

unfoldable pub has_topic : Memory → List ℕ → List Topic → Bool
has_topic m o [] = false
has_topic m o (t ∷ ts) = name_is m o t.name || has_topic m o ts

unfoldable pub has_free : List Topic → Bool
has_free [] = false
has_free (t ∷ ts) = is_null t.name || has_free ts

-- The addresses of every slot in use.
unfoldable pub everyone : List Topic → List ℕ
everyone [] = []
everyone (t ∷ ts) = let rest = everyone ts in if is_null t.name then rest else t.ips ++ rest

-- No slot has a name.
abbrev pub AreFree : List Topic → Type 0
AreFree [] = Unit {0}
AreFree (t ∷ ts) = (t.name ≡ none) × AreFree ts

-- Every name in use points at a text.
abbrev pub IsReadable : Memory → Option ℕ → Type 0
IsReadable m none = Unit {0}
IsReadable m (some a) = (o : List ℕ) × (text (m a).header_option ≡ some o)

abbrev pub WellNamed : Memory → List Topic → Type 0
WellNamed m [] = Unit {0}
WellNamed m (t ∷ ts) = IsReadable m t.name × WellNamed m ts

-- Every name in use points at the address `a`.
abbrev pub PointsAt : ℕ → Option ℕ → Type 0
PointsAt a none = Unit {0}
PointsAt a (some b) = b ≡ a

abbrev pub AllPointAt : ℕ → List Topic → Type 0
AllPointAt a [] = Unit {0}
AllPointAt a (t ∷ ts) = PointsAt a t.name × AllPointAt a ts

-- No name in use points at the address `a`.
abbrev pub PointsElsewhere : ℕ → Option ℕ → Type 0
PointsElsewhere a none = Unit {0}
PointsElsewhere a (some b) = a ≢ b

abbrev pub NoneAt : ℕ → List Topic → Type 0
NoneAt a [] = Unit {0}
NoneAt a (t ∷ ts) = PointsElsewhere a t.name × NoneAt a ts

-- The effect of a subscription to `o` on the addresses of the topic `q`: a topic that exists stays as
-- it is, a new one takes `ips` if a slot is free.
abbrev pub registered : Memory → List ℕ → List ℕ → List Topic → List ℕ → List ℕ
registered m o ips ts q =
    if has_topic m o ts
    then recipients m q ts
    else if has_free ts
    then (if same o q then ips else recipients m q ts)
    else recipients m q ts
