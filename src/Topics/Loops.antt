-- ===== src/Topics/Loops.antt =====
-- The nested loops that push a message to the addresses of each slot whose name matches its topic, as
-- SBVK.c and ControlServer/SBVK_broker.c both write them, over the state of either program.
use embedded_project_exam.Base.{
  ℕ, ◌≡◌, refl, subst, ◌∙◌, Bool, true, false, Option, some, List, [], ◌∷◌, ◌++◌, if◌then◌else◌,
  ◌>>=◌, Bool-cases, inl, inr, >>=-eq_some,
}
use mathlib.Core.Option.{some-injective}
use embedded_project_exam.CString.{text}
use embedded_project_exam.Topics.{Topic, Memory, matches}
use embedded_project_exam.Topics.Spec.{WellNamed, recipients, name_is}
use embedded_project_exam.Topics.Laws.{matches_lem}

-- The inner loop and the outer one. `push` sends the message to an address.
module _ {S : Type 0} (memory : S → Memory) (push : ℕ → S → Option S) where
  unfoldable pub push_each : List ℕ → S → Option S
  push_each [] s = some s
  push_each (ip ∷ ips) s = push ip s >>= push_each ips

  unfoldable pub forward : List ℕ → List Topic → S → Option S
  unfolding push_each matches
  forward option [] s = some s
  forward option (t ∷ ts) s = do
    hit ← matches (memory s) option t
    s' ← (if hit then push_each t.ips s else some s)
    forward option ts s'

-- Steps to a list of addresses, in order.
pub data Fanout {S : Type 0} (Step : ℕ → S → S → Type 0) : List ℕ → S → S → Type 0 where
  done : (s : S) → Fanout Step [] s s
  more :
      {ip : ℕ} {ips : List ℕ} {s t u : S}
      → Step ip s t
      → Fanout Step ips t u
      → Fanout Step (ip ∷ ips) s u

pub Fanout-append :
    {S : Type 0} {Step : ℕ → S → S → Type 0} {xs ys : List ℕ} {s t u : S}
    → Fanout Step xs s t
    → Fanout Step ys t u
    → Fanout Step (xs ++ ys) s u
Fanout-append (done s) g = g
Fanout-append (more st f) g = more st (Fanout-append f g)

-- No address, no step.
pub Fanout-nil : {S : Type 0} {Step : ℕ → S → S → Type 0} {s t : S} → Fanout Step [] s t → t ≡ s
Fanout-nil (done s) = refl

-- What each step keeps, all of them keep.
pub Fanout-Keeps :
    {S : Type 0} (R : S → S → Type 0) {Step : ℕ → S → S → Type 0} {ips : List ℕ} {s t : S}
    → ((u : S) → R u u)
    → ((u v w : S) → R u v → R v w → R u w)
    → ((ip : ℕ) (u v : S) → Step ip u v → R u v)
    → Fanout Step ips s t
    → R s t
Fanout-Keeps R stays chains step (done s) = stays s
Fanout-Keeps R stays chains step (more {s} {t} {u} st f) =
    chains s t u (step _ s t st) (Fanout-Keeps R stays chains step f)

-- Where a push succeeds as `Step` says from every state that satisfies `Inv`, and keeps the names, the
-- loops are a push to each of the recipients in order.
module _ {S : Type 0} (memory : S → Memory) (push : ℕ → S → Option S) (Inv : S → Type 0)
    (Step : ℕ → S → S → Type 0)
    (step : (ip : ℕ) (s : S)
      → Inv s
      → (t : S) × (push ip s ≡ some t) × Step ip s t × Inv t × (memory t ≡ memory s)) where
  push_each-Fanout :
      (ips : List ℕ) (s : S)
      → Inv s
      → (t : S) × (push_each memory push ips s ≡ some t)
        × Fanout Step ips s t
        × Inv t
        × (memory t ≡ memory s)
  unfolding push_each
  push_each-Fanout [] s h = (s, refl, done s, h, refl)
  push_each-Fanout (ip ∷ ips) s h =
      let (t, e, st, k, m) = step ip s h in
      let (u, e', f, k', m') = push_each-Fanout ips t k in (u, rw e e', more st f, k', m' ∙ m)

  pub forward-Fanout :
      (option o : List ℕ) (ts : List Topic) (s : S)
      → Inv s
      → WellNamed (memory s) ts
      → text option ≡ some o
      → (t : S) × (forward memory push option ts s ≡ some t)
        × Fanout Step (recipients (memory s) o ts) s t
        × Inv t
  unfolding forward recipients
  forward-Fanout option o [] s h w e = (s, refl, done s, h)
  forward-Fanout option o (t ∷ ts) s h w e = elim (Bool-cases (name_is (memory s) o t.name)) [
    | inr miss ↦
        let (u, run, f, k) = forward-Fanout option o ts s h w.1 e in
        (u, rw (matches_lem (memory s) option o t e w.0, miss) run, rw miss f, k)
    | inl hit ↦
        let (v, run, f, k, m) = push_each-Fanout t.ips s h in
        let (u, run', g, k') = forward-Fanout option o ts v k (rw m w.1) e in
        (
          u,
          rw (matches_lem (memory s) option o t e w.0, hit, run) run',
          rw hit (Fanout-append f (rw m at g)),
          k',
        )
  ]

-- What a push keeps, the loops keep, whatever they meet.
module _ {S : Type 0} (memory : S → Memory) (push : ℕ → S → Option S) (R : S → S → Type 0)
    (stays : (s : S) → R s s) (chains : (s t u : S) → R s t → R t u → R s u)
    (step : (ip : ℕ) (s t : S) → push ip s ≡ some t → R s t) where
  push_each-Keeps : (ips : List ℕ) (s t : S) → push_each memory push ips s ≡ some t → R s t
  unfolding push_each
  push_each-Keeps [] s t e = subst (R s) (some-injective _ _ e) (stays s)
  push_each-Keeps (ip ∷ ips) s t e =
      let (u, first, rest) = >>=-eq_some (push ip s) (push_each memory push ips) e in
      chains s u t (step ip s u first) (push_each-Keeps ips u t rest)

  when-Keeps :
      (b : Bool) (ips : List ℕ) (s t : S)
      → (if b then push_each memory push ips s else some s) ≡ some t
      → R s t
  when-Keeps true ips s t e = push_each-Keeps ips s t e
  when-Keeps false ips s t e = subst (R s) (some-injective _ _ e) (stays s)

  pub forward-Keeps :
      (option : List ℕ) (ts : List Topic) (s t : S)
      → forward memory push option ts s ≡ some t
      → R s t
  unfolding forward
  forward-Keeps option [] s t e = subst (R s) (some-injective _ _ e) (stays s)
  forward-Keeps option (x ∷ ts) s t e =
      let (hit, found, rest) = >>=-eq_some (matches (memory s) option x) _ e in
      let (u, pushed, rest') =
        >>=-eq_some (if hit then push_each memory push x.ips s else some s) _ rest in
      chains s u t (when-Keeps hit x.ips s u pushed) (forward-Keeps option ts u t rest')
