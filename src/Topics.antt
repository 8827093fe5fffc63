-- ===== src/Topics.antt =====
-- The topic table of SBVK.c and ControlServer/SBVK_broker.c, which walk it by the same loops. A
-- topic's name is a pointer into the packet of the subscription that made it: the address of that
-- packet on the stack, in a memory of packets. The list holds every slot that the loops visit, which
-- is one more than the array declares: its last element is what lies behind the array.
pub mod Laws
pub mod Spec
pub mod Names
pub mod Loops
use embedded_project_exam.Base.{
  ℕ, Bool, true, false, not, ◌&&◌, ◌||◌, Option, none, some, List, [], ◌∷◌, if◌then◌else◌, ◌>>=◌,
  ◌==◌,
}
use embedded_project_exam.CString.{strcmp}
use embedded_project_exam.Protocol.{Packet}

-- struct Topic: `name` is NULL or points at the header option of the packet at an address.
pub record Topic : Type 0 where
  pub name : Option ℕ
  pub ips : List ℕ

-- The packets that lie on the stack, by address.
abbrev pub Memory : Type 0
Memory = ℕ → Packet

abbrev pub is_null : Option ℕ → Bool
is_null none = true
is_null (some a) = false

-- `topics[i].name != NULL && !strcmp(topics[i].name, option)`
unfoldable pub matches : Memory → List ℕ → Topic → Option Bool
matches m option t = elim t.name [ none ↦ some false | some a ↦ strcmp (m a).header_option option ]

-- `&topics[i].ips[j] == NULL`: the address of an array's element is never NULL.
abbrev pub slot_address_is_null : ℕ → Bool
slot_address_is_null ip = false

-- The loop over `topics[i].ips` of a subscription to a topic that exists.
unfoldable pub fill_ips : ℕ → List ℕ → List ℕ
fill_ips addr [] = []
fill_ips addr (ip ∷ ips) = (if slot_address_is_null ip then addr else ip) ∷ fill_ips addr ips

-- The first loop of a subscription: the table, and `exist`.
unfoldable pub enroll : Memory → List ℕ → ℕ → List Topic → Option (List Topic × Bool)
unfolding matches fill_ips
enroll m option addr [] = some ([], false)
enroll m option addr (t ∷ ts) = do
  hit ← matches m option t
  (ts', exist) ← enroll m option addr ts
  some ((if hit then record t { ips = fill_ips addr t.ips } else t) ∷ ts', hit || exist)

-- The second loop: the first slot with no name takes `tp`; the flag is `created`.
unfoldable pub claim_slot : Topic → Bool → List Topic → List Topic
claim_slot tp created [] = []
claim_slot tp created (t ∷ ts) =
    let free = is_null t.name && not created in
    (if free then tp else t) ∷ claim_slot tp (created || free) ts

-- `tp.ips[0] = *destAddr`; the rest of `tp.ips` is not initialised.
abbrev pub set_first : ℕ → List ℕ → List ℕ
set_first addr [] = []
set_first addr (ip ∷ ips) = addr ∷ ips

-- The stack frame of a call of handleMessage: where its packet lies, and what `tp` holds.
pub record Frame : Type 0 where
  pub at : ℕ
  pub tp : Topic

-- Both loops of the SUBSCRIBE case.
unfoldable pub subscribe_topic : Memory → List ℕ → ℕ → Frame → List Topic → Option (List Topic)
unfolding enroll claim_slot
subscribe_topic m option addr f topics = do
  (topics', exist) ← enroll m option addr topics
  some (
      if exist
      then topics'
      else claim_slot (record { name = some f.at; ips = set_first addr f.tp.ips }) false topics')

-- The parameter `packetRcv` of a call is stored in its frame.
abbrev pub store : Memory → ℕ → Packet → Memory
store m a p b = if a == b then p else m b
