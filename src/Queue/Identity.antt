-- ===== src/Queue/Identity.antt =====
-- Which identities stand in a list of messages.
use embd_project.Prelude.{
  ◌≡◌, refl, Bool, true, false, List, [], ◌∷◌, ◌++◌, arith, any, if◌then◌else◌,
}
use embd_project.Message.{MessageId, Message, id_eq, id_eq_iff}

abbrev pub has_id : MessageId → List Message → Bool
has_id id = any λ m. id_eq m.id id

-- No two messages have one identity.
abbrev pub Distinct : List Message → Type 0
Distinct [] = Unit {0}
Distinct (m ∷ ms) = (has_id m.id ms ≡ false) × Distinct ms

pub id_eq_refl : (a : MessageId) → id_eq a a ≡ true
id_eq_refl a = (id_eq_iff a a).1 refl

pub has_id-snoc :
    (id : MessageId) (ms : List Message) (m : Message)
    → has_id id (ms ++ m ∷ []) ≡ (if has_id id ms then true else id_eq m.id id)
has_id-snoc id [] m = ground arith
has_id-snoc id (x ∷ ms) m = ground (arith, has_id-snoc id ms m)

pub Distinct-snoc :
    (ms : List Message) (m : Message)
    → has_id m.id ms ≡ false
    → Distinct ms
    → Distinct (ms ++ m ∷ [])
Distinct-snoc [] m h d = (refl, tt)
Distinct-snoc (x ∷ ms) m h d = (
  ground (arith, has_id-snoc x.id ms m, id_eq_iff x.id m.id, id_eq_iff m.id x.id),
  Distinct-snoc ms m (ground arith) d.1,
)
