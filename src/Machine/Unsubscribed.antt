-- ===== src/Machine/Unsubscribed.antt =====
-- What the unsubscribing loop and the shutdown of a part's queues do, for drivers and controllers.
use embd_project.Prelude.{
  String, ◌≡◌, ◌≢◌, inl, inr, refl, Bool, true, false, ◌&&◌, List, [], ◌∷◌, none, some, arith,
  str_eq, any, if◌then◌else◌, Option-cases, ◌==◌,
}
use embd_project.Errors.{unknown_message_type}
use embd_project.Message.{MessageType, message_type_value}
use embd_project.Queue.{shut_down}
use embd_project.Queue.Store.{Ptr, Store}
use embd_project.Router.{MessageRouter, has_queue, remove_subscriber_queue}
use embd_project.Router.Subscriptions.{
  IsValid, DistinctIds, remove_subscriber_queue-IsValid, remove_subscriber_queue-ok,
}
use embd_project.Machine.{unsubscribe_all, shut_both}

abbrev pub names_type : MessageType → String → Bool
names_type k t = elim (message_type_value t) [ none ↦ false | some u ↦ u == k ]

abbrev pub is_unknown : String → Bool
is_unknown t = elim (message_type_value t) [ none ↦ true | some u ↦ false ]

-- A type with no name cannot be unsubscribed.
remove_subscriber_queue-unknown :
    (t id : String) (σ : Store) (r : MessageRouter)
    → message_type_value t ≡ none
    → (remove_subscriber_queue t id σ r).1 ≡ some (unknown_message_type t)
unfolding remove_subscriber_queue
remove_subscriber_queue-unknown t id σ r e = ground arith

pub unsubscribe_all-ok :
    (ts : List String) (id j : String) (k : MessageType) (σ : Store) (r : MessageRouter)
    → IsValid σ r
    → (unsubscribe_all ts id σ r).1 ≡ none
    → has_queue σ j ((unsubscribe_all ts id σ r).0.route_map k)
      ≡ (if any (names_type k) ts && str_eq j id then false else has_queue σ j (r.route_map k))
unfolding unsubscribe_all
unsubscribe_all-ok [] id j k σ r v h = refl
unsubscribe_all-ok (t ∷ ts) id j k σ r v h = elim (Option-cases (message_type_value t)) [
  | inl e ↦ ground (arith, remove_subscriber_queue-unknown t id σ r e)
  | inr (u, e) ↦ ground (
    arith,
    remove_subscriber_queue-ok t id j u k σ r v e,
    unsubscribe_all-ok ts id j k σ (remove_subscriber_queue t id σ r).0
        (remove_subscriber_queue-IsValid t id σ r v),
  )
]

pub unsubscribe_all-unknown :
    (ts : List String) (id : String) (σ : Store) (r : MessageRouter)
    → any is_unknown ts ≡ true
    → (unsubscribe_all ts id σ r).1 ≢ none
unfolding unsubscribe_all
unsubscribe_all-unknown [] id σ r u h = cc
unsubscribe_all-unknown (t ∷ ts) id σ r u h = elim (Option-cases (message_type_value t)) [
  | inl e ↦ ground (arith, remove_subscriber_queue-unknown t id σ r e)
  | inr (k, e) ↦
      ground (arith, unsubscribe_all-unknown ts id σ (remove_subscriber_queue t id σ r).0)
]

-- A store in which queues were shut down has the same ids.
abbrev pub SameIds : Store → Store → Type 0
SameIds σ τ = (p : Ptr) → (σ p).q_id ≡ (τ p).q_id

pub has_queue-SameIds :
    (σ τ : Store) (id : String) (set : List Ptr)
    → SameIds σ τ
    → has_queue σ id set ≡ has_queue τ id set
has_queue-SameIds σ τ id [] s = refl
has_queue-SameIds σ τ id (p ∷ set) s = ground (arith, s p, has_queue-SameIds σ τ id set s)

pub DistinctIds-SameIds :
    (σ τ : Store) (set : List Ptr) → SameIds σ τ → DistinctIds σ set → DistinctIds τ set
DistinctIds-SameIds σ τ [] s d = tt
DistinctIds-SameIds σ τ (p ∷ set) s d =
    (ground (arith, s p, has_queue-SameIds σ τ (σ p).q_id set s), DistinctIds-SameIds σ τ set s d.1)

pub shut_both-SameIds : (p q : Ptr) (σ : Store) → SameIds σ (shut_both p q σ)
unfolding shut_down
shut_both-SameIds p q σ r = ground arith

pub shut_both-shut :
    (p q : Ptr) (σ : Store)
    → ((shut_both p q σ p).shutting_down ≡ true) × ((shut_both p q σ q).shutting_down ≡ true)
unfolding shut_down
shut_both-shut p q σ = ground arith
