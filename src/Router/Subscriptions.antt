-- ===== src/Router/Subscriptions.antt =====
-- What subscribing and unsubscribing do to the routes.
use embd_project.Prelude.{
  String, ◌≡◌, ◌≢◌, ◌↔◌, ◌⊎◌, refl, true, false, ◌&&◌, ◌||◌, List, [], ◌∷◌, ◌++◌, none, some, arith,
  inl, inr, Option-cases, ◌==◌, str_eq, eq_iff, length-eq_zero, if◌then◌else◌,
}
use embd_project.Errors.{Error, unknown_message_type, queue_not_shut_down}
use embd_project.Message.{MessageType, message_type_value}
use embd_project.Queue.Store.{Ptr, Store}
use embd_project.Router.{
  MessageRouter, has_queue, take_out, add_subscriber_queue, remove_subscriber_queue,
}

-- No two queues of a set have one id.
abbrev pub DistinctIds : Store → List Ptr → Type 0
DistinctIds σ [] = Unit {0}
DistinctIds σ (p ∷ set) = (has_queue σ (σ p).q_id set ≡ false) × DistinctIds σ set

abbrev pub IsValid : Store → MessageRouter → Type 0
IsValid σ m = (t : MessageType) → DistinctIds σ (m.route_map t)

has_queue-snoc :
    (σ : Store) (id : String) (set : List Ptr) (p : Ptr)
    → has_queue σ id (set ++ p ∷ []) ≡ (has_queue σ id set || str_eq id (σ p).q_id)
has_queue-snoc σ id [] p = ground arith
has_queue-snoc σ id (r ∷ set) p = ground (arith, has_queue-snoc σ id set p)

DistinctIds-snoc :
    (σ : Store) (set : List Ptr) (p : Ptr)
    → has_queue σ (σ p).q_id set ≡ false
    → DistinctIds σ set
    → DistinctIds σ (set ++ p ∷ [])
DistinctIds-snoc σ [] p h d = (refl, tt)
DistinctIds-snoc σ (r ∷ set) p h d = (
  ground (
    arith,
    has_queue-snoc σ (σ r).q_id set p,
    eq_iff (σ r).q_id (σ p).q_id,
    eq_iff (σ p).q_id (σ r).q_id,
  ),
  DistinctIds-snoc σ set p (ground arith) d.1,
)

-- Subscribing keeps the ids of every set distinct.
pub add_subscriber_queue-IsValid :
    (t : String) (p : Ptr) (σ : Store) (m : MessageRouter)
    → IsValid σ m
    → IsValid σ (add_subscriber_queue t p σ m).0
unfolding add_subscriber_queue
add_subscriber_queue-IsValid t p σ m v u = ground (arith, v u, DistinctIds-snoc σ (m.route_map u) p)

take_out-none :
    (σ : Store) (id : String) (set : List Ptr)
    → take_out σ id set ≡ none
    → has_queue σ id set ≡ false
unfolding take_out
take_out-none σ id [] h = refl
take_out-none σ id (r ∷ set) h = ground (arith, take_out-none σ id set)

-- What is taken out has the id, and the other ids are where they were.
take_out-some :
    (σ : Store) (id : String) (set : List Ptr) (q : Ptr) (left : List Ptr) (j : String)
    → take_out σ id set ≡ some (q, left)
    → (str_eq id (σ q).q_id ≡ true)
      × (has_queue σ j set ≡ (str_eq j (σ q).q_id || has_queue σ j left))
unfolding take_out
take_out-some σ id [] q left j h = cc
take_out-some σ id (r ∷ set) q left j h = elim (Option-cases (take_out σ id set)) [
  | inl e ↦ ground arith
  | inr ((q', left'), e) ↦ ground (arith, take_out-some σ id set q' left' j e)
]

DistinctIds-take_out :
    (σ : Store) (id : String) (set : List Ptr) (q : Ptr) (left : List Ptr)
    → take_out σ id set ≡ some (q, left)
    → DistinctIds σ set
    → (has_queue σ id left ≡ false) × DistinctIds σ left
unfolding take_out
DistinctIds-take_out σ id [] q left h d = cc
DistinctIds-take_out σ id (r ∷ set) q left h d = elim (Option-cases (take_out σ id set)) [
  | inl e ↦ ground (arith, eq_iff id (σ r).q_id)
  | inr ((q', left'), e) ↦ ground (
    arith,
    DistinctIds-take_out σ id set q' left' e d.1,
    take_out-some σ id set q' left' (σ r).q_id e,
    eq_iff id (σ r).q_id,
    eq_iff id (σ q').q_id,
    eq_iff (σ r).q_id (σ q').q_id,
  )
]

-- Unsubscribing keeps the ids of every set distinct.
pub remove_subscriber_queue-IsValid :
    (t id : String) (σ : Store) (m : MessageRouter)
    → IsValid σ m
    → IsValid σ (remove_subscriber_queue t id σ m).0
unfolding remove_subscriber_queue
remove_subscriber_queue-IsValid t id σ m v u = elim (Option-cases (message_type_value t)) [
  | inl e ↦ ground (arith, v u)
  | inr (k, e) ↦ elim (Option-cases (take_out σ id (m.route_map k))) [
    | inl f ↦ ground (arith, v u)
    | inr ((q, left), f) ↦
        ground (arith, v u, DistinctIds-take_out σ id (m.route_map k) q left f (v k))
  ]
]

-- `RemoveSubscriberQueue` on routes whose ids are distinct: if it returns no error, then no queue of
-- this id is subscribed to the type any more, and every other subscription, of another id or to
-- another type, is as before.
pub remove_subscriber_queue-ok :
    (t id j : String) (k u : MessageType) (σ : Store) (m : MessageRouter)
    → IsValid σ m
    → message_type_value t ≡ some k
    → (remove_subscriber_queue t id σ m).1 ≡ none
    → has_queue σ j ((remove_subscriber_queue t id σ m).0.route_map u)
      ≡ (if k == u && str_eq j id then false else has_queue σ j (m.route_map u))
unfolding remove_subscriber_queue
remove_subscriber_queue-ok t id j k u σ m v e h =
    elim (Option-cases (take_out σ id (m.route_map k))) [
      | inl f ↦ ground (arith, take_out-none σ id (m.route_map k) f, eq_iff j id)
      | inr ((q, left), f) ↦ ground (
        arith,
        DistinctIds-take_out σ id (m.route_map k) q left f (v k),
        take_out-some σ id (m.route_map k) q left j f,
        eq_iff id (σ q).q_id,
        eq_iff j (σ q).q_id,
        eq_iff j id,
      )
    ]

-- `RemoveSubscriberQueue` returns an error only if the type has no name or the queue to remove is
-- still open, and then the routes are as they were.
pub remove_subscriber_queue-error :
    (t id : String) (σ : Store) (m : MessageRouter) (x : Error)
    → (remove_subscriber_queue t id σ m).1 ≡ some x
    → ((remove_subscriber_queue t id σ m).0 ≡ m)
      × ((x ≡ unknown_message_type t) ⊎ (x ≡ queue_not_shut_down id t))
unfolding remove_subscriber_queue
remove_subscriber_queue-error t id σ m x h = elim (Option-cases (message_type_value t)) [
  | inl e ↦ ground arith
  | inr (k, e) ↦ ground arith
]

-- `AddSubscriberQueue` succeeds exactly for a named type and an open, empty queue.
pub add_subscriber_queue-ok_iff :
    (t : String) (p : Ptr) (σ : Store) (m : MessageRouter)
    → ((add_subscriber_queue t p σ m).1 ≡ none)
      ↔ ((message_type_value t ≢ none) × ((σ p).shutting_down ≡ false) × ((σ p).queue ≡ []))
unfolding add_subscriber_queue
add_subscriber_queue-ok_iff t p σ m = (
  λ h. (λ e. ground arith, ground arith, ground (arith, length-eq_zero (σ p).queue)),
  λ h. ground arith,
)

-- When `AddSubscriberQueue` succeeds, then the queue's id is subscribed to the type, and every other
-- subscription is as before.
pub add_subscriber_queue-ok :
    (t j : String) (k u : MessageType) (p : Ptr) (σ : Store) (m : MessageRouter)
    → message_type_value t ≡ some k
    → (add_subscriber_queue t p σ m).1 ≡ none
    → has_queue σ j ((add_subscriber_queue t p σ m).0.route_map u)
      ≡ (if k == u && str_eq j (σ p).q_id then true else has_queue σ j (m.route_map u))
unfolding add_subscriber_queue
add_subscriber_queue-ok t j k u p σ m e h =
    ground (arith, has_queue-snoc σ j (m.route_map k) p, eq_iff j (σ p).q_id)

-- When `AddSubscriberQueue` fails, then the routes are as they were.
pub add_subscriber_queue-error :
    (t : String) (p : Ptr) (σ : Store) (m : MessageRouter) (x : Error)
    → (add_subscriber_queue t p σ m).1 ≡ some x
    → (add_subscriber_queue t p σ m).0 ≡ m
unfolding add_subscriber_queue
add_subscriber_queue-error t p σ m x h = elim (Option-cases (message_type_value t)) [
  | inl e ↦ ground arith
  | inr (k, e) ↦ ground arith
]
