-- ===== src/Machine/Routes.antt =====
-- What the routes of a machine keep while its parts come and go.
use embd_project.Prelude.{
  ℕ, ◌+◌, ◌<◌, String, ◌≡◌, refl, inl, inr, List, [], ◌∷◌, some, arith, All, All-append,
  Option-cases,
}
use embd_project.Message.{MessageType, message_type_value}
use embd_project.Queue.Store.{Ptr, Store}
use embd_project.Router.{
  MessageRouter, has_queue, take_out, add_subscriber_queue, remove_subscriber_queue,
}
use embd_project.Router.Subscriptions.{
  IsValid, DistinctIds, add_subscriber_queue-IsValid, remove_subscriber_queue-IsValid,
}
use embd_project.Machine.{Machine, subscribe_all, unsubscribe_all, alloc_both}
use embd_project.Machine.Unsubscribed.{SameIds, DistinctIds-SameIds}

-- Every queue of a set was allocated.
abbrev pub Below : ℕ → List Ptr → Type 0
Below n = All (λ p. p < n)

abbrev pub AllBelow : ℕ → MessageRouter → Type 0
AllBelow n r = (t : MessageType) → Below n (r.route_map t)

-- The routes lead to allocated queues, and no two queues of one set have one id.
pub record SoundRoutes (n : ℕ) (σ : Store) (r : MessageRouter) : Type 0 where
  pub valid : IsValid σ r
  pub below : AllBelow n r

add_subscriber_queue-AllBelow :
    (t : String) (n : ℕ) (p : Ptr) (σ : Store) (r : MessageRouter)
    → p < n
    → AllBelow n r
    → AllBelow n (add_subscriber_queue t p σ r).0
unfolding add_subscriber_queue
add_subscriber_queue-AllBelow t n p σ r lt b u =
    ground (arith, b u, All-append (λ q. q < n) (r.route_map u) (p ∷ []) (b u) (lt, tt))

take_out-Below :
    (σ : Store) (id : String) (n : ℕ) (set : List Ptr) (q : Ptr) (left : List Ptr)
    → take_out σ id set ≡ some (q, left)
    → Below n set
    → Below n left
unfolding take_out
take_out-Below σ id n [] q left h b = absurd cc
take_out-Below σ id n (p ∷ set) q left h b = elim (Option-cases (take_out σ id set)) [
  | inl e ↦ ground (arith, b.1)
  | inr ((q', left'), e) ↦ ground (arith, b, take_out-Below σ id n set q' left' e b.1)
]

remove_subscriber_queue-AllBelow :
    (t id : String) (n : ℕ) (σ : Store) (r : MessageRouter)
    → AllBelow n r
    → AllBelow n (remove_subscriber_queue t id σ r).0
unfolding remove_subscriber_queue
remove_subscriber_queue-AllBelow t id n σ r b u = elim (Option-cases (message_type_value t)) [
  | inl e ↦ ground (arith, b u)
  | inr (k, e) ↦ elim (Option-cases (take_out σ id (r.route_map k))) [
    | inl f ↦ ground (arith, b u)
    | inr ((q, left), f) ↦ ground (arith, b u, take_out-Below σ id n (r.route_map k) q left f (b k))
  ]
]

pub subscribe_all-SoundRoutes :
    (ts : List String) (n : ℕ) (p : Ptr) (σ : Store) (r : MessageRouter)
    → p < n
    → SoundRoutes n σ r
    → SoundRoutes n σ (subscribe_all ts p σ r).0
unfolding subscribe_all
subscribe_all-SoundRoutes [] n p σ r lt s = s
subscribe_all-SoundRoutes (t ∷ ts) n p σ r lt s =
    let r' = (add_subscriber_queue t p σ r).0 in
    let s' : SoundRoutes n σ r' = record {
      valid = add_subscriber_queue-IsValid t p σ r s.valid;
      below = add_subscriber_queue-AllBelow t n p σ r lt s.below;
    } in
    elim (Option-cases (add_subscriber_queue t p σ r).1) [
      | inl e ↦ rw (subscribe_all, e) (subscribe_all-SoundRoutes ts n p σ r' lt s')
      | inr (x, e) ↦ rw (subscribe_all, e) s'
    ]

pub unsubscribe_all-SoundRoutes :
    (ts : List String) (id : String) (n : ℕ) (σ : Store) (r : MessageRouter)
    → SoundRoutes n σ r
    → SoundRoutes n σ (unsubscribe_all ts id σ r).0
unfolding unsubscribe_all
unsubscribe_all-SoundRoutes [] id n σ r s = s
unsubscribe_all-SoundRoutes (t ∷ ts) id n σ r s =
    let r' = (remove_subscriber_queue t id σ r).0 in
    let s' : SoundRoutes n σ r' = record {
      valid = remove_subscriber_queue-IsValid t id σ r s.valid;
      below = remove_subscriber_queue-AllBelow t id n σ r s.below;
    } in
    elim (Option-cases (remove_subscriber_queue t id σ r).1) [
      | inl e ↦ rw (unsubscribe_all, e) (unsubscribe_all-SoundRoutes ts id n σ r' s')
      | inr (x, e) ↦ rw (unsubscribe_all, e) s'
    ]

-- Queues that were shut down keep their ids.
pub SoundRoutes-SameIds :
    (n : ℕ) (σ τ : Store) (r : MessageRouter) → SameIds σ τ → SoundRoutes n σ r → SoundRoutes n τ r
SoundRoutes-SameIds n σ τ r same s = record {
  valid = λ t. DistinctIds-SameIds σ τ (r.route_map t) same (s.valid t);
  below = s.below;
}

alloc_both-q_id :
    (id : String) (m : Machine) (p : Ptr)
    → p < m.next_ptr
    → (alloc_both id m p).q_id ≡ (m.queues p).q_id
alloc_both-q_id id m p lt = ground arith

alloc_both-has_queue :
    (id j : String) (m : Machine) (set : List Ptr)
    → Below m.next_ptr set
    → has_queue (alloc_both id m) j set ≡ has_queue m.queues j set
alloc_both-has_queue id j m [] b = refl
alloc_both-has_queue id j m (p ∷ set) b =
    ground (arith, alloc_both-q_id id m p b.0, alloc_both-has_queue id j m set b.1)

alloc_both-DistinctIds :
    (id : String) (m : Machine) (set : List Ptr)
    → Below m.next_ptr set
    → DistinctIds m.queues set
    → DistinctIds (alloc_both id m) set
alloc_both-DistinctIds id m [] b d = tt
alloc_both-DistinctIds id m (p ∷ set) b d = (
  ground
      (arith, alloc_both-q_id id m p b.0, alloc_both-has_queue id (m.queues p).q_id m set b.1, d.0),
  alloc_both-DistinctIds id m set b.1 d.1,
)

Below-weaken : (n k : ℕ) (set : List Ptr) → Below n set → Below (n + k) set
Below-weaken n k [] b = tt
Below-weaken n k (p ∷ set) b = (omega (arith, b.0), Below-weaken n k set b.1)

pub alloc_both-SoundRoutes :
    (id : String) (m : Machine)
    → SoundRoutes m.next_ptr m.queues m.msg_router
    → SoundRoutes (m.next_ptr + 2) (alloc_both id m) m.msg_router
alloc_both-SoundRoutes id m s = record {
  valid = λ t. alloc_both-DistinctIds id m (m.msg_router.route_map t) (s.below t) (s.valid t);
  below = λ t. Below-weaken m.next_ptr 2 (m.msg_router.route_map t) (s.below t);
}
