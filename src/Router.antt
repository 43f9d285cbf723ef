-- ===== src/Router.antt =====
-- common/message/message.go, `MessageRouter`: message types to subscriber queues.
-- A `*Queue` is an address in a store. `RouteMap` is a function, since a missing key reads as the
-- empty slice. Each listener goroutine runs one `listen` after another.
pub mod Delivery
pub mod Subscriptions
use embd_project.Prelude.{
  String, ℕ, Bool, List, [], ◌∷◌, ◌++◌, Option, none, some, ◌==◌, str_eq, length, any,
  if◌then◌else◌, not,
}
use embd_project.Errors.{
  Error, unknown_message_type, queue_shutting_down, queue_not_empty, queue_not_shut_down,
}
use embd_project.Message.{MessageType, Message, message_type_value}
use embd_project.Queue.{Queue, waits, message, shutdown, add, get, done, len}
use embd_project.Queue.Store.{Ptr, Store, write}

pub record MessageRouter : Type 0 where
  pub route_map : MessageType → List Ptr

unfoldable pub new_message_router : MessageRouter
new_message_router = record { route_map = λ _. [] }

-- `m.RouteMap[t] = set`
abbrev pub set_routes : MessageType → List Ptr → MessageRouter → MessageRouter
set_routes t set m = record { route_map = λ u. if t == u then set else m.route_map u }

-- Whether a queue of the set has this id.
abbrev pub has_queue : Store → String → List Ptr → Bool
has_queue σ id = any λ p. str_eq id (σ p).q_id

subscribe : Store → MessageType → Ptr → MessageRouter → MessageRouter
subscribe σ t p m =
    if has_queue σ (σ p).q_id (m.route_map t) then m else set_routes t (m.route_map t ++ p ∷ []) m

unfoldable pub add_subscriber_queue :
    String → Ptr → Store → MessageRouter → MessageRouter × Option Error
unfolding subscribe
add_subscriber_queue msg_type p σ m = elim (message_type_value msg_type) [
  | none ↦ (m, some (unknown_message_type msg_type))
  | some t ↦
      if (σ p).shutting_down
      then (m, some (queue_shutting_down (σ p).q_id msg_type))
      else if not (len (σ p) == 0)
      then (m, some (queue_not_empty (σ p).q_id msg_type (len (σ p))))
      else (subscribe σ t p m, none)
]

-- The search of `RemoveSubscriberQueue`: the set with its first queue of this id taken out, and
-- that queue.
unfoldable pub take_out : Store → String → List Ptr → Option (Ptr × List Ptr)
take_out σ id [] = none
take_out σ id (p ∷ set) =
    let rest = take_out σ id set in
    if str_eq id (σ p).q_id
    then some (p, set)
    else elim rest [ none ↦ none | some (q, left) ↦ some (q, p ∷ left) ]

unsubscribe : Store → String → String → MessageType → MessageRouter → MessageRouter × Option Error
unfolding take_out
unsubscribe σ msg_type sub_id t m = elim (take_out σ sub_id (m.route_map t)) [
  | none ↦ (m, none)
  | some (q, left) ↦
      if not (σ q).shutting_down
      then (m, some (queue_not_shut_down sub_id msg_type))
      else (set_routes t left m, none)
]

unfoldable pub remove_subscriber_queue :
    String → String → Store → MessageRouter → MessageRouter × Option Error
unfolding unsubscribe
remove_subscriber_queue msg_type sub_id σ m = elim (message_type_value msg_type) [
  | none ↦ (m, some (unknown_message_type msg_type))
  | some t ↦ unsubscribe σ msg_type sub_id t m
]

unfoldable pub get_subscribers : String → MessageRouter → List Ptr
get_subscribers msg_type m = elim (message_type_value msg_type) [
  | none ↦ []
  | some t ↦ m.route_map t
]

-- One round of the loop below.
unfoldable pub offer : Ptr → Message → Ptr → Store → Store
offer sender msg p σ = if str_eq (σ sender).q_id (σ p).q_id then σ else write p (add msg (σ p)) σ

-- The inner loop of `AddListener`: every queue of the set but the sender's own gets the message.
unfoldable pub forward : Ptr → Message → List Ptr → Store → Store
forward sender msg [] σ = σ
forward sender msg (p ∷ set) σ = forward sender msg set (offer sender msg p σ)

pub data Listened : Type 0 where
  idle stopped : Listened
  routed : Message → Listened

-- One round of the goroutine that `AddListener` starts on a send queue.
unfoldable pub listen : MessageRouter → Ptr → Store → Store × Listened
unfolding forward
listen m sender σ =
    let (q, got) = get (σ sender) in
    elim got [
      | waits ↦ (σ, idle)
      | message msg ↦
          let σ' = forward sender msg (m.route_map msg.id.typ) (write sender q σ) in
          (write sender (done msg (σ' sender)) σ', routed msg)
      | shutdown ↦ (σ, stopped)
    ]
