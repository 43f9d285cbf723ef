-- ===== src/Queue.antt =====
-- common/message/queue.go: the work queue behind every driver, controller and router node.
-- A set of identities is its membership function; each method runs under the queue's lock, so a
-- history of a queue is a list of whole method calls.
pub mod Identity
pub mod NoLoss
pub mod Stingy
pub mod Drain
pub mod Reenqueue
pub mod Store
use embd_project.Prelude.{String, ℕ, Bool, true, false, List, [], ◌∷◌, ◌++◌, length, if◌then◌else◌}
use embd_project.Message.{MessageId, Message, id_eq}

abbrev pub IdSet : Type 0
IdSet = MessageId → Bool

-- `s[id] = struct{}{}`
abbrev pub with_id : IdSet → MessageId → IdSet
with_id s id j = if id_eq id j then true else s j

-- `delete(s, id)`
abbrev pub without_id : IdSet → MessageId → IdSet
without_id s id j = if id_eq id j then false else s j

pub record Queue : Type 0 where
  pub q_id : String
  pub queue : List Message
  pub dirty : IdSet
  pub processing : IdSet
  pub shutting_down : Bool

unfoldable pub new_queue : String → Queue
new_queue id = record {
  q_id = id;
  queue = [];
  dirty = λ _. false;
  processing = λ _. false;
  shutting_down = false;
}

unfoldable pub add : Message → Queue → Queue
add msg q =
    if q.shutting_down
    then q
    else if q.dirty msg.id
    then q
    else let q' = record q { dirty = with_id q.dirty msg.id } in
      if q.processing msg.id then q' else record q' { queue = q.queue ++ msg ∷ [] }

-- What `Get` does: it waits while the queue is empty, hands over a message, or reports shutdown.
pub data Got : Type 0 where
  waits : Got
  message : Message → Got
  shutdown : Got

take_head : Queue → List Message → Queue × Got
take_head q [] = (q, if q.shutting_down then shutdown else waits)
take_head q (msg ∷ rest) = (
  record q {
    queue = rest;
    processing = with_id q.processing msg.id;
    dirty = without_id q.dirty msg.id;
  },
  message msg,
)

unfoldable pub get : Queue → Queue × Got
unfolding take_head
get q = take_head q q.queue

unfoldable pub done : Message → Queue → Queue
done msg q =
    let q' = record q { processing = without_id q.processing msg.id } in
    if q.dirty msg.id
    then record q' { dirty = without_id q.dirty msg.id; queue = q.queue ++ msg ∷ [] }
    else q'

unfoldable pub shut_down : Queue → Queue
shut_down q = record q { shutting_down = true }

abbrev pub is_shutting_down : Queue → Bool
is_shutting_down q = q.shutting_down

abbrev pub len : Queue → ℕ
len q = length q.queue

-- One method call by a producer or a consumer.
pub data Call : Type 0 where
  adds : Message → Call
  gets : Call
  dones : Message → Call
  shuts_down : Call

unfoldable pub step : Queue → Call → Queue
unfolding add get done shut_down
step q (adds m) = add m q
step q gets = (get q).0
step q (dones m) = done m q
step q shuts_down = shut_down q

unfoldable pub run : Queue → List Call → Queue
unfolding step
run q [] = q
run q (c ∷ cs) = run (step q c) cs
