-- ===== src/Nodes.antt =====
-- common/messagerouter/messagerouter.go: the router of a master node, which knows the nodes of a
-- network, their queues and their subscriptions.
-- A Go map is an association list, and a nil set of nodes is the empty one. The queues are addresses
-- in a store. Each method holds the router's mutex; a worker goroutine runs one `work` after another.
pub mod Linked
pub mod Removed
pub mod Routed
use embd_project.Prelude.{
  ℕ, zero, suc, ◌+◌, String, Bool, true, false, List, [], ◌∷◌, ◌++◌, Option, none, some, ◌==◌,
  str_eq, if◌then◌else◌,
}
use embd_project.Prelude.Maps.{lookup, insert, delete}
use embd_project.Errors.{Error, no_entry_for_node}
use embd_project.Message.{MessageType, Message}
use embd_project.Queue.{Queue, new_queue, waits, message, shutdown, add, get, done, shut_down}
use embd_project.Queue.Store.{Ptr, Store, write}
use embd_project.Router.{Listened, idle, stopped, routed}

-- `NodeQueues`
pub record Node : Type 0 where
  pub id : String
  pub rcv_q : Ptr
  pub snd_q : Ptr

-- `RouteEntry`
pub record RouteEntry : Type 0 where
  pub msg_type : MessageType
  pub node_id : String

abbrev pub NodeSet : Type 0
NodeSet = List (String × Node)

-- `CentralizedMessageRouter`, with the queues that were allocated for it and the nodes for which a
-- worker was started.
pub record NodeRouter : Type 0 where
  pub routes : MessageType → NodeSet
  pub nodes : NodeSet
  pub queues : Store
  pub next_ptr : Ptr
  pub workers : List Node

unfoldable pub new_node_router : Store → Ptr → NodeRouter
new_node_router σ p = record {
  routes = λ _. [];
  nodes = [];
  queues = σ;
  next_ptr = p;
  workers = [];
}

-- `r.routes[t] = set`
abbrev pub set_nodes : MessageType → NodeSet → NodeRouter → NodeRouter
set_nodes t set r = record r { routes = λ u. if t == u then set else r.routes u }

unfoldable pub add_route : RouteEntry → NodeRouter → NodeRouter × Option Error
add_route e r = elim (lookup e.node_id r.nodes) [
  | none ↦ (r, some (no_entry_for_node e.node_id))
  | some n ↦ (set_nodes e.msg_type (insert e.node_id n (r.routes e.msg_type)) r, none)
]

abbrev pub copies : ℕ → Node → List Node
copies zero n = []
copies (suc k) n = n ∷ copies k n

-- The queues of a node that is new to the router.
abbrev pub new_node : String → NodeRouter → Node
new_node id r = record { id = id; rcv_q = r.next_ptr; snd_q = r.next_ptr + 1 }

unfoldable pub add_node : String → ℕ → NodeRouter → NodeRouter × Node
add_node id worker_count r = elim (lookup id r.nodes) [
  | some n ↦ (r, n)
  | none ↦ (
    record r {
      nodes = insert id (new_node id r) r.nodes;
      queues = write (r.next_ptr + 1) (new_queue id) (write r.next_ptr (new_queue id) r.queues);
      next_ptr = r.next_ptr + 2;
      workers = r.workers ++ copies worker_count (new_node id r);
    },
    new_node id r,
  )
]

-- Both queues of a node, shut down.
abbrev pub shut_node : Node → Store → Store
shut_node n σ =
    let σ' = write n.rcv_q (shut_down (σ n.rcv_q)) σ in write n.snd_q (shut_down (σ' n.snd_q)) σ'

unfoldable pub remove_node : String → NodeRouter → NodeRouter × Bool
remove_node id r = elim (lookup id r.nodes) [
  | none ↦ (r, false)
  | some n ↦ (
    record r {
      routes = λ t. delete id (r.routes t);
      nodes = delete id r.nodes;
      queues = shut_node n r.queues;
    },
    true,
  )
]

unfoldable pub get_node : String → NodeRouter → Option Node
get_node id r = lookup id r.nodes

-- The loop of `Stop`, over the nodes that were there when it began.
unfoldable pub remove_all : NodeSet → NodeRouter → NodeRouter
remove_all [] r = r
remove_all ((k, n) ∷ ns) r = remove_all ns (remove_node n.id r).0

unfoldable pub stop : NodeRouter → NodeRouter
stop r = remove_all r.nodes r

-- The loop of a worker that puts a message into the send queue of every node of a set.
unfoldable pub send_all : Message → NodeSet → Store → Store
send_all msg [] σ = σ
send_all msg ((k, n) ∷ set) σ = send_all msg set (write n.snd_q (add msg (σ n.snd_q)) σ)

-- One round of a worker.
unfoldable pub work : Node → NodeRouter → NodeRouter × Listened
unfolding send_all
work node r =
    let (q, got) = get (r.queues node.rcv_q) in
    elim got [
      | waits ↦ (r, idle)
      | message msg ↦
          let σ = send_all msg (r.routes msg.id.typ) (write node.rcv_q q r.queues) in
          (record r { queues = write node.rcv_q (done msg (σ node.rcv_q)) σ }, routed msg)
      | shutdown ↦ (r, stopped)
    ]
