-- ===== src/Nodes/Routed.antt =====
-- Who gets a message that a worker routes.
use embd_project.Prelude.{◌≡◌, ◌≢◌, refl, Bool, [], ◌∷◌, arith, ◌==◌, any, if◌then◌else◌}
use embd_project.Message.{Message}
use embd_project.Queue.{message, add, get}
use embd_project.Queue.Store.{Ptr, Store, write}
use embd_project.Router.Delivery.{add_idem}
use embd_project.Nodes.{Node, NodeSet, NodeRouter, send_all, work}

-- Whether a set leads to a node with this send queue.
abbrev pub sends_to : Ptr → NodeSet → Bool
sends_to p = any λ e. e.1.snd_q == p

-- Where the loop ends, whatever the order in which Go ranges over the set.
send_all_lem :
    (msg : Message) (set : NodeSet) (σ : Store) (p : Ptr)
    → send_all msg set σ p ≡ (if sends_to p set then add msg (σ p) else σ p)
unfolding send_all
send_all_lem msg [] σ p = refl
send_all_lem msg ((k, n) ∷ set) σ p =
    ground
      (arith, send_all_lem msg set (write n.snd_q (add msg (σ n.snd_q)) σ) p, add_idem msg (σ p))

-- When a worker takes a message off its node's receive queue, then exactly the send queues of the
-- nodes that subscribe to the message's type are offered the message, that of the node which it came
-- from not excepted, each of them once; every other queue but the receive queue is left as it was.
pub work-routes :
    (node : Node) (r : NodeRouter) (msg : Message) (p : Ptr)
    → (get (r.queues node.rcv_q)).1 ≡ message msg
    → node.rcv_q ≢ p
    → (work node r).0.queues p
      ≡ (if sends_to p (r.routes msg.id.typ) then add msg (r.queues p) else r.queues p)
unfolding work
work-routes node r msg p g n = ground (
  arith,
  send_all_lem msg (r.routes msg.id.typ) (write node.rcv_q (get (r.queues node.rcv_q)).0 r.queues)
      p,
)
