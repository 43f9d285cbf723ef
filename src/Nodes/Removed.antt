-- ===== src/Nodes/Removed.antt =====
-- What is left of nodes that were removed, one by one or by `Stop`.
use embd_project.Prelude.{
  String, ◌≡◌, inl, inr, refl, Bool, true, [], ◌∷◌, none, some, arith, str_eq, eq_iff, any,
  Option-cases, Bool-cases, if◌then◌else◌,
}
use embd_project.Prelude.Maps.{lookup, lookup-delete}
use embd_project.Message.{MessageType}
use embd_project.Queue.{shut_down}
use embd_project.Queue.Store.{Ptr}
use embd_project.Nodes.{Node, NodeSet, NodeRouter, remove_node, get_node, remove_all, stop}
use embd_project.Nodes.Linked.{IsValid, remove_node-IsValid}

abbrev pub IsShut : Ptr → NodeRouter → Type 0
IsShut p r = (r.queues p).shutting_down ≡ true

pub remove_node-IsShut :
    (id : String) (r : NodeRouter) (p : Ptr) → IsShut p r → IsShut p (remove_node id r).0
unfolding remove_node shut_down
remove_node-IsShut id r p h = ground arith

-- `RemoveNode` of a known node returns true; then `GetNode` and every set of routes know the node no
-- more, all other nodes and routes are as before, and both its queues are shut down.
pub remove_node-known :
    (id j : String) (t : MessageType) (n : Node) (r : NodeRouter)
    → get_node id r ≡ some n
    → let r' = (remove_node id r).0 in
      ((remove_node id r).1 ≡ true)
      × (get_node j r' ≡ (if str_eq id j then none else get_node j r))
      × (lookup j (r'.routes t) ≡ (if str_eq id j then none else lookup j (r.routes t)))
      × IsShut n.rcv_q r'
      × IsShut n.snd_q r'
unfolding remove_node get_node shut_down
remove_node-known id j t n r f = (
  ground arith,
  ground (arith, lookup-delete id j r.nodes),
  ground (arith, lookup-delete id j (r.routes t)),
  ground arith,
  ground arith,
)

get_node_lem : (id : String) (r : NodeRouter) → get_node id r ≡ lookup id r.nodes
unfolding get_node
get_node_lem id r = refl

removed : String → NodeSet → Bool
removed j = any λ e. str_eq e.1.id j

remove_node-nodes :
    (id j : String) (r : NodeRouter)
    → lookup j (remove_node id r).0.nodes ≡ (if str_eq id j then none else lookup j r.nodes)
unfolding remove_node
remove_node-nodes id j r = elim (Option-cases (lookup id r.nodes)) [
  | inl f ↦ ground (arith, eq_iff id j)
  | inr (n, f) ↦ ground (arith, lookup-delete id j r.nodes)
]

remove_all-nodes :
    (ns : NodeSet) (j : String) (r : NodeRouter)
    → lookup j (remove_all ns r).nodes ≡ (if removed j ns then none else lookup j r.nodes)
unfolding remove_all removed
remove_all-nodes [] j r = refl
remove_all-nodes ((k, n) ∷ ns) j r =
    ground (arith, remove_all-nodes ns j (remove_node n.id r).0, remove_node-nodes n.id j r)

lookup-removed :
    (ns : NodeSet) (j : String) (n : Node) → lookup j ns ≡ some n → n.id ≡ j → removed j ns ≡ true
unfolding lookup removed
lookup-removed [] j n e i = cc
lookup-removed ((k, x) ∷ ns) j n e i = ground (arith, lookup-removed ns j n, eq_iff n.id j)

remove_all-IsShut :
    (ns : NodeSet) (r : NodeRouter) (p : Ptr) → IsShut p r → IsShut p (remove_all ns r)
unfolding remove_all
remove_all-IsShut [] r p h = h
remove_all-IsShut ((k, n) ∷ ns) r p h =
    remove_all-IsShut ns (remove_node n.id r).0 p (remove_node-IsShut n.id r p h)

remove_all-IsValid : (ns : NodeSet) (r : NodeRouter) → IsValid r → IsValid (remove_all ns r)
unfolding remove_all
remove_all-IsValid [] r v = v
remove_all-IsValid ((k, n) ∷ ns) r v =
    remove_all-IsValid ns (remove_node n.id r).0 (remove_node-IsValid n.id r v)

-- A node that is known when the loop begins is shut by the time it ends.
remove_all-shuts :
    (ns : NodeSet) (j : String) (n : Node) (r : NodeRouter)
    → lookup j r.nodes ≡ some n
    → removed j ns ≡ true
    → IsShut n.rcv_q (remove_all ns r) × IsShut n.snd_q (remove_all ns r)
unfolding remove_all removed
remove_all-shuts [] j n r e h = cc
remove_all-shuts ((k, x) ∷ ns) j n r e h = elim (Bool-cases (str_eq x.id j)) [
  | inl hit ↦
      let known =
        remove_node-known x.id j 0 n r (ground (arith, eq_iff x.id j, get_node_lem x.id r)) in
      (
        remove_all-IsShut ns (remove_node x.id r).0 n.rcv_q known.3,
        remove_all-IsShut ns (remove_node x.id r).0 n.snd_q known.4,
      )
  | inr miss ↦
      remove_all-shuts ns j n (remove_node x.id r).0 (ground (arith, remove_node-nodes x.id j r))
        (ground arith)
]

remove_all_gone :
    (r : NodeRouter) → IsValid r → (j : String) → lookup j (remove_all r.nodes r).nodes ≡ none
remove_all_gone r v j = elim (Option-cases (lookup j r.nodes)) [
  | inl e ↦ ground (arith, remove_all-nodes r.nodes j r)
  | inr (n, e) ↦
      ground (arith, remove_all-nodes r.nodes j r, lookup-removed r.nodes j n e (v.keyed j n e))
]

-- On a router whose nodes and routes agree, `Stop` leaves no node and no route behind, and shuts
-- down both queues of every node that was there.
pub stop-IsValid :
    (r : NodeRouter)
    → IsValid r
    → ((j : String) → get_node j (stop r) ≡ none)
      × ((t : MessageType) (j : String) → lookup j ((stop r).routes t) ≡ none)
      × ((j : String) (n : Node)
          → get_node j r ≡ some n
          → IsShut n.rcv_q (stop r) × IsShut n.snd_q (stop r))
unfolding stop get_node
stop-IsValid r v =
    let gone = remove_all_gone r v in
    (
      gone,
      λ t j. elim (Option-cases (lookup j ((remove_all r.nodes r).routes t))) [
        | inl e ↦ e
        | inr (n, e) ↦
            absurd (ground (arith, gone j, (remove_all-IsValid r.nodes r v).linked t j n e))
      ],
      λ j n e. remove_all-shuts r.nodes j n r e (lookup-removed r.nodes j n e (v.keyed j n e)),
    )
