-- ===== src/Nodes/Linked.antt =====
-- common/messagerouter/messagerouter.go: where the routes lead.
use embd_project.Prelude.{
  ℕ, String, ◌≡◌, inl, inr, List, [], ◌∷◌, some, arith, eq_iff, Option-cases,
}
use embd_project.Prelude.Maps.{lookup, lookup-insert, lookup-delete}
use embd_project.Message.{MessageType}
use embd_project.Queue.Store.{Ptr, Store}
use embd_project.Nodes.{
  Node, RouteEntry, NodeRouter, new_node_router, new_node, add_route, add_node, remove_node, stop,
  remove_all, work,
}

-- A route to an id leads to the node of this id, and the node is one that the router knows.
abbrev pub IsLinked : NodeRouter → Type 0
IsLinked r =
    (t : MessageType) (id : String) (n : Node)
    → lookup id (r.routes t) ≡ some n
    → (lookup id r.nodes ≡ some n)

-- The nodes are entered under their ids.
abbrev pub IsKeyed : NodeRouter → Type 0
IsKeyed r = (id : String) (n : Node) → lookup id r.nodes ≡ some n → n.id ≡ id

pub record IsValid (r : NodeRouter) : Type 0 where
  pub linked : IsLinked r
  pub keyed : IsKeyed r

-- A call of the router, or a round of a worker.
pub data Call : Type 0 where
  adds_route : RouteEntry → Call
  adds_node : String → ℕ → Call
  removes_node : String → Call
  stops : Call
  works : Node → Call

unfoldable pub step : NodeRouter → Call → NodeRouter
step r (adds_route e) = (add_route e r).0
step r (adds_node id k) = (add_node id k r).0
step r (removes_node id) = (remove_node id r).0
step r stops = stop r
step r (works n) = (work n r).0

unfoldable pub run : NodeRouter → List Call → NodeRouter
unfolding step
run r [] = r
run r (c ∷ cs) = run (step r c) cs

pub add_route-IsValid : (e : RouteEntry) (r : NodeRouter) → IsValid r → IsValid (add_route e r).0
unfolding add_route
add_route-IsValid e r v = elim (Option-cases (lookup e.node_id r.nodes)) [
  | inl f ↦ ground (arith, v)
  | inr (n, f) ↦ record {
    linked = λ t id x h. ground (
      arith,
      f,
      v.linked t id x,
      lookup-insert e.node_id id n (r.routes e.msg_type),
      eq_iff e.node_id id,
    );
    keyed = λ id x h. ground (arith, f, v.keyed id x);
  }
]

pub add_node-IsValid :
    (id : String) (k : ℕ) (r : NodeRouter) → IsValid r → IsValid (add_node id k r).0
unfolding add_node
add_node-IsValid id k r v = elim (Option-cases (lookup id r.nodes)) [
  | inr (n, f) ↦ ground (arith, v)
  | inl f ↦ record {
    linked = λ t j x h.
        ground (arith, f, v.linked t j x, lookup-insert id j (new_node id r) r.nodes, eq_iff id j);
    keyed = λ j x h.
        ground (arith, f, v.keyed j x, lookup-insert id j (new_node id r) r.nodes, eq_iff id j);
  }
]

pub remove_node-IsValid : (id : String) (r : NodeRouter) → IsValid r → IsValid (remove_node id r).0
unfolding remove_node
remove_node-IsValid id r v = elim (Option-cases (lookup id r.nodes)) [
  | inl f ↦ ground (arith, v)
  | inr (n, f) ↦ record {
    linked = λ t j x h.
        ground
          (arith, f, v.linked t j x, lookup-delete id j (r.routes t), lookup-delete id j r.nodes);
    keyed = λ j x h. ground (arith, f, v.keyed j x, lookup-delete id j r.nodes);
  }
]

remove_all-IsValid :
    (ns : List (String × Node)) (r : NodeRouter) → IsValid r → IsValid (remove_all ns r)
unfolding remove_all
remove_all-IsValid [] r v = v
remove_all-IsValid ((k, n) ∷ ns) r v =
    remove_all-IsValid ns (remove_node n.id r).0 (remove_node-IsValid n.id r v)

pub work-IsValid : (n : Node) (r : NodeRouter) → IsValid r → IsValid (work n r).0
unfolding work
work-IsValid n r v = record {
  linked = λ t j x h. ground (arith, v.linked t j x);
  keyed = λ j x h. ground (arith, v.keyed j x);
}

step-IsValid : (r : NodeRouter) (c : Call) → IsValid r → IsValid (step r c)
unfolding step stop
step-IsValid r (adds_route e) v = add_route-IsValid e r v
step-IsValid r (adds_node id k) v = add_node-IsValid id k r v
step-IsValid r (removes_node id) v = remove_node-IsValid id r v
step-IsValid r stops v = remove_all-IsValid r.nodes r v
step-IsValid r (works n) v = work-IsValid n r v

run-IsValid : (r : NodeRouter) (cs : List Call) → IsValid r → IsValid (run r cs)
unfolding run
run-IsValid r [] v = v
run-IsValid r (c ∷ cs) v = run-IsValid (step r c) cs (step-IsValid r c v)

pub new_node_router-IsValid : (σ : Store) (p : Ptr) → IsValid (new_node_router σ p)
unfolding new_node_router lookup
new_node_router-IsValid σ p = record { linked = λ t id n h. cc; keyed = λ id n h. cc }

-- After any calls on a new router, in any order, a route to an id leads to the node which `GetNode`
-- returns for it, and that node bears the id: a route never leads to a node that was removed.
pub run-new_node_router-IsValid :
    (σ : Store) (p : Ptr) (cs : List Call) → IsValid (run (new_node_router σ p) cs)
run-new_node_router-IsValid σ p cs = run-IsValid _ cs (new_node_router-IsValid σ p)
