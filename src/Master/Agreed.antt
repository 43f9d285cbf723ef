-- ===== src/Master/Agreed.antt =====
-- What it means that the master and its router agree on the nodes.
use embd_project.Prelude.{
  ℕ, String, false, ◌≡◌, refl, inl, inr, List, [], ◌∷◌, none, some, arith, eq_iff, str_eq,
  Option-cases, if◌then◌else◌,
}
use embd_project.Prelude.Maps.{
  lookup, lookup-insert, lookup-delete, DistinctKeys, insert-DistinctKeys, delete-DistinctKeys,
}
use embd_project.Message.{MessageType}
use embd_project.Nodes.{RouteEntry, NodeRouter, add_route, add_node, remove_node, new_node}
use embd_project.Nodes.Linked.{IsValid, add_route-IsValid, add_node-IsValid, remove_node-IsValid}
use embd_project.Master.{
  Child, Master, new_child, add_routes, discover, refresh, heartbeat_handler, cleanup_node,
  cleanup_nodes,
}

-- The children are entered once each, under their ids, with the queues that the router has for them;
-- the router knows nobody else but the master itself, and its routes lead to nodes that it knows.
pub record Agreed (m : Master) : Type 0 where
  pub distinct : DistinctKeys m.nodes
  pub queued :
      (id : String) (c : Child)
      → lookup id m.nodes ≡ some c
      → (c.id ≡ id) × (lookup id m.router.nodes ≡ some c.queues)
  pub known :
      (id : String)
      → str_eq id m.id ≡ false
      → lookup id m.nodes ≡ none
      → lookup id m.router.nodes ≡ none
  pub routed : IsValid m.router

add_route-nodes : (e : RouteEntry) (r : NodeRouter) → (add_route e r).0.nodes ≡ r.nodes
unfolding add_route
add_route-nodes e r = ground arith

pub add_routes-nodes :
    (ts : List MessageType) (id : String) (r : NodeRouter) → (add_routes ts id r).nodes ≡ r.nodes
unfolding add_routes
add_routes-nodes [] id r = refl
add_routes-nodes (t ∷ ts) id r =
    let e : RouteEntry = record { msg_type = t; node_id = id } in
    ground (arith, add_routes-nodes ts id (add_route e r).0, add_route-nodes e r)

pub add_routes-IsValid :
    (ts : List MessageType) (id : String) (r : NodeRouter)
    → IsValid r
    → IsValid (add_routes ts id r)
unfolding add_routes
add_routes-IsValid [] id r v = v
add_routes-IsValid (t ∷ ts) id r v =
    let e : RouteEntry = record { msg_type = t; node_id = id } in
    add_routes-IsValid ts id (add_route e r).0 (add_route-IsValid e r v)

-- The router's nodes after `AddNode`, and the node that it returns.
pub add_node-nodes :
    (id j : String) (k : ℕ) (r : NodeRouter)
    → lookup j (add_node id k r).0.nodes
      ≡ (if str_eq id j then some (add_node id k r).1 else lookup j r.nodes)
unfolding add_node
add_node-nodes id j k r = elim (Option-cases (lookup id r.nodes)) [
  | inl e ↦ ground (arith, lookup-insert id j (new_node id r) r.nodes)
  | inr (n, e) ↦ ground (arith, eq_iff id j)
]

remove_node-nodes :
    (id j : String) (r : NodeRouter)
    → lookup j (remove_node id r).0.nodes ≡ (if str_eq id j then none else lookup j r.nodes)
unfolding remove_node
remove_node-nodes id j r = elim (Option-cases (lookup id r.nodes)) [
  | inl e ↦ ground (arith, eq_iff id j)
  | inr (n, e) ↦ ground (arith, lookup-delete id j r.nodes)
]

pub discover-Agreed :
    (now : ℕ) (id : String) (a i : ℕ) (ts : List MessageType) (m : Master)
    → Agreed m
    → Agreed (discover now id a i ts m)
unfolding discover
discover-Agreed now id a i ts m g =
    let r = (add_node id 0 m.router).0 in
    let new = new_child now id a i m.router in
    record {
      distinct = insert-DistinctKeys id new m.nodes g.distinct;
      queued = λ j c h. ground (
        arith,
        lookup-insert id j new m.nodes,
        g.queued j c,
        add_routes-nodes ts id r,
        add_node-nodes id j 0 m.router,
        eq_iff id j,
      );
      known = λ j n h. ground (
        arith,
        lookup-insert id j new m.nodes,
        g.known j n,
        add_routes-nodes ts id r,
        add_node-nodes id j 0 m.router,
      );
      routed = add_routes-IsValid ts id r (add_node-IsValid id 0 m.router g.routed);
    }

pub refresh-Agreed :
    (now : ℕ) (id : String) (c : Child) (m : Master)
    → lookup id m.nodes ≡ some c
    → Agreed m
    → Agreed (refresh now id c m)
unfolding refresh
refresh-Agreed now id c m e g =
    let new : Child = record c { last_timestamp = now; paused = false } in
    record {
      distinct = insert-DistinctKeys id new m.nodes g.distinct;
      queued = λ j x h.
          ground
            (arith, lookup-insert id j new m.nodes, g.queued j x, g.queued id c e, eq_iff id j);
      known = λ j n h. ground (arith, lookup-insert id j new m.nodes, g.known j n);
      routed = g.routed;
    }

pub heartbeat_handler-Agreed :
    (now : ℕ) (id : String) (a i : ℕ) (ts : List MessageType) (m : Master)
    → Agreed m
    → Agreed (heartbeat_handler now id a i ts m)
unfolding heartbeat_handler
heartbeat_handler-Agreed now id a i ts m g = elim (Option-cases (lookup id m.nodes)) [
  | inl e ↦ rw (heartbeat_handler, e) (discover-Agreed now id a i ts m g)
  | inr (c, e) ↦ rw (heartbeat_handler, e) (refresh-Agreed now id c m e g)
]

pub cleanup_node-Agreed : (id : String) (m : Master) → Agreed m → Agreed (cleanup_node id m)
unfolding cleanup_node
cleanup_node-Agreed id m g = record {
  distinct = delete-DistinctKeys id m.nodes g.distinct;
  queued = λ j c h.
      ground (arith, lookup-delete id j m.nodes, g.queued j c, remove_node-nodes id j m.router);
  known = λ j n h.
      ground (arith, lookup-delete id j m.nodes, g.known j n, remove_node-nodes id j m.router);
  routed = remove_node-IsValid id m.router g.routed;
}

pub cleanup_nodes-Agreed :
    (ids : List String) (m : Master) → Agreed m → Agreed (cleanup_nodes ids m)
unfolding cleanup_nodes
cleanup_nodes-Agreed [] m g = g
cleanup_nodes-Agreed (id ∷ ids) m g =
    cleanup_nodes-Agreed ids (cleanup_node id m) (cleanup_node-Agreed id m g)
