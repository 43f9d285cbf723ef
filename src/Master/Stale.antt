-- ===== src/Master/Stale.antt =====
-- What a heartbeat brings in, and what a clean-up takes out.
use embd_project.Prelude.{
  ℕ, ◌+◌, ◌*◌, ◌^◌, ◌<◌, ltb, ◌∙◌, String, Bool, false, ◌&&◌, ◌≡◌, refl, inl, inr, List, [], ◌∷◌,
  none, some, arith, eq_iff, str_eq, any, ◌==◌, Option-cases, if◌then◌else◌,
}
use embd_project.Prelude.Maps.{lookup, lookup-insert, lookup-delete, DistinctKeys}
use embd_project.Message.{MessageType}
use embd_project.Nodes.{Node, NodeRouter, RouteEntry, add_route, add_node, remove_node, get_node}
use embd_project.Nodes.Linked.{IsValid, remove_node-IsValid}
use embd_project.Master.{
  Child, Master, new_child, add_routes, discover, refresh, heartbeat_handler, is_stale, stale_ids,
  cleanup_node, cleanup_nodes, remove_stale_routes,
}
use embd_project.Master.Agreed.{Agreed, add_node-nodes}

-- Whether the master knows a child of this id that is stale.
abbrev pub expired : ℕ → String → List (String × Child) → Bool
expired now j nodes = elim (lookup j nodes) [ none ↦ false | some c ↦ is_stale now c ]

listed : String → List String → Bool
listed j = any λ id. str_eq id j

listed-stale_ids :
    (now : ℕ) (j : String) (nodes : List (String × Child))
    → DistinctKeys nodes
    → listed j (stale_ids now nodes) ≡ expired now j nodes
unfolding listed stale_ids lookup
listed-stale_ids now j [] d = refl
listed-stale_ids now j ((id, c) ∷ nodes) d =
    ground (arith, listed-stale_ids now j nodes d.1, eq_iff id j, d.0)

remove_node-lookups :
    (id j : String) (t : MessageType) (r : NodeRouter)
    → IsValid r
    → (lookup j (remove_node id r).0.nodes ≡ (if str_eq id j then none else lookup j r.nodes))
      × (lookup j ((remove_node id r).0.routes t)
          ≡ (if str_eq id j then none else lookup j (r.routes t)))
unfolding remove_node
remove_node-lookups id j t r v = elim (Option-cases (lookup id r.nodes)) [
  | inl e ↦ elim (Option-cases (lookup id (r.routes t))) [
    | inl f ↦ (ground (arith, eq_iff id j), ground (arith, eq_iff id j))
    | inr (n, f) ↦ absurd (ground (arith, v.linked t id n f))
  ]
  | inr (n, e) ↦
      (ground (arith, lookup-delete id j r.nodes), ground (arith, lookup-delete id j (r.routes t)))
]

cleanup_nodes-lookups :
    (ids : List String) (j : String) (t : MessageType) (m : Master)
    → IsValid m.router
    → (lookup j (cleanup_nodes ids m).nodes ≡ (if listed j ids then none else lookup j m.nodes))
      × (lookup j (cleanup_nodes ids m).router.nodes
          ≡ (if listed j ids then none else lookup j m.router.nodes))
      × (lookup j ((cleanup_nodes ids m).router.routes t)
          ≡ (if listed j ids then none else lookup j (m.router.routes t)))
unfolding cleanup_nodes cleanup_node listed
cleanup_nodes-lookups [] j t m v = (refl, refl, refl)
cleanup_nodes-lookups (id ∷ ids) j t m v =
    let (a, b, c) =
      cleanup_nodes-lookups ids j t (cleanup_node id m) (remove_node-IsValid id m.router v) in
    let (e, f) = remove_node-lookups id j t m.router v in
    (ground (arith, a, lookup-delete id j m.nodes), ground (arith, b, e), ground (arith, c, f))

-- A child of this id is known, and since its last heartbeat more than three of its intervals of that
-- many seconds passed, in nanoseconds.
abbrev pub silent : ℕ → String → List (String × Child) → Bool
silent now j nodes = elim (lookup j nodes) [
  | none ↦ false
  | some c ↦ ltb (c.last_timestamp + 3 * (c.heartbeat_interval * 1000000000)) now
]

is_stale-silent :
    (now : ℕ) (c : Child)
    → 3 * (c.heartbeat_interval * 1000000000) < 2 ^ 63
    → is_stale now c ≡ ltb (c.last_timestamp + 3 * (c.heartbeat_interval * 1000000000)) now
unfolding is_stale
is_stale-silent now c h = ground (arith, h)

expired-silent :
    (now : ℕ) (j : String) (nodes : List (String × Child))
    → ((c : Child) → lookup j nodes ≡ some c → 3 * (c.heartbeat_interval * 1000000000) < 2 ^ 63)
    → expired now j nodes ≡ silent now j nodes
expired-silent now j nodes h = elim (Option-cases (lookup j nodes)) [
  | inl e ↦ rw (expired, silent, e) refl
  | inr (c, e) ↦ rw (expired, silent, e) (is_stale-silent now c (h c e))
]

-- A tick of `removeStaleRoutes` on a master that agrees with its router: the node of an id is gone, from
-- the master's nodes, from the router's and from its routes, exactly if it is a child from which no
-- heartbeat came for more than three of its intervals, and else it is as before; if three of its
-- intervals, in nanoseconds, do not wrap around an int64.
pub remove_stale_routes-silent :
    (now : ℕ) (j : String) (t : MessageType) (m : Master)
    → Agreed m
    → ((c : Child) → lookup j m.nodes ≡ some c → 3 * (c.heartbeat_interval * 1000000000) < 2 ^ 63)
    → let m' = remove_stale_routes now m in
      (lookup j m'.nodes ≡ (if silent now j m.nodes then none else lookup j m.nodes))
      × (get_node j m'.router ≡ (if silent now j m.nodes then none else get_node j m.router))
      × (lookup j (m'.router.routes t)
          ≡ (if silent now j m.nodes then none else lookup j (m.router.routes t)))
unfolding remove_stale_routes get_node
remove_stale_routes-silent now j t m g short =
    let same = listed-stale_ids now j m.nodes g.distinct ∙ expired-silent now j m.nodes short in
    let (a, b, c) = cleanup_nodes-lookups (stale_ids now m.nodes) j t m g.routed in
    (ground (arith, a, same), ground (arith, b, same), ground (arith, c, same))

add_routes-routes :
    (ts : List MessageType) (id j : String) (t : MessageType) (n : Node) (r : NodeRouter)
    → lookup id r.nodes ≡ some n
    → lookup j ((add_routes ts id r).routes t)
      ≡ (if str_eq id j && any (λ u. u == t) ts then some n else lookup j (r.routes t))
unfolding add_routes add_route
add_routes-routes [] id j t n r e = ground arith
add_routes-routes (u ∷ ts) id j t n r e =
    let x : RouteEntry = record { msg_type = u; node_id = id } in
    ground
      (arith, add_routes-routes ts id j t n (add_route x r).0, lookup-insert id j n (r.routes u))

add_node-routes : (id : String) (k : ℕ) (r : NodeRouter) → (add_node id k r).0.routes ≡ r.routes
unfolding add_node
add_node-routes id k r = ground arith

-- After a heartbeat, the master has the sender among its children, unpaused, as of this time; and if
-- it was new, then the routes that are added are those of the sender to the types that the heartbeat
-- names, and all others are as before.
pub heartbeat_handler-routes :
    (now : ℕ) (id j : String) (a i : ℕ) (ts : List MessageType) (t : MessageType) (m : Master)
    → let m' = heartbeat_handler now id a i ts m in
      (c : Child) × (lookup id m'.nodes ≡ some c)
      × (c.last_timestamp ≡ now)
      × (c.paused ≡ false)
      × (lookup id m.nodes ≡ none
          → lookup j (m'.router.routes t) ≡ (
              if str_eq id j && any (λ u. u == t) ts
              then some c.queues
              else lookup j (m.router.routes t)))
unfolding heartbeat_handler discover refresh
heartbeat_handler-routes now id j a i ts t m = elim (Option-cases (lookup id m.nodes)) [
  | inl e ↦
      rw (heartbeat_handler, discover, e)
        (
          new_child now id a i m.router,
          ground (arith, lookup-insert id id (new_child now id a i m.router) m.nodes, eq_iff id id),
          refl,
          refl,
          λ u. ground (
            arith,
            add_routes-routes ts id j t (add_node id 0 m.router).1 (add_node id 0 m.router).0,
            add_node-nodes id id 0 m.router,
            eq_iff id id,
            add_node-routes id 0 m.router,
          ),
        )
  | inr (c, e) ↦
      let new : Child = record c { last_timestamp = now; paused = false } in
      rw (heartbeat_handler, refresh, e)
        (
          new,
          ground (arith, lookup-insert id id new m.nodes, eq_iff id id),
          refl,
          refl,
          λ u. absurd cc,
        )
]
