-- ===== src/Master/Rounds.antt =====
-- The rounds of the master's goroutines, in any order.
use embd_project.Prelude.{
  ℕ, String, ◌≡◌, refl, inl, inr, List, [], ◌∷◌, arith, eq_iff, Bool-cases, ◌⊎◌, ◌==◌,
}
use embd_project.Prelude.Maps.{lookup}
use embd_project.Message.{
  Message, Payload, rf24_heartbeat, unit_test_data, ultra_sonic_data, drive_data, led_data,
  lirc_data, heartbeat_data, nil_data,
}
use embd_project.Queue.Store.{Ptr, Store}
use embd_project.Nodes.{Node, NodeRouter, new_node_router, work}
use embd_project.Nodes.Linked.{IsValid, add_node-IsValid, work-IsValid, new_node_router-IsValid}
use embd_project.Master.{
  Master, Handled, handled, panics, new_master, heartbeat_handler, on_heartbeat, message_handler,
  add_to, sender, cleanup_nodes, stale_ids, remove_stale_routes,
}
use embd_project.Master.Agreed.{
  Agreed, add_node-nodes, heartbeat_handler-Agreed, cleanup_nodes-Agreed,
}

-- What the master's goroutines do, one round of one of them at a time.
pub data Round : Type 0 where
  receives : ℕ → Message → Round
  sends_out : Round
  cleans_up : ℕ → Round
  routes : Node → Round

unfoldable pub step : Round → Master → Handled
step (receives now msg) m = message_handler now msg m
step sends_out m = handled (sender m).0
step (cleans_up now) m = handled (remove_stale_routes now m)
step (routes n) m = handled (record m { router = (work n m.router).0 })

-- The rounds up to a panic, which ends the program.
unfoldable pub run : List Round → Master → Handled
run [] m = handled m
run (x ∷ xs) m = elim (step x m) [ handled m' ↦ run xs m' | panics ↦ panics ]

Handled-cases : (h : Handled) → ((m : Master) × (h ≡ handled m)) ⊎ (h ≡ panics)
Handled-cases (handled m) = inl (m, refl)
Handled-cases panics = inr refl

-- What a step that leaves the nodes alone keeps.
same_nodes-Agreed :
    (m m' : Master)
    → Agreed m
    → m'.nodes ≡ m.nodes
    → m'.id ≡ m.id
    → m'.router.nodes ≡ m.router.nodes
    → IsValid m'.router
    → Agreed m'
same_nodes-Agreed m m' g e i r v = record {
  distinct = rw e g.distinct;
  queued = λ id c h. ground (arith, g.queued id c);
  known = λ id n h. ground (arith, g.known id);
  routed = v;
}

-- A router that differs in its queues only.
requeued : (σ : Store) (r : NodeRouter) → IsValid r → IsValid (record r { queues = σ })
requeued σ r v = record { linked = v.linked; keyed = v.keyed }

on_heartbeat-Agreed :
    (now : ℕ) (p : Payload) (m m' : Master)
    → Agreed m
    → on_heartbeat now p m ≡ handled m'
    → Agreed m'
unfolding on_heartbeat
on_heartbeat-Agreed now (heartbeat_data id a i ts) m m' g h =
    let e : m' ≡ heartbeat_handler now id a i ts m = cc in
    rw e (heartbeat_handler-Agreed now id a i ts m g)
on_heartbeat-Agreed now (unit_test_data s) m m' g h = absurd cc
on_heartbeat-Agreed now (ultra_sonic_data n) m m' g h = absurd cc
on_heartbeat-Agreed now (drive_data n) m m' g h = absurd cc
on_heartbeat-Agreed now (led_data b n) m m' g h = absurd cc
on_heartbeat-Agreed now (lirc_data c r b x) m m' g h = absurd cc
on_heartbeat-Agreed now nil_data m m' g h = absurd cc

message_handler-Agreed :
    (now : ℕ) (msg : Message) (m m' : Master)
    → Agreed m
    → message_handler now msg m ≡ handled m'
    → Agreed m'
unfolding message_handler
message_handler-Agreed now msg m m' g h = elim (Bool-cases (msg.id.typ == rf24_heartbeat)) [
  | inl e ↦ on_heartbeat-Agreed now msg.payload m m' g (ground arith)
  | inr e ↦
      let m1 = add_to m.router_queues.rcv_q msg (add_to m.controller_snd_q msg m) in
      let same : m' ≡ m1 = ground arith in
      rw same
        (same_nodes-Agreed m m1 g refl refl refl (requeued m1.router.queues m.router g.routed))
]

sender-routed : (m : Master) → IsValid m.router → IsValid (sender m).0.router
unfolding sender
sender-routed m v = record {
  linked = λ t j x h. ground (arith, v.linked t j x);
  keyed = λ j x h. ground (arith, v.keyed j x);
}

sender-Agreed : (m : Master) → Agreed m → Agreed (sender m).0
unfolding sender
sender-Agreed m g =
    same_nodes-Agreed m (sender m).0 g (ground arith) (ground arith) (ground arith)
      (sender-routed m g.routed)

work-nodes : (n : Node) (r : NodeRouter) → (work n r).0.nodes ≡ r.nodes
unfolding work
work-nodes n r = ground arith

step-Agreed : (x : Round) (m m' : Master) → Agreed m → step x m ≡ handled m' → Agreed m'
unfolding step remove_stale_routes
step-Agreed (receives now msg) m m' g h = message_handler-Agreed now msg m m' g h
step-Agreed sends_out m m' g h = let e : m' ≡ (sender m).0 = cc in rw e (sender-Agreed m g)
step-Agreed (cleans_up now) m m' g h =
    let e : m' ≡ cleanup_nodes (stale_ids now m.nodes) m = cc in
    rw e (cleanup_nodes-Agreed (stale_ids now m.nodes) m g)
step-Agreed (routes n) m m' g h =
    let e : m' ≡ record m { router = (work n m.router).0 } = cc in
    rw e (
      same_nodes-Agreed m (record m { router = (work n m.router).0 }) g refl refl
        (work-nodes n m.router) (work-IsValid n m.router g.routed))

run-Agreed : (xs : List Round) (m m' : Master) → Agreed m → run xs m ≡ handled m' → Agreed m'
unfolding run
run-Agreed [] m m' g h = let e : m' ≡ m = cc in rw e g
run-Agreed (x ∷ xs) m m' g h = elim (Handled-cases (step x m)) [
  | inl (m1, e) ↦ run-Agreed xs m1 m' (step-Agreed x m m1 g e) (ground arith)
  | inr e ↦ absurd (ground arith)
]

new_master-Agreed :
    (id : String) (snd rcv : Ptr) (σ : Store) (p : Ptr) (k : ℕ)
    → Agreed (new_master id snd rcv σ p k)
unfolding new_master new_node_router lookup
new_master-Agreed id snd rcv σ p k = record {
  distinct = tt;
  queued = λ j c h. cc;
  known = λ j n h.
      ground (arith, add_node-nodes id j k (new_node_router σ p), eq_iff id j, eq_iff j id);
  routed = add_node-IsValid id k (new_node_router σ p) (new_node_router-IsValid σ p);
}

-- Whatever a new master has received, sent, routed and cleaned up, unless it panicked: each child that
-- it knows is in the router, with the same queues and under its own id; a node other than the master
-- itself that is no child of the master is not in the router; and every route leads to a node that the
-- router knows.
pub run-new_master-Agreed :
    (id : String) (snd rcv : Ptr) (σ : Store) (p : Ptr) (k : ℕ) (xs : List Round) (m : Master)
    → run xs (new_master id snd rcv σ p k) ≡ handled m
    → Agreed m
run-new_master-Agreed id snd rcv σ p k xs m h =
    run-Agreed xs _ m (new_master-Agreed id snd rcv σ p k) h
