-- ===== src/Master.antt =====
-- plugins/rf24networknode/rf24networknodebackend/master.go: the master of a radio network, which
-- learns of its nodes by their heartbeats and forgets those that fall silent.
-- The clock is an argument, in nanoseconds. A Go map is an association list. The radio is an argument
-- of the worker. Handlers and clean-ups hold the master's mutex, so each is one step.
pub mod Agreed
pub mod Rounds
pub mod Stale
use embd_project.Prelude.{
  ℕ, zero, suc, ◌+◌, ◌-◌, ◌*◌, ◌%◌, ◌^◌, String, Bool, true, false, List, [], ◌∷◌, map, Option,
  none, some, ◌==◌, ltb, if◌then◌else◌,
}
use embd_project.Prelude.Maps.{lookup, insert, delete}
use embd_project.Message.{
  MessageType, Message, Payload, rf24_heartbeat, unit_test_data, ultra_sonic_data, drive_data,
  led_data, lirc_data, heartbeat_data, nil_data,
}
use embd_project.Queue.{waits, message, shutdown, add, get, done}
use embd_project.Queue.Store.{Ptr, Store, write}
use embd_project.Router.{Listened, idle, stopped, routed}
use embd_project.Nodes
use embd_project.Nodes.{
  Node, NodeRouter, RouteEntry, new_node_router, add_node, add_route, remove_node,
}

-- `childNode`
pub record Child : Type 0 where
  pub id : String
  pub address : ℕ  -- uint16
  pub queues : Node
  pub last_timestamp : ℕ
  pub heartbeat_interval : ℕ  -- an int64, as its bit pattern
  pub paused : Bool

-- `RF24NetworkNodeMaster`. The controller's queues stand in the router's store.
pub record Master : Type 0 where
  pub id : String
  pub controller_snd_q : Ptr
  pub controller_rcv_q : Ptr
  pub router : NodeRouter
  pub router_queues : Node
  pub nodes : List (String × Child)

unfoldable pub new_master : String → Ptr → Ptr → Store → Ptr → ℕ → Master
new_master id snd rcv σ p workers =
    let (r, own) = add_node id workers (new_node_router σ p) in
    record {
      id = id;
      controller_snd_q = snd;
      controller_rcv_q = rcv;
      router = r;
      router_queues = own;
      nodes = [];
    }

-- The loop that subscribes a new node; the error of `AddRoute` is ignored.
unfoldable pub add_routes : List MessageType → String → NodeRouter → NodeRouter
add_routes [] id r = r
add_routes (t ∷ ts) id r = add_routes ts id (add_route (record { msg_type = t; node_id = id }) r).0

-- The child that stands for a node which was not known.
abbrev pub new_child : ℕ → String → ℕ → ℕ → NodeRouter → Child
new_child now id address interval r = record {
  id = id;
  address = address % 2 ^ 16;
  queues = (add_node id 0 r).1;
  last_timestamp = now;
  heartbeat_interval = interval;
  paused = false;
}

-- `heartbeatHandler` on a node that is not known: it is entered, and subscribed.
unfoldable pub discover : ℕ → String → ℕ → ℕ → List MessageType → Master → Master
discover now id address interval subs m = record m {
  nodes = insert id (new_child now id address interval m.router) m.nodes;
  router = add_routes subs id (add_node id 0 m.router).0;
}

-- `heartbeatHandler` on a known node.
unfoldable pub refresh : ℕ → String → Child → Master → Master
refresh now id c m = record m {
  nodes = insert id (record c { last_timestamp = now; paused = false }) m.nodes;
}

-- `heartbeatHandler` at a time, once the data is known to be a heartbeat's.
unfoldable pub heartbeat_handler : ℕ → String → ℕ → ℕ → List MessageType → Master → Master
heartbeat_handler now id address interval subs m = elim (lookup id m.nodes) [
  | some c ↦ refresh now id c m
  | none ↦ discover now id address interval subs m
]

-- The master after a step, unless the step panics.
pub data Handled : Type 0 where
  handled : Master → Handled
  panics : Handled

on_heartbeat : ℕ → Payload → Master → Handled
unfolding heartbeat_handler
on_heartbeat now (heartbeat_data id address interval subs) m =
    handled (heartbeat_handler now id address interval subs m)
on_heartbeat now _ m = panics

-- The queues with a message added to one of them.
abbrev pub add_to : Ptr → Message → Master → Master
add_to p msg m = record m {
  router = record m.router { queues = write p (add msg (m.router.queues p)) m.router.queues };
}

-- One round of `messageHandler`.
unfoldable pub message_handler : ℕ → Message → Master → Handled
unfolding on_heartbeat
message_handler now msg m =
    if msg.id.typ == rf24_heartbeat
    then on_heartbeat now msg.payload m
    else handled (add_to m.router_queues.rcv_q msg (add_to m.controller_snd_q msg m))

-- One round of `sender`.
unfoldable pub sender : Master → Master × Listened
sender m =
    let (q, got) = get (m.router.queues m.controller_rcv_q) in
    elim got [
      | waits ↦ (m, idle)
      | message msg ↦
          let took = record m.router { queues = write m.controller_rcv_q q m.router.queues } in
          let m' = add_to m.router_queues.rcv_q msg (record m { router = took }) in
          let left = done msg (m'.router.queues m.controller_rcv_q) in
          (
            record m' {
              router = record m'.router { queues = write m.controller_rcv_q left m'.router.queues };
            },
            routed msg,
          )
      | shutdown ↦ (m, stopped)
    ]

-- Whether no heartbeat came for three intervals. The product of durations is an int64 that wraps.
unfoldable pub is_stale : ℕ → Child → Bool
is_stale now c =
    let wait = (3 * 10 ^ 9 * c.heartbeat_interval) % 2 ^ 64 in
    if ltb wait (2 ^ 63)
    then ltb (c.last_timestamp + wait) now
    else ltb c.last_timestamp (now + (2 ^ 64 - wait))

-- `findStaleNodes`
unfoldable pub stale_ids : ℕ → List (String × Child) → List String
stale_ids now [] = []
stale_ids now ((id, c) ∷ nodes) =
    let rest = stale_ids now nodes in if is_stale now c then id ∷ rest else rest

-- `cleanupNode`. The child that is dropped is unpaused, so that its worker finds its queue shut.
unfoldable pub cleanup_node : String → Master → Master
cleanup_node id m = record m { router = (remove_node id m.router).0; nodes = delete id m.nodes }

unfoldable pub cleanup_nodes : List String → Master → Master
cleanup_nodes [] m = m
cleanup_nodes (id ∷ ids) m = cleanup_nodes ids (cleanup_node id m)

-- One tick of `removeStaleRoutes`.
unfoldable pub remove_stale_routes : ℕ → Master → Master
remove_stale_routes now m = cleanup_nodes (stale_ids now m.nodes) m

abbrev unpause : String × Child → String × Child
unpause (id, c) = (id, record c { paused = false })

-- `Stop`, which also ends the goroutines.
unfoldable pub stop : Master → Master
stop m = record m { router = Nodes.stop m.router; nodes = map unpause m.nodes }

-- What the worker of a node does: it waits, ends, or hands a message to the radio.
pub data Sent : Type 0 where
  waiting ended : Sent
  sent : Message → Sent

-- One round of a node's worker. The argument sends a message to an address, and may fail.
unfoldable pub worker : (Message → ℕ → Bool) → Child → Store → Child × Store × Sent
worker sends c σ =
    let p = c.queues.snd_q in
    let (q, got) = get (σ p) in
    if (σ p).shutting_down then (c, σ, ended) else if c.paused then (c, σ, waiting) else elim got [
      | waits ↦ (c, σ, waiting)
      | shutdown ↦ (c, σ, ended)
      | message msg ↦ (
        if sends msg c.address then c else record c { paused = true },
        write p (done msg q) σ,
        sent msg,
      )
    ]
