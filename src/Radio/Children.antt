-- ===== src/Radio/Children.antt =====
-- plugins/rf24networknode/rf24networknodebackend/children.go: a child of a radio network.
-- Each round of a loop is one step. The poll interval is time only and is left out.
use embd_project.Prelude.{
  ℕ, ◌+◌, ◌%◌, ◌^◌, ◌≡◌, refl, sym, ◌∙◌, Bool, true, false, String, List, [], ◌∷◌, any, none, some,
  ◌==◌, if◌then◌else◌, flatten, eq_iff, arith,
}
use mathlib.Core.List.{append-nil}
use embd_project.Prelude.Maps.{lookup}
use embd_project.Message.{MessageType, Message, rf24_heartbeat, heartbeat_data}
use embd_project.Queue.{Queue, waits, message, shutdown, add, get, done}
use embd_project.Convert.{Bytes, Result, ok, panic}
use embd_project.Radio.{Wire, new_hook, rf24_network_send, process_frame}
use embd_project.Radio.Frames.{receives}
use embd_project.Radio.Exchange.{Lossless, Survives, receives-sent}
use embd_project.Master.{Master, handled, message_handler, heartbeat_handler}
use embd_project.Master
use embd_project.Master.Stale.{heartbeat_handler-routes}

abbrev pub master_node_address : ℕ
master_node_address = 0

-- `RF24NetworkNodeChild`, with the version that the loop of `heartbeat` counts.
pub record Child : Type 0 where
  pub id : String
  pub address : ℕ  -- uint16
  pub subscriptions : List MessageType
  pub heartbeat_interval : ℕ  -- an int64, as its bit pattern
  pub controller_snd_q : Queue
  pub controller_rcv_q : Queue
  pub version : ℕ  -- uint64
  pub killed : Bool

unfoldable pub new_child : String → ℕ → List MessageType → ℕ → Queue → Queue → Child
new_child id address subs interval snd rcv = record {
  id = id;
  address = address;
  subscriptions = subs;
  heartbeat_interval = interval;
  controller_snd_q = snd;
  controller_rcv_q = rcv;
  version = 0;
  killed = false;
}

-- The message of the next heartbeat.
unfoldable pub heartbeat_message : Child → Message
heartbeat_message c = record {
  id = record { typ = rf24_heartbeat; sub_type = "na"; version = c.version; qualifier = "" };
  payload = heartbeat_data c.id c.address c.heartbeat_interval c.subscriptions;
}

-- One tick of `heartbeat`: the version counts also if the radio fails, which is only logged.
unfoldable pub heartbeat : Wire → (ℕ → Bytes → Bool) → Child → Child × Result Bytes
heartbeat w write c = (
  record c { version = (c.version + 1) % 2 ^ 64 },
  rf24_network_send w write (heartbeat_message c) master_node_address,
)

-- What a round of `sender` does: it ends, it waits, or it sends, with the result of the radio.
pub data Sent : Type 0 where
  ended waiting : Sent
  sent : Message → Result Bytes → Sent

-- The queue after a send that did not panic.
abbrev settled : Message → Result Bytes → Queue → Queue
settled msg panic q = q
settled msg _ q = done msg q

-- One round of `sender`.
unfoldable pub sender : Wire → (ℕ → Bytes → Bool) → Child → Child × Sent
sender w write c =
    let (q, got) = get c.controller_rcv_q in
    let round : Child × Sent = elim got [
      | waits ↦ (c, waiting)
      | shutdown ↦ (c, ended)
      | message msg ↦
          let result = rf24_network_send w write msg master_node_address in
          (record c { controller_rcv_q = settled msg result q }, sent msg result)
    ] in
    if c.killed then (c, ended) else round

-- One round of `messageHandler`, on a message from the radio.
unfoldable pub receive_message : Message → Child → Child
receive_message msg c = record c { controller_snd_q = add msg c.controller_snd_q }

-- `Stop`
unfoldable pub stop : Child → Child
stop c = record c { killed = true }

-- A heartbeat of a child that goes out to the master is one frame there, however the radio cuts it up,
-- and holds the message as the child made it, if protobuf reads back what it wrote, COBS gives back the
-- bytes of this heartbeat, and their number is a uint16. The master's handler of messages then knows the
-- child by its id, unpaused and as of this time; if it was new to the master, then exactly its
-- subscriptions are routed to it in addition to what was routed to that id.
pub heartbeat-handled :
    (w : Wire) (write : ℕ → Bytes → Bool) (c : Child) (out : Bytes) (reads : List Bytes) (now : ℕ)
    (t : MessageType) (m : Master)
    → Lossless w
    → Survives w (heartbeat_message c)
    → (heartbeat w write c).1 ≡ ok out
    → flatten reads ≡ out
    → (m' : Master) × (node : Master.Child) × ((receives reads new_hook).frames ≡ out ∷ [])
      × (process_frame w out ≡ some (heartbeat_message c))
      × (message_handler now (heartbeat_message c) m ≡ handled m')
      × (lookup c.id m'.nodes ≡ some node)
      × (node.last_timestamp ≡ now)
      × (node.paused ≡ false)
      × (lookup c.id m.nodes ≡ none
          → lookup c.id (m'.router.routes t) ≡ (
              if any (λ u. u == t) c.subscriptions
              then some node.queues
              else lookup c.id (m.router.routes t)))
unfolding heartbeat message_handler heartbeat_message
heartbeat-handled w write c out reads now t m law fits e cut =
    let (arrived, (read, _), _) =
      receives-sent w write master_node_address (heartbeat_message c ∷ []) (out ∷ []) reads law
        (fits, tt) (e, refl) (cut ∙ sym (append-nil out)) in
    let (node, found, time, awake, routes) =
      heartbeat_handler-routes now c.id c.id c.address c.heartbeat_interval c.subscriptions t m in
    (
      heartbeat_handler now c.id c.address c.heartbeat_interval c.subscriptions m,
      node,
      arrived,
      read,
      refl,
      found,
      time,
      awake,
      λ u. ground (arith, routes u, eq_iff c.id c.id),
    )
