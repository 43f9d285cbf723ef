-- ===== src/Tests/Routers.antt =====
-- The theorems on the two routers, applied.
use embd_project.Prelude.{◌≡◌, refl, List, [], ◌∷◌, ◌==◌, if◌then◌else◌, Bool-cases, inl, inr}
use embd_project.Prelude.Maps.{lookup, insert}
use embd_project.Message.{cmd_led_switch}
use embd_project.Queue.{new_queue, add, get, shut_down}
use embd_project.Queue.Store.{Store, write}
use embd_project.Router.{MessageRouter, listen}
use embd_project.Router.Delivery.{listen-delivers}
use embd_project.Router.Subscriptions.{IsValid}
use embd_project.Nodes.{Node, NodeRouter, new_node_router, add_node, add_route, work}
use embd_project.Nodes.Linked
use embd_project.Nodes.Linked.{adds_node, adds_route, removes_node, works}
use embd_project.Nodes.Linked.{run-new_node_router-IsValid}
use embd_project.Nodes.Routed.{work-routes}
use embd_project.Tests.Values.{switch_on, empty_store}

-- The queues 0 and 1 of a driver, where 1 holds a message, and the shut queue 2 of another one.
abbrev store : Store
store p =
    if p == 0
    then new_queue "led-1"
    else if p == 1
    then add switch_on (new_queue "led-1")
    else if p == 2
    then shut_down (new_queue "led-2")
    else new_queue "led-3"

-- The LED switch goes to the queues 0, 2 and 3.
abbrev router : MessageRouter
router = record { route_map = λ t. if t == cmd_led_switch then 0 ∷ 2 ∷ 3 ∷ [] else [] }

router-IsValid : IsValid store router
unfolding new_queue shut_down add
router-IsValid t = elim (Bool-cases (t == cmd_led_switch)) [
  | inl e ↦ rw e (refl, (refl, (refl, tt)))
  | inr e ↦ rw e tt
]

-- The queue with the sender's id is passed over; another one gets the message.
listen-delivers_example : (listen router 1 store).0 3 ≡ add switch_on (store 3)
unfolding new_queue add get
listen-delivers_example = listen-delivers router 1 3 store switch_on refl (λ e. cc)

-- Two nodes, both of which are told of LED switches.
abbrev calls : List Linked.Call
calls =
    adds_node "a" 1
    ∷ adds_node "b" 2
    ∷ adds_route (record { msg_type = cmd_led_switch; node_id = "a" })
    ∷ adds_route (record { msg_type = cmd_led_switch; node_id = "b" })
    ∷ []

abbrev net : NodeRouter
net = Linked.run (new_node_router empty_store 0) calls

abbrev node_a : Node
node_a = record { id = "a"; rcv_q = 0; snd_q = 1 }

run-new_node_router-IsValid_example : Linked.IsValid net
run-new_node_router-IsValid_example = run-new_node_router-IsValid empty_store 0 calls

-- The network when the node `a` has received a message.
abbrev busy : NodeRouter
busy = record net { queues = write 0 (add switch_on (new_queue "a")) net.queues }

work-routes_example : (work node_a busy).0.queues 3 ≡ add switch_on (busy.queues 3)
unfolding Linked.run Linked.step new_node_router add_node add_route lookup insert new_queue add get
work-routes_example = work-routes node_a busy switch_on 3 refl (λ e. cc)
