-- ===== src/Tests/Masters.antt =====
-- The theorems on the master of a radio network, applied.
use embd_project.Prelude.{
  ℕ, ◌*◌, ◌^◌, ◌<◌, ◌≡◌, refl, ap, subst, [], ◌∷◌, Option, none, some, arith,
}
use embd_project.Prelude.Maps.{lookup, insert}
use embd_project.Message.{Message, cmd_led_switch, rf24_heartbeat, heartbeat_data}
use embd_project.Nodes.{get_node}
use embd_project.Master.{
  Child, Master, new_master, heartbeat_handler, discover, message_handler, is_stale,
  remove_stale_routes,
}
use embd_project.Master.Rounds.{receives, run, step, run-new_master-Agreed}
use embd_project.Master.Agreed.{Agreed}
use embd_project.Master.Stale.{remove_stale_routes-silent}
use embd_project.Tests.Values.{empty_store}

-- A heartbeat of a node that sends one each second and subscribes to LED switches.
abbrev heartbeat : Message
heartbeat = record {
  id = record { typ = rf24_heartbeat; sub_type = "na"; version = 0; qualifier = "" };
  payload = heartbeat_data "child" 1 1 (cmd_led_switch ∷ []);
}

abbrev started : Master
started = new_master "master" 10 11 empty_store 0 1

abbrev paired : Master
paired = heartbeat_handler 5 "child" 1 1 (cmd_led_switch ∷ []) started

run-new_master-Agreed_example : Agreed paired
unfolding run step message_handler
run-new_master-Agreed_example =
    run-new_master-Agreed "master" 10 11 empty_store 0 1 (receives 5 heartbeat ∷ []) paired refl

paired-Agreed : Agreed paired
unfolding run step message_handler
paired-Agreed =
    run-new_master-Agreed "master" 10 11 empty_store 0 1 (receives 5 heartbeat ∷ []) paired refl

-- Four seconds later, the node is gone.
abbrev cleaned : Master
cleaned = remove_stale_routes 4000000005 paired

-- Three of the node's intervals are three seconds.
each_second :
    (c : Child)
    → lookup "child" paired.nodes ≡ some c
    → 3 * (c.heartbeat_interval * 1000000000) < 2 ^ 63
unfolding heartbeat_handler discover new_master lookup insert
each_second c e = subst (λ n. 3 * (n * 1000000000) < 2 ^ 63) (ap interval e) (omega arith)
  where
    interval : Option Child → ℕ
    interval none = 0
    interval (some x) = x.heartbeat_interval

remove_stale_routes-silent_example :
    (lookup "child" cleaned.nodes ≡ none)
    × (get_node "child" cleaned.router ≡ none)
    × (lookup "child" (cleaned.router.routes cmd_led_switch) ≡ none)
unfolding heartbeat_handler discover new_master lookup insert is_stale
remove_stale_routes-silent_example =
    remove_stale_routes-silent 4000000005 "child" cmd_led_switch paired paired-Agreed each_second
