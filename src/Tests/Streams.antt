-- ===== src/Tests/Streams.antt =====
-- The theorems on the queues over gRPC and on a radio's children, applied.
use Prim.Native.String.{◌++◌ as join}
use embd_project.Prelude.{
  ℕ, zero, suc, ◌≡◌, refl, true, false, String, [], ◌∷◌, List, none, some, arith, ◌==◌, any,
  if◌then◌else◌,
}
use embd_project.Prelude.Maps.{lookup}
use embd_project.Message.{cmd_led_switch, id_eq}
use embd_project.Queue.{Queue, new_queue, add}
use embd_project.Convert.{PbMessage, ok, convert_to_external_format}
use embd_project.Messenger.{
  Mpi, Server, new_server, envelope, mpi_send_tick, mpi_receive, plugin_send, plugin_receive,
}
use embd_project.Messenger.Relayed.{plugin_receive-mpi_send_tick, mpi_receive-plugin_send}
use embd_project.Messenger.Streams.{opens, begins, run}
use embd_project.Radio.{process_frame, new_hook, rf24_network_send, write_payload}
use embd_project.Radio.Frames.{receives}
use embd_project.Radio.Exchange.{Survives}
use embd_project.Radio.Children.{Child, new_child, heartbeat, heartbeat_message, heartbeat-handled}
use embd_project.Master.{Master, new_master, handled, message_handler}
use embd_project.Master
use embd_project.Tests.Values.{empty_store}
use embd_project.Tests.Radios.{
  small_codec, small_codec-ReadsBack, small_wire, small_wire-Lossless, unstuff-stuff, switched_on,
  switched_off,
}

abbrev daemon_side : Mpi
daemon_side = record {
  rcv_q = add switched_off (add switched_on (new_queue "p"));
  snd_q = new_queue "p";
}

plugin_receive-mpi_send_tick_example :
    (es : List PbMessage) × (q : Queue) × ((mpi_send_tick small_codec daemon_side).1 ≡ envelope es)
    × ((mpi_send_tick small_codec daemon_side).0.rcv_q.queue ≡ [])
    × (plugin_receive small_codec es (new_queue "p") ≡ some q)
    × (q.queue ≡ switched_on ∷ switched_off ∷ [])
unfolding new_queue add id_eq convert_to_external_format
plugin_receive-mpi_send_tick_example =
    plugin_receive-mpi_send_tick small_codec daemon_side (new_queue "p") small_codec-ReadsBack refl
      (λ e. cc) ((_, refl), ((_, refl), tt)) (refl, (refl, tt)) refl
      ((refl, refl), ((refl, refl), tt))

mpi_receive-plugin_send_example :
    let q = add switched_off (add switched_on (new_queue "p")) in
    (es : List PbMessage) × (d : Mpi) × ((plugin_send small_codec q).1 ≡ envelope es)
    × ((plugin_send small_codec q).0.queue ≡ [])
    × (mpi_receive small_codec es daemon_side ≡ some d)
    × (d.snd_q.queue ≡ switched_on ∷ switched_off ∷ [])
unfolding new_queue add id_eq convert_to_external_format
mpi_receive-plugin_send_example =
    mpi_receive-plugin_send small_codec switched_on (switched_off ∷ [])
      (add switched_off (add switched_on (new_queue "p"))) daemon_side small_codec-ReadsBack refl
      refl ((_, refl), ((_, refl), tt)) (refl, (refl, tt)) refl ((refl, refl), ((refl, refl), tt))

abbrev child : Child
child = new_child "child" 1 (cmd_led_switch ∷ []) 1 (new_queue "c") (new_queue "c")

heartbeat_out : (heartbeat small_wire (λ a b. true) child).1 ≡ ok (101 ∷ 1 ∷ 2 ∷ 2 ∷ 4 ∷ 0 ∷ [])
unfolding heartbeat heartbeat_message new_child rf24_network_send write_payload
    convert_to_external_format
heartbeat_out = refl

heartbeat-Survives : Survives small_wire (heartbeat_message child)
unfolding heartbeat_message new_child convert_to_external_format
heartbeat-Survives x b e p = (ground arith, unstuff-stuff b)

heartbeat-handled_example :
    let m = new_master "master" 10 11 empty_store 0 1 in
    (m' : Master) × (node : Master.Child) × ((receives
        ((101 ∷ 1 ∷ []) ∷ (2 ∷ 2 ∷ 4 ∷ 0 ∷ []) ∷ [])
        new_hook).frames
      ≡ (101 ∷ 1 ∷ 2 ∷ 2 ∷ 4 ∷ 0 ∷ []) ∷ [])
    × (process_frame small_wire (101 ∷ 1 ∷ 2 ∷ 2 ∷ 4 ∷ 0 ∷ []) ≡ some (heartbeat_message child))
    × (message_handler 5 (heartbeat_message child) m ≡ handled m')
    × (lookup child.id m'.nodes ≡ some node)
    × (node.last_timestamp ≡ 5)
    × (node.paused ≡ false)
    × (lookup child.id m.nodes ≡ none
        → lookup child.id (m'.router.routes cmd_led_switch) ≡ (
            if any (λ u. u == cmd_led_switch) child.subscriptions
            then some node.queues
            else lookup child.id (m.router.routes cmd_led_switch)))
heartbeat-handled_example =
    heartbeat-handled small_wire (λ a b. true) child (101 ∷ 1 ∷ 2 ∷ 2 ∷ 4 ∷ 0 ∷ [])
      ((101 ∷ 1 ∷ []) ∷ (2 ∷ 2 ∷ 4 ∷ 0 ∷ []) ∷ []) 5 cmd_led_switch
      (new_master "master" 10 11 empty_store 0 1) small_wire-Lossless heartbeat-Survives
      heartbeat_out refl

-- Numbers in unary.
abbrev tally : ℕ → String
tally zero = ""
tally (suc n) = join "1" (tally n)

abbrev server : Server
server =
    run small_codec tally (new_server (new_queue "g") (new_queue "g"))
      (opens ∷ opens ∷ begins "" ∷ [])
