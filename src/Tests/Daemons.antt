-- ===== src/Tests/Daemons.antt =====
-- The theorems on the factories and the daemon, applied.
use embd_project.Prelude.{
  String, ◌≡◌, ◌≢◌, refl, true, List, [], ◌∷◌, ◌++◌, map, Option, none, some, if◌then◌else◌, inr,
  str_eq, arith, All,
}
use embd_project.Prelude.Maps.{lookup}
use embd_project.Errors.{Error, ok}
use embd_project.Message.{message_type_value}
use embd_project.Queue.{new_queue, shut_down}
use embd_project.Router.{add_subscriber_queue, remove_subscriber_queue}
use embd_project.Machine.{
  DriverConf, Machine, success, log_status, with_snapshot, lookup_driver, lookup_adaptor,
  subscribe_all, unsubscribe_all,
}
use embd_project.Machine.Adaptors.{detach_adaptor, detach_one, take_adaptor}
use embd_project.Machine.Drivers.{
  start_drivers, start_loop, start_one, stop_driver, stop_one, stop_found, stop, finish_stop,
  find_to_stop, put_driver, remove_driver,
}
use embd_project.Machine.Drivers.Started.{driver_confs}
use embd_project.Factories.Drivers.{
  DriverEnvelope, led, dual_motors, driver_kind, driver_conf, new_driver_conf, new_driver_confs,
  validate_driver, known_qualifier,
}
use embd_project.Factories.Controllers.{ControllerSettings, nonnegative}
use embd_project.Factories.Validated.{AcceptedDriver, new_driver_confs-ok}
use embd_project.Daemon.{Envelopes, Wire, lookup_machine, daemon_start_drivers, on_envelopes}
use embd_project.Daemon.Requests.{daemon_start_drivers-success}
use embd_project.Daemon.Leave.{
  leave_parts, leave_controllers, leave_drivers, leave_adaptors, machine_leave, range_stop,
}
use embd_project.Daemon.Leave.Emptied.{machine_leave-success}
use embd_project.Daemon.Leave.Skipping.{machine_leave-TooMany}
use embd_project.Daemon.Restore.{restore_machine, controller_envelopes}
use embd_project.Daemon.Restore.Unrestored.{IsBare, restore_machine-fails}
use embd_project.Tests.Values.{
  outside, raspi, firmata, led_conf, rover, rover_ready, fresh, keeping, led_envelope, wire,
}

new_driver_confs-ok_example :
    (led_conf.typ ∷ [] ≡ led_envelope.typ ∷ []) × All AcceptedDriver (led_conf ∷ [])
unfolding new_driver_confs driver_conf new_driver_conf validate_driver known_qualifier
new_driver_confs-ok_example =
    new_driver_confs-ok wire.decode_driver (led_envelope ∷ []) (led_conf ∷ []) refl

abbrev server : ControllerSettings
server = record {
  base = record { typ = "grpc-message-server"; id = "srv"; subscriptions = [] };
  host_address = "10.0.0.2";
  port = nonnegative 10000;
  tls_enabled = true;
  cert_file = "server.pem";
  key_file = "";
  plugin_name = "";
}

abbrev mkdir : String → Option Error
mkdir id = none

daemon_start_drivers-success_example :
    (env : Envelopes DriverEnvelope) × (m : Machine) × (m' : Machine) × (cs : List DriverConf)
    × (wire.read_drivers [] ≡ ok env)
    × (lookup_machine env.machine_id (keeping rover) ≡ some m)
    × (driver_confs m' ≡ driver_confs m ++ cs)
    × (map {A = DriverConf} {B = String} (λ c. c.typ) cs
        ≡ map {A = DriverEnvelope} {B = String} (λ e. e.typ) env.confs)
    × All AcceptedDriver cs
    × (lookup_machine "rover" (daemon_start_drivers wire outside [] (keeping rover)).0 ≡ (
        if str_eq env.machine_id "rover" then some m' else lookup_machine "rover" (keeping rover)))
unfolding daemon_start_drivers on_envelopes lookup_machine lookup new_driver_confs driver_conf
    new_driver_conf validate_driver known_qualifier start_drivers start_loop start_one lookup_driver
    lookup_adaptor subscribe_all add_subscriber_queue message_type_value new_queue with_snapshot
daemon_start_drivers-success_example =
    daemon_start_drivers-success wire outside [] (keeping rover) "rover" refl

abbrev leaving : Machine
leaving = (leave_parts outside rover_ready).0

-- Two drivers and two adaptors are few enough.
machine_leave-success_example :
    (leaving.controllers ≡ [])
    × (leaving.drivers ≡ [])
    × (leaving.adaptors ≡ [])
    × (lookup_machine "rover" (machine_leave outside "rover" (keeping rover_ready)).0 ≡ none)
unfolding start_drivers start_loop start_one lookup_driver lookup_adaptor subscribe_all
    add_subscriber_queue message_type_value new_queue with_snapshot log_status lookup_machine lookup
    machine_leave leave_parts leave_controllers leave_drivers leave_adaptors range_stop stop_driver
    stop_one stop_found stop finish_stop find_to_stop put_driver remove_driver unsubscribe_all
    remove_subscriber_queue shut_down detach_adaptor detach_one take_adaptor
machine_leave-success_example =
    machine_leave-success outside "rover" "rover" (keeping rover_ready) rover_ready refl refl

abbrev rover_loaded : Machine
rover_loaded = record rover {
  adaptors = raspi ∷ firmata ∷ record { typ = "adaptor_raspi"; id = "pi-2" } ∷ [];
}

machine_leave-TooMany_example :
    ((machine_leave outside "rover" (keeping rover_loaded)).1 ≢ success)
    × (lookup_machine "rover" (machine_leave outside "rover" (keeping rover_loaded)).0 ≢ none)
unfolding lookup_machine lookup
machine_leave-TooMany_example =
    machine_leave-TooMany outside "rover" (keeping rover_loaded) rover_loaded refl
      (inr (inr (omega arith, (refl, (refl, (refl, tt))))))

-- JSON that reads back the controllers of the rover's state file.
abbrev faithful : Wire
faithful = record wire { read_controllers = λ b. ok (controller_envelopes wire rover_ready) }

restore_machine-fails_example :
    ((restore_machine faithful outside rover_ready fresh).1 ≢ success)
    × IsBare "rover" (restore_machine faithful outside rover_ready fresh).0
unfolding start_drivers start_loop start_one lookup_driver lookup_adaptor subscribe_all
    add_subscriber_queue message_type_value new_queue with_snapshot log_status driver_kind
restore_machine-fails_example =
    restore_machine-fails faithful outside rover_ready fresh (λ e. cc)
      ((led, refl), ((dual_motors, refl), tt)) (λ bytes e. refl)
