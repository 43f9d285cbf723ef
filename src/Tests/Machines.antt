-- ===== src/Tests/Machines.antt =====
-- The theorems on a machine's parts, on the options and on the factories, applied.
use embd_project.Prelude.{◌≡◌, ◌≢◌, refl, true, List, [], ◌∷◌, ◌==◌, Bool-cases, inl, inr}
use embd_project.Message.{sensor_ultra_sonic, lirc_event, message_type_value}
use embd_project.Queue.{new_queue}
use embd_project.Router.{new_message_router, add_subscriber_queue}
use embd_project.Router.Subscriptions.{IsValid}
use embd_project.Machine.{
  Driver, DriverConf, Machine, success, log_status, with_snapshot, lookup_driver, lookup_controller,
  lookup_adaptor, subscribe_all,
}
use embd_project.Queue
use embd_project.Machine.WellFormed.{WellFormed}
use embd_project.Machine.WellFormed.Calls
use embd_project.Machine.WellFormed.Calls.{run-joined-WellFormed}
use embd_project.Machine.Drivers.{new_driver, start_drivers, start_loop, start_one, stop_driver}
use embd_project.Machine.Drivers.Unstoppable.{start_drivers-unknown_type}
use embd_project.Machine.Controllers
use embd_project.Machine.Controllers.{start_controllers, stop_controller}
use embd_project.Tests.Values.{
  switch_on, motors_conf, outside, raspi, led_conf, drive_conf, rover, rover_ready, rover_driven,
}

-- The LED's driver, started with the queues 0 and 1.
abbrev led_driver : Driver
led_driver = record (new_driver led_conf rover) { working = true }

abbrev rover_dimmed : Machine
rover_dimmed = (stop_driver outside "driver_led" "led-1" rover_ready).0

-- A driver that asks for a message type which does not exist.
abbrev odd_conf : DriverConf
odd_conf = record led_conf { subscriptions = "CmdLedSwitch" ∷ [] }

abbrev rover_odd : Machine
rover_odd = (start_drivers outside (odd_conf ∷ []) rover).0

start_drivers-unknown_type_example :
    ((start_drivers outside (odd_conf ∷ []) rover).1 ≢ success)
    × (rover_odd.drivers ≡ new_driver odd_conf rover ∷ [])
    × ((stop_driver outside "driver_led" "led-1" rover_odd).1 ≢ success)
unfolding lookup_driver lookup_adaptor message_type_value
start_drivers-unknown_type_example =
    start_drivers-unknown_type outside outside odd_conf [] raspi rover refl refl refl

rover_driven-IsValid : IsValid rover_driven.queues rover_driven.msg_router
unfolding start_controllers Controllers.start_confs Controllers.start_loop Controllers.start_one
    lookup_controller subscribe_all add_subscriber_queue message_type_value new_queue with_snapshot
    log_status
rover_driven-IsValid t = elim (Bool-cases (lirc_event == t)) [
  | inl d ↦ rw d (refl, tt)
  | inr d ↦ elim (Bool-cases (sensor_ultra_sonic == t)) [
    | inl l ↦ rw (d, l) (refl, tt)
    | inr l ↦ rw (d, l) tt
  ]
]

-- The rover gets its parts, a message for its LED, and loses the LED again.
abbrev history : List Calls.Call
history =
    Calls.starts_drivers outside (led_conf ∷ motors_conf ∷ [])
    ∷ Calls.uses_queue 0 (Queue.adds switch_on)
    ∷ Calls.starts_controllers outside (drive_conf ∷ [])
    ∷ Calls.stops_driver outside "driver_led" "led-1"
    ∷ Calls.detaches outside "adaptor_firmata_serial" "arduino"
    ∷ []

run-joined-WellFormed_example : WellFormed (Calls.run rover history)
unfolding new_message_router
run-joined-WellFormed_example = run-joined-WellFormed rover history refl
