-- ===== src/Tests/Values.antt =====
-- A rover with two drivers, its surroundings, and the daemon that keeps it.
use embd_project.Prelude.{some, String, true, false, [], ◌∷◌, none}
use embd_project.Errors.{ok}
use embd_project.Message.{MessageType, Message, led_data, cmd_led_switch}
use embd_project.Queue.{new_queue}
use embd_project.Queue.Store.{Store}
use embd_project.Router.{MessageRouter}
use embd_project.StatusLog.{empty_status}
use embd_project.Options.{OptionLibrary, BoolOptions}
use embd_project.Machine.{AdaptorConf, DriverConf, ControllerConf, Machine, Outside}
use embd_project.Machine.Drivers.{start_drivers}
use embd_project.Machine.Controllers.{start_controllers}
use embd_project.Factories.Drivers.{DriverEnvelope}
use embd_project.Factories.Controllers.{ControllerEnvelope}
use embd_project.Daemon.{Wire, Daemon}

abbrev pub message_of : MessageType → String → Message
message_of t qualifier = record {
  id = record { typ = t; sub_type = ""; version = 1; qualifier = qualifier };
  payload = led_data true 50;
}

abbrev pub switch_on : Message
switch_on = message_of cmd_led_switch "General"

abbrev pub switch_off : Message
switch_off = record switch_on { payload = led_data false 0 }

-- Devices and files that answer well.
abbrev pub outside : Outside
outside = record {
  now = 7;
  snapshot = λ m. none;
  starts = λ m c. true;
  halt = λ m c. none;
  start_controller = λ m c. none;
  stops_serving = λ m c. true;
  attach = λ m a. none;
  detach = λ m a. none;
}

abbrev pub raspi : AdaptorConf
raspi = record { typ = "adaptor_raspi"; id = "pi" }

abbrev pub firmata : AdaptorConf
firmata = record { typ = "adaptor_firmata_serial"; id = "arduino" }

abbrev pub led_conf : DriverConf
led_conf = record {
  typ = "driver_led";
  id = "led-1";
  adaptor_id = "pi";
  qualifier = "General";
  subscriptions = "CmdLEDSwitch" ∷ [];
}

abbrev pub motors_conf : DriverConf
motors_conf = record {
  typ = "driver_dualmotors";
  id = "motors-1";
  adaptor_id = "pi";
  qualifier = "";
  subscriptions = "CmdDrive" ∷ [];
}

abbrev pub drive_conf : ControllerConf
drive_conf = record {
  typ = "autonomous-drive";
  id = "drive-1";
  subscriptions = "SensorUltraSonic" ∷ "LIRCEvent" ∷ [];
}

abbrev pub empty_store : Store
empty_store p = new_queue ""

abbrev pub no_routes : MessageRouter
no_routes = record { route_map = λ t. [] }

abbrev pub rover : Machine
rover = record {
  machine_id = "rover";
  adaptors = raspi ∷ firmata ∷ [];
  drivers = [];
  controllers = [];
  msg_router = no_routes;
  opts = none;
  status = empty_status;
  queues = empty_store;
  next_ptr = 0;
  listeners = [];
}

-- The rover with its LED and its motors.
abbrev pub rover_ready : Machine
rover_ready = (start_drivers outside (led_conf ∷ motors_conf ∷ []) rover).0

-- The rover with its controller.
abbrev pub rover_driven : Machine
rover_driven = (start_controllers outside (drive_conf ∷ []) rover).0

abbrev pub library : OptionLibrary
library = ("Debug", record { define = "DEBUG"; description = ""; immutable = false }) ∷ []

abbrev pub options : BoolOptions
options = record { opts = some (("Debug", true) ∷ []); library = some library }

abbrev pub fresh : Daemon
fresh = record { machines = []; opts = options }

abbrev pub keeping : Machine → Daemon
keeping m = record fresh { machines = (m.machine_id, m) ∷ [] }

abbrev pub led_envelope : DriverEnvelope
led_envelope = record {
  typ = "driver_led";
  id = "led-1";
  adaptor_id = "pi";
  qualifier = "General";
  subscriptions = "CmdLEDSwitch" ∷ [];
  conf = [];
}

abbrev pub drive_envelope : ControllerEnvelope
drive_envelope = record {
  typ = "autonomous-drive";
  id = "drive-1";
  subscriptions = "SensorUltraSonic" ∷ [];
  conf = [];
}

-- A JSON that is always read as one request to the rover.
abbrev pub wire : Wire
wire = record {
  read_adaptors = λ b. ok (record { machine_id = "rover"; confs = [] });
  read_drivers = λ b. ok (record { machine_id = "rover"; confs = led_envelope ∷ [] });
  read_controllers = λ b. ok (record { machine_id = "rover"; confs = drive_envelope ∷ [] });
  write_adaptors = λ e. ok [];
  write_drivers = λ e. ok [];
  write_controllers = λ e. ok [];
  decode_adaptor = λ b c. ok c;
  decode_driver = λ b c. ok c;
  decode_controller = λ b c. ok c;
  encode_adaptor = λ a. [];
  encode_driver = λ d. [];
}
