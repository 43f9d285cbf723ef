-- ===== src/Daemon/Copies.antt =====
-- daemon/daemon/machine.go and pkg/machine/machine.go: the copies that the daemon gives out.
use embd_project.Prelude.{String, List, [], ◌∷◌, map, Option, none, some}
use embd_project.Errors.{Result, ok, err, no_machine}
use embd_project.Message.{MessageType}
use embd_project.Options
use embd_project.Options.{BoolOptions}
use embd_project.StatusLog
use embd_project.StatusLog.{MachineStatus}
use embd_project.Machine.{AdaptorConf, DriverConf, ControllerConf, Machine}
use embd_project.Daemon.{Daemon, lookup_machine}

-- A copy of a machine: of a part it has the configuration, of a queue the identity.
pub record MachineCopy : Type 0 where
  pub machine_id : String
  pub opts : Option BoolOptions
  pub status : MachineStatus
  pub adaptors : List AdaptorConf
  pub drivers : List DriverConf
  pub controllers : List ControllerConf
  pub routes : MessageType → List String

-- `DeepCopy` of a machine that runs
unfoldable pub copy_machine : Machine → MachineCopy
copy_machine m = record {
  machine_id = m.machine_id;
  opts = elim m.opts [ none ↦ none | some bo ↦ some (Options.deep_copy bo) ];
  status = StatusLog.deep_copy m.status;
  adaptors = m.adaptors;
  drivers = map (λ d. d.conf) m.drivers;
  controllers = map (λ c. c.conf) m.controllers;
  routes = λ t. map (λ p. (m.queues p).q_id) (m.msg_router.route_map t);
}

-- `MachineGet`
unfoldable pub machine_get : String → Daemon → Result MachineCopy
machine_get id d = elim (lookup_machine id d) [
  | none ↦ err (no_machine id)
  | some m ↦ ok (copy_machine m)
]

-- `MachinesGet`, in the order of the map; `none` if there are no machines.
unfoldable pub machines_get : Daemon → Option (List MachineCopy)
machines_get d = elim d.machines [
  | [] ↦ none
  | _ ∷ _ ↦ some (map (λ (id, m). copy_machine m) d.machines)
]
