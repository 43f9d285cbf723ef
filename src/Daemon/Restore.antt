-- ===== src/Daemon/Restore.antt =====
-- daemon/daemon/restore.go: machines from the state files that were written before a restart.
-- The reading of the directory and of a file is a parameter: a file that cannot be opened or parsed
-- is an error in the list of files.
pub mod Unrestored
use embd_project.Prelude.{String, List, [], ◌∷◌, map, Option, none, some, str_eq, if◌then◌else◌}
use embd_project.Errors.{Error, Result, ok, err}
use embd_project.Options.{deep_copy}
use embd_project.Options
use embd_project.StatusLog
use embd_project.StatusLog.{failure, info, restoring, restore_failed}
use embd_project.Machine.{
  AdaptorConf, Driver, DriverConf, Machine, Outside, Outcome, success, fails, stuck, log_status,
}
use embd_project.Factories.{Json}
use embd_project.Factories.Adaptors.{AdaptorEnvelope}
use embd_project.Factories.Drivers.{DriverEnvelope}
use embd_project.Factories.Controllers.{ControllerEnvelope}
use embd_project.Daemon.{
  Envelopes, Wire, Daemon, lookup_machine, insert_machine, put_machine, daemon_attach_adaptors,
  daemon_start_drivers, daemon_start_controllers,
}

-- `tMh.DeepCopy(true)` with its parts taken off. The queues of the file are never used again.
unfoldable pub blank_copy : Machine → Machine
blank_copy tm = record tm {
  adaptors = [];
  drivers = [];
  controllers = [];
  opts = elim tm.opts [ none ↦ none | some bo ↦ some (Options.deep_copy bo) ];
  status = StatusLog.deep_copy tm.status;
  listeners = [];
}

abbrev pub adaptor_envelope : Wire → AdaptorConf → AdaptorEnvelope
adaptor_envelope w a = record { typ = a.typ; id = ""; conf = w.encode_adaptor a }

-- The envelopes of the controllers are made from the list of drivers.
abbrev pub controller_envelope : Wire → Driver → ControllerEnvelope
controller_envelope w d = record {
  typ = d.conf.typ;
  id = "";
  subscriptions = d.conf.subscriptions;
  conf = w.encode_driver d.conf;
}

abbrev pub driver_envelope : Wire → Driver → DriverEnvelope
driver_envelope w d = record {
  typ = d.conf.typ;
  id = "";
  adaptor_id = "";
  qualifier = "";
  subscriptions = d.conf.subscriptions;
  conf = w.encode_driver d.conf;
}

abbrev pub adaptor_envelopes : Wire → Machine → Envelopes AdaptorEnvelope
adaptor_envelopes w tm = record {
  machine_id = tm.machine_id;
  confs = map (adaptor_envelope w) tm.adaptors;
}

abbrev pub controller_envelopes : Wire → Machine → Envelopes ControllerEnvelope
controller_envelopes w tm = record {
  machine_id = tm.machine_id;
  confs = map (controller_envelope w) tm.drivers;
}

abbrev pub driver_envelopes : Wire → Machine → Envelopes DriverEnvelope
driver_envelopes w tm = record {
  machine_id = tm.machine_id;
  confs = map (driver_envelope w) tm.drivers;
}

-- A request that is written to JSON and handled, and what follows if it succeeds.
abbrev pub send :
    Result Json
    → (Json → Daemon → Daemon × Outcome)
    → Daemon
    → (Daemon → Daemon × Outcome)
    → Daemon × Outcome
send (err e) handle d next = (d, fails e)
send (ok bytes) handle d next =
    let (d', r) = handle bytes d in
    elim r [ success ↦ next d' | fails x ↦ (d', fails x) | stuck ↦ (d', stuck) ]

-- `mh.Snapshot()` at the end. The machine is there, or the requests before had failed.
snapshot_restored : Outside → String → Daemon → Daemon × Outcome
snapshot_restored o id d = elim (lookup_machine id d) [
  | none ↦ (d, stuck)
  | some m ↦ elim (o.snapshot m) [ none ↦ (d, success) | some e ↦ (d, fails e) ]
]

-- `restoreMachine` from the machine that was parsed. The log goes to the machine that was inserted.
unfoldable pub restore_machine : Wire → Outside → Machine → Daemon → Daemon × Outcome
unfolding snapshot_restored
restore_machine w o tm d =
    let d0 = insert_machine (log_status o info restoring (blank_copy tm)) d in
    send (w.write_adaptors (adaptor_envelopes w tm)) (daemon_attach_adaptors w o) d0 λ d1.
      send (w.write_controllers (controller_envelopes w tm)) (daemon_start_controllers w o) d1 λ d2.
        send (w.write_drivers (driver_envelopes w tm)) (daemon_start_drivers w o) d2
          λ d3. snapshot_restored o tm.machine_id d3

-- The log of a failed restore, on the machine if it is there.
abbrev pub log_failed : Outside → String → Error → Daemon → Daemon
log_failed o id x d = elim (lookup_machine id d) [
  | none ↦ d
  | some m ↦ (put_machine id (log_status o failure (restore_failed x) m, success) d).0
]

-- `restore`: every file in turn, whether or not the one before could be restored.
unfoldable pub restore : Wire → Outside → List (Result Machine) → Daemon → Daemon × Outcome
restore w o [] d = (d, success)
restore w o (err e ∷ files) d = restore w o files d
restore w o (ok tm ∷ files) d =
    let (d', r) = restore_machine w o tm d in
    elim r [
      | success ↦ restore w o files d'
      | fails x ↦ restore w o files (log_failed o tm.machine_id x d')
      | stuck ↦ (d', stuck)
    ]
