-- ===== src/Daemon.antt =====
-- daemon/daemon: the daemon's machines by id, and the requests that reach them.
-- A `*machine.Machine` in the map is the machine under its key, since nothing else keeps a pointer to
-- it. `encoding/json` is a parameter, `Wire`. A nil `Status` is the empty status, which
-- `insertMachine` puts in its place. The requests of the daemon run one after another.
pub mod Joined
pub mod Requests
pub mod Leave
pub mod Restore
pub mod Updated
pub mod Copies
use embd_project.Prelude.{ℕ, String, List, [], ◌∷◌, Option, none, some, Bool, str_eq, if◌then◌else◌}
use embd_project.Prelude.Maps.{lookup, insert, delete}
use embd_project.Errors.{
  Error, Result, ok, err, no_machine, machine_exists, no_directory, none_specified,
}
use embd_project.Options.{
  OptionMap, BoolOptions, Verdict, valid, invalid, panicked, validate, apply,
}
use embd_project.Router.{new_message_router}
use embd_project.Machine.{
  AdaptorConf, DriverConf, Machine, Outside, Outcome, success, fails, stuck, apply_opts,
}
use embd_project.Machine.Adaptors.{attach_adaptors, detach_adaptor}
use embd_project.Machine.Drivers.{start_drivers, stop_driver}
use embd_project.Machine.Controllers.{start_controllers, stop_controller}
use embd_project.Factories.{Json}
use embd_project.Factories.Adaptors.{AdaptorEnvelope, new_adaptor_confs}
use embd_project.Factories.Drivers.{DriverEnvelope, new_driver_confs}
use embd_project.Factories.Controllers.{
  ControllerEnvelope, ControllerSettings, new_controller_confs,
}

-- `AdaptorsConfEnvelope`, `DriversConfEnvelope` and `ControllersConfEnvelope`
pub record Envelopes (E : Type 0) : Type 0 where
  pub machine_id : String
  pub confs : List E

-- What `encoding/json` reads and writes for the daemon.
pub record Wire : Type 0 where
  pub read_adaptors : Json → Result (Envelopes AdaptorEnvelope)
  pub read_drivers : Json → Result (Envelopes DriverEnvelope)
  pub read_controllers : Json → Result (Envelopes ControllerEnvelope)
  pub write_adaptors : Envelopes AdaptorEnvelope → Result Json
  pub write_drivers : Envelopes DriverEnvelope → Result Json
  pub write_controllers : Envelopes ControllerEnvelope → Result Json
  pub decode_adaptor : Json → AdaptorConf → Result AdaptorConf
  pub decode_driver : Json → DriverConf → Result DriverConf
  pub decode_controller : Json → ControllerSettings → Result ControllerSettings
  pub encode_adaptor : AdaptorConf → Json
  pub encode_driver : DriverConf → Json

pub record Daemon : Type 0 where
  pub machines : List (String × Machine)
  pub opts : BoolOptions

unfoldable pub lookup_machine : String → Daemon → Option Machine
lookup_machine id d = lookup id d.machines

-- `insertMachine`: a machine gets a new router, and one with no id is not entered.
unfoldable pub insert_machine : Machine → Daemon → Daemon
insert_machine m d =
    let m' = record m { msg_router = new_message_router } in
    if str_eq m.machine_id "" then d else record d { machines = insert m.machine_id m' d.machines }

-- `MachineJoin`; the argument makes the machine's directory. The snapshot's error is ignored.
unfoldable pub machine_join : (String → Option Error) → Machine → Daemon → Daemon × Outcome
machine_join mkdir m d = elim (lookup_machine m.machine_id d) [
  | some _ ↦ (d, fails (machine_exists m.machine_id))
  | none ↦ elim (mkdir m.machine_id) [
    | some e ↦ (d, fails (no_directory e))
    | none ↦ (insert_machine m d, success)
  ]
]

-- The daemon after a machine's method has run on the machine under this key.
abbrev pub put_machine : String → Machine × Outcome → Daemon → Daemon × Outcome
put_machine id (m, r) d = (record d { machines = insert id m d.machines }, r)

-- What `lookupMachine` guards: the method runs if the machine is there.
unfoldable pub on_machine : String → (Machine → Machine × Outcome) → Daemon → Daemon × Outcome
on_machine id f d = elim (lookup_machine id d) [
  | none ↦ (d, fails (no_machine id))
  | some m ↦ put_machine id (f m) d
]

-- A request with no configuration is refused before the machine's method is called.
unfoldable pub on_confs {ℓ} :
    {C : Type ℓ}
    → String
    → (List C → Machine → Machine × Outcome)
    → Result (List C)
    → Machine
    → Daemon
    → Daemon × Outcome
on_confs id start (err e) m d = (d, fails e)
on_confs id start (ok []) m d = (d, fails none_specified)
on_confs id start (ok (c ∷ cs)) m d = put_machine id (start (c ∷ cs) m) d

-- What the three daemon methods that start parts do with the envelopes of a request.
unfoldable pub on_envelopes :
    {E C : Type 0}
    → (List E → Result (List C))
    → (List C → Machine → Machine × Outcome)
    → Result (Envelopes E)
    → Daemon
    → Daemon × Outcome
unfolding on_confs
on_envelopes factory start (err e) d = (d, fails e)
on_envelopes factory start (ok env) d = elim (lookup_machine env.machine_id d) [
  | none ↦ (d, fails (no_machine env.machine_id))
  | some m ↦ on_confs env.machine_id start (factory env.confs) m d
]

unfoldable pub daemon_attach_adaptors : Wire → Outside → Json → Daemon → Daemon × Outcome
daemon_attach_adaptors w o bytes d =
    on_envelopes (new_adaptor_confs w.decode_adaptor) (attach_adaptors o) (w.read_adaptors bytes) d

unfoldable pub daemon_start_drivers : Wire → Outside → Json → Daemon → Daemon × Outcome
daemon_start_drivers w o bytes d =
    on_envelopes (new_driver_confs w.decode_driver) (start_drivers o) (w.read_drivers bytes) d

unfoldable pub daemon_start_controllers : Wire → Outside → Json → Daemon → Daemon × Outcome
daemon_start_controllers w o bytes d =
    on_envelopes (new_controller_confs w.decode_controller) (start_controllers o)
      (w.read_controllers bytes) d

unfoldable pub daemon_stop_driver : Outside → String → String → String → Daemon → Daemon × Outcome
daemon_stop_driver o id t drv d = on_machine id (stop_driver o t drv) d

unfoldable pub daemon_stop_controller : Outside → String → String → Daemon → Daemon × Outcome
daemon_stop_controller o id ctl d = on_machine id (stop_controller o ctl) d

unfoldable pub daemon_detach_adaptor :
    Outside → String → String → String → Daemon → Daemon × Outcome
daemon_detach_adaptor o id t adpt d = on_machine id (detach_adaptor o t adpt) d

-- A validation as an outcome.
abbrev pub judged : Verdict → Outcome
judged valid = success
judged (invalid e) = fails e
judged panicked = stuck

-- `mh.Opts.Validate`, which panics at the first entry if there are no options or no library.
abbrev pub validate_opts : (String → String) → Option OptionMap → Machine → Outcome
validate_opts to_lower none m = success
validate_opts to_lower (some n) m = elim m.opts [
  | none ↦ elim n [ [] ↦ success | _ ↦ stuck ]
  | some bo ↦ judged (validate to_lower n bo)
]

-- The machine after its options were validated. The error of the snapshot that follows is ignored.
abbrev pub with_opts : Option OptionMap → Machine → Machine × Outcome
with_opts none m = (m, success)
with_opts (some n) m = elim (apply_opts n m) [ none ↦ (m, stuck) | some (m', did) ↦ (m', success) ]

-- `MachineUpdate`; a nil map is `none`.
unfoldable pub machine_update :
    (String → String) → String → Option OptionMap → Daemon → Daemon × Outcome
machine_update to_lower id n = on_machine id λ m. elim (validate_opts to_lower n m) [
  | success ↦ with_opts n m
  | fails e ↦ (m, fails e)
  | stuck ↦ (m, stuck)
]

-- The daemon after its options were validated.
abbrev pub apply_valid : OptionMap → Daemon → Daemon × Outcome
apply_valid n d = elim (apply n d.opts) [
  | none ↦ (d, stuck)
  | some (o, changes) ↦ (record d { opts = o }, success)
]

-- `Update`, of the daemon's own options.
unfoldable pub update : (String → String) → OptionMap → Daemon → Daemon × Outcome
update to_lower n d = elim (validate to_lower n d.opts) [
  | valid ↦ apply_valid n d
  | invalid e ↦ (d, fails e)
  | panicked ↦ (d, stuck)
]
