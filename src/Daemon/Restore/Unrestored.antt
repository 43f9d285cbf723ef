-- ===== src/Daemon/Restore/Unrestored.antt =====
-- daemon/daemon/restore.go: what comes of the envelopes that `restoreMachine` makes.
use embd_project.Prelude.{
  String, ◌≡◌, ◌≢◌, refl, ◌⊎◌, inl, inr, List, [], ◌∷◌, ◌++◌, map, none, some, arith, eq_iff, All,
  Option-cases,
}
use embd_project.Prelude.Maps.{lookup-insert}
use embd_project.Errors.{Result, ok, err, Result-cases, unknown_kind}
use embd_project.Machine.{AdaptorConf, Driver, Machine, Outside, Outcome, success, log_status}
use embd_project.StatusLog.{info, restoring}
use embd_project.Machine.Snapshots.{with_snapshot-machine, Outcome-cases}
use embd_project.Machine.Adaptors.{attach_one, attach_loop, attach_confs, attach_adaptors}
use embd_project.Factories.{Json}
use embd_project.Factories.Adaptors.{new_adaptor_confs}
use embd_project.Factories.Drivers.{
  DriverKind, driver_kind, unit_test_driver, dual_motors, led, ultra_sonic, driver_name,
}
use embd_project.Factories.Validated.{driver_kind-name}
use embd_project.Factories.Controllers.{
  controller_kind, new_controller_conf, controller_conf, new_controller_confs,
}
use embd_project.Daemon.{
  Wire, Daemon, lookup_machine, insert_machine, on_confs, on_envelopes, daemon_attach_adaptors,
  daemon_start_controllers,
}
use embd_project.Router.{new_message_router}
use embd_project.Daemon.Restore.{
  blank_copy, adaptor_envelopes, controller_envelope, controller_envelopes, send, restore_machine,
}

-- Every driver that a state file can hold is of a known kind: `NewDriver` refuses the others.
abbrev pub KnownDrivers : List Driver → Type 0
KnownDrivers = All (λ d. (k : DriverKind) × (driver_kind d.conf.typ ≡ some k))

controller_kind-driver_name : (k : DriverKind) → controller_kind (driver_name k) ≡ none
unfolding controller_kind
controller_kind-driver_name unit_test_driver = refl
controller_kind-driver_name dual_motors = refl
controller_kind-driver_name led = refl
controller_kind-driver_name ultra_sonic = refl

-- The factory of controllers refuses the envelopes of known drivers, or there are none.
controller_confs_refused :
    (w : Wire) (ds : List Driver)
    → KnownDrivers ds
    → (new_controller_confs w.decode_controller (map (controller_envelope w) ds) ≡ ok [])
      ⊎ (new_controller_confs w.decode_controller (map (controller_envelope w) ds)
          ≡ err unknown_kind)
unfolding new_controller_confs controller_conf new_controller_conf
controller_confs_refused w [] known = inl refl
controller_confs_refused w (d ∷ ds) ((k, e), known) =
    inr (ground (arith, driver_kind-name d.conf.typ k e, controller_kind-driver_name k))

start_controllers_refused :
    (w : Wire) (o : Outside) (tm : Machine) (bytes : Json) (d : Daemon)
    → KnownDrivers tm.drivers
    → w.read_controllers bytes ≡ ok (controller_envelopes w tm)
    → ((daemon_start_controllers w o bytes d).0 ≡ d)
      × ((daemon_start_controllers w o bytes d).1 ≢ success)
unfolding daemon_start_controllers on_envelopes
start_controllers_refused w o tm bytes d known e =
    let refused = controller_confs_refused w tm.drivers known in
    (ground (arith, refused), λ s. ground (arith, refused))

abbrev pub HasNoParts : Machine → Type 0
HasNoParts m = (m.drivers ≡ []) × (m.controllers ≡ [])

-- The machine under this id, if there is one, has no driver and no controller.
abbrev pub IsBare : String → Daemon → Type 0
IsBare id d = (m : Machine) → lookup_machine id d ≡ some m → HasNoParts m

attach_loop-HasNoParts :
    (o : Outside) (cs : List AdaptorConf) (m : Machine)
    → HasNoParts m
    → HasNoParts (attach_loop o cs m).0
unfolding attach_loop attach_one log_status
attach_loop-HasNoParts o [] m h = h
attach_loop-HasNoParts o (c ∷ cs) m h =
    ground (arith, attach_loop-HasNoParts o cs (record m { adaptors = m.adaptors ++ c ∷ [] }) h)

attach_adaptors-HasNoParts :
    (o : Outside) (cs : List AdaptorConf) (m : Machine)
    → HasNoParts m
    → HasNoParts (attach_adaptors o cs m).0
unfolding attach_adaptors attach_confs
attach_adaptors-HasNoParts o [] m h = rw (with_snapshot-machine o (attach_confs o [] m)) h
attach_adaptors-HasNoParts o (c ∷ cs) m h =
    rw (with_snapshot-machine o (attach_confs o (c ∷ cs) m)) (attach_loop-HasNoParts o (c ∷ cs) m h)

on_confs-IsBare :
    (o : Outside) (id j : String) (r : Result (List AdaptorConf)) (m : Machine) (d : Daemon)
    → lookup_machine id d ≡ some m
    → IsBare j d
    → IsBare j (on_confs id (attach_adaptors o) r m d).0
unfolding on_confs lookup_machine
on_confs-IsBare o id j (err x) m d f b n e = b n e
on_confs-IsBare o id j (ok []) m d f b n e = b n e
on_confs-IsBare o id j (ok (c ∷ cs)) m d f b n e = ground (
  arith,
  lookup-insert id j (attach_adaptors o (c ∷ cs) m).0 d.machines,
  eq_iff id j,
  b m,
  b n,
  attach_adaptors-HasNoParts o (c ∷ cs) m,
)

-- Attaching adaptors gives no machine a driver or a controller.
attach-IsBare :
    (w : Wire) (o : Outside) (bytes : Json) (j : String) (d : Daemon)
    → IsBare j d
    → IsBare j (daemon_attach_adaptors w o bytes d).0
unfolding daemon_attach_adaptors on_envelopes
attach-IsBare w o bytes j d b n e = elim (Result-cases (w.read_adaptors bytes)) [
  | inr (x, r) ↦ ground (arith, b n)
  | inl (env, r) ↦ elim (Option-cases (lookup_machine env.machine_id d)) [
    | inl f ↦ ground (arith, b n)
    | inr (m, f) ↦
        on_confs-IsBare o env.machine_id j (new_adaptor_confs w.decode_adaptor env.confs) m d f b n
          (ground arith)
  ]
]

insert_machine-IsBare :
    (m : Machine) (d : Daemon)
    → HasNoParts m
    → m.machine_id ≢ ""
    → IsBare m.machine_id (insert_machine m d)
unfolding insert_machine lookup_machine
insert_machine-IsBare m d h i n e = ground (
  arith,
  i,
  eq_iff m.machine_id "",
  eq_iff m.machine_id m.machine_id,
  lookup-insert m.machine_id m.machine_id (record m { msg_router = new_message_router }) d.machines,
)

-- The request did not succeed, and left the machine without drivers and controllers.
abbrev FailsBare : String → Daemon × Outcome → Type 0
FailsBare id r = (r.1 ≢ success) × IsBare id r.0

send-FailsBare :
    (id : String) (r : Result Json) (handle : Json → Daemon → Daemon × Outcome) (d : Daemon)
    (next : Daemon → Daemon × Outcome)
    → IsBare id d
    → ((bytes : Json)
        → r ≡ ok bytes
        → IsBare id (handle bytes d).0
          × ((handle bytes d).1 ≡ success → FailsBare id (next (handle bytes d).0)))
    → FailsBare id (send r handle d next)
send-FailsBare id (err x) handle d next b h = ((λ s. cc), b)
send-FailsBare id (ok bytes) handle d next b h = elim (Outcome-cases (handle bytes d).1) [
  | inl s ↦ rw (s, send) ((h bytes refl).1 s)
  | inr (inl (x, f)) ↦ rw (f, send) ((λ s. cc), (h bytes refl).0)
  | inr (inr f) ↦ rw (f, send) ((λ s. cc), (h bytes refl).0)
]

-- When a state file held only known drivers, and JSON reads back the envelopes of the controllers
-- that were written, then `restoreMachine` never succeeds, whatever the devices answer, and the
-- restored machine has no driver and no controller.
pub restore_machine-fails :
    (w : Wire) (o : Outside) (tm : Machine) (d : Daemon)
    → tm.machine_id ≢ ""
    → KnownDrivers tm.drivers
    → ((bytes : Json)
        → w.write_controllers (controller_envelopes w tm) ≡ ok bytes
        → w.read_controllers bytes ≡ ok (controller_envelopes w tm))
    → ((restore_machine w o tm d).1 ≢ success) × IsBare tm.machine_id (restore_machine w o tm d).0
unfolding restore_machine blank_copy log_status
restore_machine-fails w o tm d i known reads =
    let id = tm.machine_id in
    let m0 = log_status o info restoring (blank_copy tm) in
    let d0 = insert_machine m0 d in
    let bare = insert_machine-IsBare m0 d (refl, refl) i in
    send-FailsBare id (w.write_adaptors (adaptor_envelopes w tm)) (daemon_attach_adaptors w o) d0 _
      bare
      λ bytes e.
        let d1 = (daemon_attach_adaptors w o bytes d0).0 in
        let bare1 = attach-IsBare w o bytes id d0 bare in
        (
          bare1,
          λ s.
              send-FailsBare id (w.write_controllers (controller_envelopes w tm))
                (daemon_start_controllers w o) d1 _ bare1
                λ bytes' e'.
                  let refused =
                    start_controllers_refused w o tm bytes' d1 known (reads bytes' e') in
                  (rw refused.0 bare1, λ s'. absurd (refused.1 s')),
        )
