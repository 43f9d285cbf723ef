-- ===== src/Daemon/Requests.antt =====
-- What a request to start parts does, from its bytes to the machine.
use embd_project.Prelude.{
  String, ◌≡◌, refl, inl, inr, List, [], ◌∷◌, ◌++◌, map, some, arith, str_eq, All, Option-cases,
  if◌then◌else◌,
}
use embd_project.Prelude.Maps.{lookup-insert}
use embd_project.Errors.{Result, ok, err}
use embd_project.Machine.{DriverConf, ControllerConf, Machine, Outside, Outcome, success}
use embd_project.Machine.Drivers.{start_drivers}
use embd_project.Machine.Drivers.Started.{driver_confs, start_drivers-success}
use embd_project.Machine.Controllers.{start_controllers}
use embd_project.Machine.Controllers.Started.{controller_confs, start_controllers-success}
use embd_project.Factories.{Json}
use embd_project.Factories.Drivers.{DriverEnvelope, new_driver_confs}
use embd_project.Factories.Controllers.{ControllerEnvelope, new_controller_confs}
use embd_project.Factories.Validated.{AcceptedDriver, new_driver_confs-ok}
use embd_project.Daemon.{
  Envelopes, Wire, Daemon, lookup_machine, put_machine, on_confs, on_envelopes,
  daemon_start_drivers, daemon_start_controllers,
}

on_confs-success :
    {C : Type 0} (id : String) (start : List C → Machine → Machine × Outcome) (r : Result (List C))
    (m : Machine) (d : Daemon)
    → (on_confs id start r m d).1 ≡ success
    → (cs : List C) × (r ≡ ok cs)
      × ((start cs m).1 ≡ success)
      × (on_confs id start r m d ≡ put_machine id (start cs m) d)
unfolding on_confs
on_confs-success id start (err e) m d h = cc
on_confs-success id start (ok []) m d h = cc
on_confs-success id start (ok (c ∷ cs)) m d h = (c ∷ cs, refl, h, refl)

-- What a request that succeeds has gone through.
on_envelopes-success :
    {E C : Type 0} (factory : List E → Result (List C))
    (start : List C → Machine → Machine × Outcome) (r : Result (Envelopes E)) (d : Daemon)
    → (on_envelopes factory start r d).1 ≡ success
    → (env : Envelopes E) × (m : Machine) × (cs : List C) × (r ≡ ok env)
      × (lookup_machine env.machine_id d ≡ some m)
      × (factory env.confs ≡ ok cs)
      × ((start cs m).1 ≡ success)
      × (on_envelopes factory start r d ≡ put_machine env.machine_id (start cs m) d)
unfolding on_envelopes
on_envelopes-success factory start (err e) d h = cc
on_envelopes-success factory start (ok env) d h =
    elim (Option-cases (lookup_machine env.machine_id d)) [
      | inl f ↦ absurd (ground arith)
      | inr (m, f) ↦
          let (cs, r, s, e) =
            on_confs-success env.machine_id start (factory env.confs) m d (ground arith) in
          (env, m, cs, refl, f, r, s, ground (arith, e))
    ]

lookup-put_machine :
    (id j : String) (r : Machine × Outcome) (d : Daemon)
    → lookup_machine j (put_machine id r d).0
      ≡ (if str_eq id j then some r.0 else lookup_machine j d)
unfolding lookup_machine
lookup-put_machine id j r d = lookup-insert id j r.0 d.machines

-- When `StartDrivers` of the daemon succeeds, whatever JSON decodes to, then the request named a
-- known machine, whose drivers are now those that it had and, after them, one for each envelope of
-- the request, in their order, of the envelope's type and accepted by the checks of its kind; and the
-- other machines are as before.
pub daemon_start_drivers-success :
    (w : Wire) (o : Outside) (bytes : Json) (d : Daemon) (j : String)
    → (daemon_start_drivers w o bytes d).1 ≡ success
    → (env : Envelopes DriverEnvelope) × (m m' : Machine) × (cs : List DriverConf) × (w.read_drivers
          bytes
        ≡ ok env)
      × (lookup_machine env.machine_id d ≡ some m)
      × (driver_confs m' ≡ driver_confs m ++ cs)
      × (map {A = DriverConf} {B = String} (λ c. c.typ) cs
          ≡ map {A = DriverEnvelope} {B = String} (λ e. e.typ) env.confs)
      × All AcceptedDriver cs
      × (lookup_machine j (daemon_start_drivers w o bytes d).0
          ≡ (if str_eq env.machine_id j then some m' else lookup_machine j d))
unfolding daemon_start_drivers
daemon_start_drivers-success w o bytes d j h =
    let (env, m, cs, r, f, c, s, e) =
      on_envelopes-success (new_driver_confs w.decode_driver) (start_drivers o)
        (w.read_drivers bytes) d h in
    let (types, accepted) = new_driver_confs-ok w.decode_driver env.confs cs c in
    (
      env,
      m,
      (start_drivers o cs m).0,
      cs,
      r,
      f,
      (start_drivers-success o cs m s).0,
      types,
      accepted,
      rw e (lookup-put_machine env.machine_id j (start_drivers o cs m) d),
    )

-- When `StartControllers` of the daemon succeeds, then the request named a known machine, whose
-- controllers are now those that it had and, after them, the ones that the factory made of the
-- request's envelopes, in their order; and the other machines are as before.
pub daemon_start_controllers-success :
    (w : Wire) (o : Outside) (bytes : Json) (d : Daemon) (j : String)
    → (daemon_start_controllers w o bytes d).1 ≡ success
    → (env : Envelopes ControllerEnvelope) × (m m' : Machine) × (cs : List ControllerConf)
      × (w.read_controllers bytes ≡ ok env)
      × (lookup_machine env.machine_id d ≡ some m)
      × (new_controller_confs w.decode_controller env.confs ≡ ok cs)
      × (controller_confs m' ≡ controller_confs m ++ cs)
      × (lookup_machine j (daemon_start_controllers w o bytes d).0
          ≡ (if str_eq env.machine_id j then some m' else lookup_machine j d))
unfolding daemon_start_controllers
daemon_start_controllers-success w o bytes d j h =
    let (env, m, cs, r, f, c, s, e) =
      on_envelopes-success (new_controller_confs w.decode_controller) (start_controllers o)
        (w.read_controllers bytes) d h in
    (
      env,
      m,
      (start_controllers o cs m).0,
      cs,
      r,
      f,
      c,
      (start_controllers-success o cs m s).0,
      rw e (lookup-put_machine env.machine_id j (start_controllers o cs m) d),
    )
