-- ===== src/Daemon/Leave/Removing.antt =====
-- What one round of the loops of `MachineLeave` does to the slice that it ranges over.
use embd_project.Prelude.{
  String, ◌≡◌, Bool, true, ◌&&◌, List, [], ◌∷◌, ◌++◌, map, some, arith, str_eq, eq_iff, inl, inr,
  Option-cases, Bool-cases,
}
use mathlib.Core.List.{map-append}
use embd_project.Machine.{
  AdaptorConf, Driver, DriverConf, Controller, ControllerConf, Machine, Outside, Outcome, success,
  log_status,
}
use embd_project.Machine.Snapshots.{with_snapshot-machine, with_snapshot-success}
use embd_project.Machine.Adaptors.{detach_adaptor}
use embd_project.Machine.Detached.{detach_adaptor-success}
use embd_project.Machine.Drivers
use embd_project.Machine.Drivers.Stopped.{
  find_to_stop-is_driver, remove_driver-put_driver, stop-success,
}
use embd_project.Machine.Controllers.Stopped.{remove_controller-close_controller}
use embd_project.Machine.Drivers.{is_driver}
use embd_project.Machine.Controllers
use embd_project.Daemon.Leave.{adaptor_slice, driver_slice, controller_slice}

-- A call that succeeds has taken out one element, the same as the argument.
abbrev pub Removes :
    {C : Type 0} → (Machine → List C) → (C → C → Bool) → (C → Machine → Machine × Outcome) → Type 0
Removes {C} slice same remove =
    (c : C) (m : Machine)
    → (remove c m).1 ≡ success
    → (x : C) × (before : List C) × (after : List C) × (slice m ≡ before ++ x ∷ after)
      × (slice (remove c m).0 ≡ before ++ after)
      × (same c x ≡ true)

abbrev pub same_adaptor : AdaptorConf → AdaptorConf → Bool
same_adaptor a b = str_eq a.typ b.typ && str_eq a.id b.id

abbrev pub same_driver : DriverConf → DriverConf → Bool
same_driver a b = str_eq a.typ b.typ && str_eq a.id b.id

abbrev pub same_controller : ControllerConf → ControllerConf → Bool
same_controller a b = str_eq a.id b.id

pub detach_adaptor-Removes :
    (o : Outside) → Removes adaptor_slice same_adaptor (λ a. detach_adaptor o a.typ a.id)
detach_adaptor-Removes o a m h =
    let (x, before, after, p, q, r) = detach_adaptor-success o a.typ a.id m h in
    (
      x,
      before,
      after,
      p,
      q,
      ground (arith, r, eq_iff a.typ x.typ, eq_iff a.id x.id, eq_iff x.typ a.typ, eq_iff x.id a.id),
    )

remove_controller-parts :
    (id : String) (cs : List Controller) (c : Controller)
    → Controllers.find_to_stop id cs ≡ some c
    → (before : List Controller) × (after : List Controller) × (cs ≡ before ++ c ∷ after)
      × (Controllers.remove_controller id cs ≡ before ++ after)
      × (str_eq c.conf.id id ≡ true)
unfolding Controllers.find_to_stop Controllers.remove_controller
remove_controller-parts id [] c h = cc
remove_controller-parts id (x ∷ cs) c h = elim (Bool-cases (str_eq x.conf.id id)) [
  | inl hit ↦ ([], cs, ground arith, ground arith, ground arith)
  | inr miss ↦
      let (before, after, p, q, r) = remove_controller-parts id cs c (ground arith) in
      (x ∷ before, after, ground (arith, p), ground (arith, q), r)
]

stop_controller-found :
    (o : Outside) (id : String) (m : Machine)
    → (Controllers.stop_controller o id m).1 ≡ success
    → (c : Controller) × (Controllers.find_to_stop id m.controllers ≡ some c)
      × ((Controllers.stop_controller o id m).0.controllers
          ≡ Controllers.remove_controller id m.controllers)
unfolding Controllers.stop_controller Controllers.stop_one Controllers.finish_stop log_status
stop_controller-found o id m h =
    let same = with_snapshot-machine o (Controllers.stop_one o id m) in
    let fine = with_snapshot-success o (Controllers.stop_one o id m) in
    elim (Option-cases (Controllers.find_to_stop id m.controllers)) [
      | inl e ↦ absurd (ground (arith, fine))
      | inr (c, e) ↦ (
        c,
        e,
        ground (
          arith,
          same,
          fine,
          Controllers.Stopped.stop_found-success o id c m,
          remove_controller-close_controller id m.controllers,
        ),
      )
    ]

pub stop_controller-Removes :
    (o : Outside)
    → Removes controller_slice same_controller (λ c. Controllers.stop_controller o c.id)
stop_controller-Removes o c m h =
    let (x, f, e) = stop_controller-found o c.id m h in
    let (before, after, p, q, r) = remove_controller-parts c.id m.controllers x f in
    (
      x.conf,
      map (λ y. y.conf) before,
      map (λ y. y.conf) after,
      ground (arith, p, map-append (λ (y : Controller). y.conf) before (x ∷ after)),
      ground (arith, e, q, map-append (λ (y : Controller). y.conf) before after),
      ground (arith, r, eq_iff x.conf.id c.id, eq_iff c.id x.conf.id),
    )

remove_driver-parts :
    (t id : String) (ds : List Driver) (d : Driver)
    → Drivers.find_to_stop t id ds ≡ some d
    → (before : List Driver) × (after : List Driver) × (ds ≡ before ++ d ∷ after)
      × (Drivers.remove_driver t id ds ≡ before ++ after)
unfolding Drivers.find_to_stop Drivers.remove_driver
remove_driver-parts t id [] d h = cc
remove_driver-parts t id (x ∷ ds) d h = elim (Bool-cases (is_driver t id x)) [
  | inl hit ↦ ([], ds, ground arith, ground arith)
  | inr miss ↦
      let (before, after, p, q) = remove_driver-parts t id ds d (ground arith) in
      (x ∷ before, after, ground (arith, p), ground (arith, q))
]

stop_driver-found :
    (o : Outside) (t id : String) (m : Machine)
    → (Drivers.stop_driver o t id m).1 ≡ success
    → (d : Driver) × (Drivers.find_to_stop t id m.drivers ≡ some d)
      × ((Drivers.stop_driver o t id m).0.drivers ≡ Drivers.remove_driver t id m.drivers)
unfolding Drivers.stop_driver Drivers.stop_one Drivers.finish_stop log_status
stop_driver-found o t id m h =
    let same = with_snapshot-machine o (Drivers.stop_one o t id m) in
    let fine = with_snapshot-success o (Drivers.stop_one o t id m) in
    elim (Option-cases (Drivers.find_to_stop t id m.drivers)) [
      | inl e ↦ absurd (ground (arith, fine))
      | inr (d, e) ↦
          let i = find_to_stop-is_driver t id m.drivers d e in
          (
            d,
            e,
            ground (
              arith,
              same,
              fine,
              Drivers.Stopped.stop_found-success o t id d m,
              stop-success o m d,
              i,
              remove_driver-put_driver (Drivers.stop o m d).0 t id m.drivers,
            ),
          )
    ]

pub stop_driver-Removes :
    (o : Outside) → Removes driver_slice same_driver (λ d. Drivers.stop_driver o d.typ d.id)
stop_driver-Removes o d m h =
    let (x, f, e) = stop_driver-found o d.typ d.id m h in
    let (before, after, p, q) = remove_driver-parts d.typ d.id m.drivers x f in
    let r = find_to_stop-is_driver d.typ d.id m.drivers x f in
    (
      x.conf,
      map (λ y. y.conf) before,
      map (λ y. y.conf) after,
      ground (arith, p, map-append (λ (y : Driver). y.conf) before (x ∷ after)),
      ground (arith, e, q, map-append (λ (y : Driver). y.conf) before after),
      ground (
        arith,
        r,
        eq_iff x.conf.id d.id,
        eq_iff d.id x.conf.id,
        eq_iff x.conf.typ d.typ,
        eq_iff d.typ x.conf.typ,
      ),
    )
