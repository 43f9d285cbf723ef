-- ===== src/Daemon/Leave/Emptied.antt =====
-- What `MachineLeave` has done when it returns no error.
use embd_project.Prelude.{
  ℕ, zero, suc, String, ◌+◌, ◌≡◌, refl, ◌≢◌, inl, inr, Bool, List, [], ◌∷◌, ◌++◌, map, none, some,
  arith, str_eq, length, length-append, length-eq_zero, get_elem?, Option-cases, if◌then◌else◌,
}
use embd_project.Prelude.Maps.{lookup-delete, lookup-insert}
use embd_project.Machine.{
  AdaptorConf, Driver, DriverConf, Controller, ControllerConf, Machine, Outside, Outcome, success,
  log_status,
}
use embd_project.Machine.Snapshots.{with_snapshot-machine, Outcome-cases}
use embd_project.Machine.Adaptors.{detach_one, detach_adaptor}
use embd_project.Machine.Drivers
use embd_project.Machine.Controllers
use embd_project.Daemon.{Daemon, lookup_machine}
use embd_project.Daemon.Leave.{
  range_stop, last_cells, adaptor_slice, driver_slice, controller_slice, leave_controllers,
  leave_drivers, leave_adaptors, leave_parts, machine_leave,
}
use embd_project.Daemon.Leave.Removing.{
  Removes, same_adaptor, same_driver, same_controller, detach_adaptor-Removes, stop_driver-Removes,
  stop_controller-Removes,
}

module _ {C : Type 0} (slice : Machine → List C) (same : C → C → Bool)
    (remove : C → Machine → Machine × Outcome) (law : Removes slice same remove) where
  -- Each round that succeeds has made the slice one shorter.
  range_stop-length :
      (n i : ℕ) (behind : List C) (m : Machine)
      → (range_stop slice remove n i behind m).1 ≡ success
      → length (slice m) ≡ n + length (slice (range_stop slice remove n i behind m).0)
  unfolding range_stop
  range_stop-length zero i behind m h = omega arith
  range_stop-length (suc n) i behind m h = elim (Option-cases (get_elem? (slice m ++ behind) i)) [
    | inl e ↦ absurd (ground arith)
    | inr (c, e) ↦ elim (Outcome-cases (remove c m).1) [
      | inl r ↦
          let (x, before, after, p, q, _) = law c m r in
          ground (
            arith,
            p,
            q,
            length-append before (x ∷ after),
            length-append before after,
            range_stop-length n (suc i) (last_cells (slice m) ++ behind) (remove c m).0,
          )
      | inr r ↦ absurd (ground arith)
    ]
  ]

  pub range_stop-empties :
      (m : Machine)
      → (range_stop slice remove (length (slice m)) 0 [] m).1 ≡ success
      → slice (range_stop slice remove (length (slice m)) 0 [] m).0 ≡ []
  range_stop-empties m h =
      length-eq_zero _ (omega (arith, range_stop-length (length (slice m)) 0 [] m h))

-- What the removals leave alone, the loop leaves alone.
pub range_stop-keeps :
    {C X : Type 0} (slice : Machine → List C) (remove : C → Machine → Machine × Outcome)
    (part : Machine → X)
    → ((c : C) (m : Machine) → part (remove c m).0 ≡ part m)
    → (n i : ℕ) (behind : List C) (m : Machine)
    → part (range_stop slice remove n i behind m).0 ≡ part m
unfolding range_stop
range_stop-keeps slice remove part keep zero i behind m = refl
range_stop-keeps slice remove part keep (suc n) i behind m =
    elim (Option-cases (get_elem? (slice m ++ behind) i)) [
      | inl e ↦ ground arith
      | inr (c, e) ↦ ground (
        arith,
        keep c m,
        range_stop-keeps slice remove part keep n (suc i) (last_cells (slice m) ++ behind)
            (remove c m).0,
      )
    ]

detach_adaptor-keeps :
    (o : Outside) (a : AdaptorConf) (m : Machine)
    → ((detach_adaptor o a.typ a.id m).0.drivers ≡ m.drivers)
      × ((detach_adaptor o a.typ a.id m).0.controllers ≡ m.controllers)
unfolding detach_adaptor detach_one log_status
detach_adaptor-keeps o a m =
    let same = with_snapshot-machine o (detach_one o a.typ a.id m) in
    (ground (arith, same), ground (arith, same))

pub stop_driver-keeps :
    (o : Outside) (d : DriverConf) (m : Machine)
    → ((Drivers.stop_driver o d.typ d.id m).0.controllers ≡ m.controllers)
      × ((Drivers.stop_driver o d.typ d.id m).0.adaptors ≡ m.adaptors)
unfolding Drivers.stop_driver Drivers.stop_one Drivers.stop_found Drivers.finish_stop log_status
stop_driver-keeps o d m =
    let same = with_snapshot-machine o (Drivers.stop_one o d.typ d.id m) in
    (ground (arith, same), ground (arith, same))

pub stop_controller-keeps :
    (o : Outside) (c : ControllerConf) (m : Machine)
    → ((Controllers.stop_controller o c.id m).0.drivers ≡ m.drivers)
      × ((Controllers.stop_controller o c.id m).0.adaptors ≡ m.adaptors)
unfolding Controllers.stop_controller Controllers.stop_one Controllers.stop_found
    Controllers.finish_stop log_status
stop_controller-keeps o c m =
    let same = with_snapshot-machine o (Controllers.stop_one o c.id m) in
    (ground (arith, same), ground (arith, same))

map-eq_nil : {A B : Type 0} (f : A → B) (xs : List A) → map f xs ≡ [] → xs ≡ []
map-eq_nil f [] h = refl
map-eq_nil f (x ∷ xs) h = cc

leave_controllers-success :
    (o : Outside) (m : Machine)
    → (leave_controllers o m).1 ≡ success
    → (leave_controllers o m).0.controllers ≡ []
unfolding leave_controllers
leave_controllers-success o m h =
    map-eq_nil (λ c. c.conf) (leave_controllers o m).0.controllers
      (range_stop-empties controller_slice same_controller _ (stop_controller-Removes o) m h)

leave_drivers-success :
    (o : Outside) (m : Machine)
    → (leave_drivers o m).1 ≡ success
    → ((leave_drivers o m).0.drivers ≡ []) × ((leave_drivers o m).0.controllers ≡ m.controllers)
unfolding leave_drivers
leave_drivers-success o m h = (
  map-eq_nil (λ d. d.conf) (leave_drivers o m).0.drivers
      (range_stop-empties driver_slice same_driver _ (stop_driver-Removes o) m h),
  range_stop-keeps driver_slice (λ d. Drivers.stop_driver o d.typ d.id) (λ n. n.controllers)
      (λ d n. (stop_driver-keeps o d n).0) (length (driver_slice m)) 0 [] m,
)

leave_adaptors-success :
    (o : Outside) (m : Machine)
    → (leave_adaptors o m).1 ≡ success
    → ((leave_adaptors o m).0.adaptors ≡ [])
      × ((leave_adaptors o m).0.drivers ≡ m.drivers)
      × ((leave_adaptors o m).0.controllers ≡ m.controllers)
unfolding leave_adaptors
leave_adaptors-success o m h =
    let kept =
      λ (X : Type 0) (part : Machine → X)
          (keep : (c : AdaptorConf) (n : Machine)
            → part (detach_adaptor o c.typ c.id n).0 ≡ part n).
        range_stop-keeps adaptor_slice (λ a. detach_adaptor o a.typ a.id) part keep
          (length (adaptor_slice m)) 0 [] m in
    (
      range_stop-empties adaptor_slice same_adaptor _ (detach_adaptor-Removes o) m h,
      kept (List Driver) (λ n. n.drivers) (λ a n. (detach_adaptor-keeps o a n).0),
      kept (List Controller) (λ n. n.controllers) (λ a n. (detach_adaptor-keeps o a n).1),
    )

leave_parts-success :
    (o : Outside) (m : Machine)
    → (leave_parts o m).1 ≡ success
    → ((leave_parts o m).0.controllers ≡ [])
      × ((leave_parts o m).0.drivers ≡ [])
      × ((leave_parts o m).0.adaptors ≡ [])
unfolding leave_parts
leave_parts-success o m h =
    let a = leave_controllers-success o m in
    let b = leave_drivers-success o (leave_controllers o m).0 in
    let c = leave_adaptors-success o (leave_drivers o (leave_controllers o m).0).0 in
    ground (arith, a, b, c)

-- When `MachineLeave` of a known machine returns no error, then every controller and driver of the
-- machine has been stopped and every adaptor detached, the machine is known no more, and the other
-- machines are as before.
pub machine_leave-success :
    (o : Outside) (id j : String) (d : Daemon) (m : Machine)
    → lookup_machine id d ≡ some m
    → (machine_leave o id d).1 ≡ success
    → ((leave_parts o m).0.controllers ≡ [])
      × ((leave_parts o m).0.drivers ≡ [])
      × ((leave_parts o m).0.adaptors ≡ [])
      × (lookup_machine j (machine_leave o id d).0
          ≡ (if str_eq id j then none else lookup_machine j d))
unfolding machine_leave lookup_machine
machine_leave-success o id j d m e h =
    let parts = leave_parts-success o m (ground arith) in
    (parts.0, parts.1, parts.2, ground (arith, lookup-delete id j d.machines))

-- When `MachineLeave` of a known machine does not succeed, then the machine is still known, as the
-- calls left it that were made before the failure, and the other machines are as before.
pub machine_leave-failure :
    (o : Outside) (id j : String) (d : Daemon) (m : Machine)
    → lookup_machine id d ≡ some m
    → (leave_parts o m).1 ≢ success
    → ((machine_leave o id d).1 ≢ success)
      × (lookup_machine j (machine_leave o id d).0
          ≡ (if str_eq id j then some (leave_parts o m).0 else lookup_machine j d))
unfolding machine_leave lookup_machine
machine_leave-failure o id j d m e n = elim (Outcome-cases (leave_parts o m).1) [
  | inl s ↦ absurd (n s)
  | inr (inl (x, f)) ↦
      (λ s. ground arith, ground (arith, lookup-insert id j (leave_parts o m).0 d.machines))
  | inr (inr f) ↦
      (λ s. ground arith, ground (arith, lookup-insert id j (leave_parts o m).0 d.machines))
]
