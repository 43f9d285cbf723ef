-- ===== src/Daemon/Leave/Skipping.antt =====
-- daemon/daemon/machine.go: `MachineLeave` of machines with many parts.
use embd_project.Prelude.{
  String, ◌≤◌, ◌≡◌, ◌≢◌, refl, ◌∙◌, ◌⊎◌, inl, inr, List, [], ◌∷◌, map, none, some, arith, str_eq,
  eq_iff, length,
}
use embd_project.Machine.{Driver, Controller, Machine, Outside, success}
use embd_project.Daemon.{Daemon, lookup_machine}
use embd_project.Daemon.Leave.{
  adaptor_slice, driver_slice, controller_slice, leave_controllers, leave_drivers, leave_adaptors,
  leave_parts, machine_leave,
}
use embd_project.Daemon.Leave.Removing.{
  same_adaptor, same_driver, same_controller, detach_adaptor-Removes, stop_driver-Removes,
  stop_controller-Removes,
}
use embd_project.Machine.Adaptors.{detach_adaptor}
use embd_project.Machine.Drivers.{stop_driver}
use embd_project.Machine.Controllers.{stop_controller}
use embd_project.Daemon.Leave.Emptied.{
  range_stop-keeps, stop_driver-keeps, stop_controller-keeps, machine_leave-failure,
}
use embd_project.Daemon.Leave.Missing.{AllDifferent, range_stop-skips}

-- More than two parts of one kind, no two of them with one id (drivers and adaptors: with one type
-- and id).
abbrev pub TooMany : Machine → Type 0
TooMany m =
    ((3 ≤ length m.controllers) × AllDifferent same_controller (controller_slice m))
    ⊎ (((3 ≤ length m.drivers) × AllDifferent same_driver (driver_slice m))
        ⊎ ((3 ≤ length m.adaptors) × AllDifferent same_adaptor (adaptor_slice m)))

length-map : {A B : Type 0} (f : A → B) (xs : List A) → length (map f xs) ≡ length xs
length-map f [] = refl
length-map f (x ∷ xs) = omega (arith, length-map f xs)

str_eq_comm : (s t : String) → str_eq s t ≡ str_eq t s
str_eq_comm s t = ground (arith, eq_iff s t, eq_iff t s)

leave_controllers-skips :
    (o : Outside) (m : Machine)
    → 3 ≤ length m.controllers
    → AllDifferent same_controller (controller_slice m)
    → (leave_controllers o m).1 ≢ success
unfolding leave_controllers
leave_controllers-skips o m h d =
    range_stop-skips controller_slice same_controller (λ c. stop_controller o c.id)
      (stop_controller-Removes o) (λ a b. str_eq_comm a.id b.id) m d
      (omega (arith, length-map (λ (c : Controller). c.conf) m.controllers))

leave_drivers-skips :
    (o : Outside) (m : Machine)
    → 3 ≤ length m.drivers
    → AllDifferent same_driver (driver_slice m)
    → (leave_drivers o m).1 ≢ success
unfolding leave_drivers
leave_drivers-skips o m h d =
    range_stop-skips driver_slice same_driver (λ c. stop_driver o c.typ c.id)
      (stop_driver-Removes o)
      (λ a b. ground (arith, str_eq_comm a.id b.id, str_eq_comm a.typ b.typ)) m d
      (omega (arith, length-map (λ (c : Driver). c.conf) m.drivers))

leave_adaptors-skips :
    (o : Outside) (m : Machine)
    → 3 ≤ length m.adaptors
    → AllDifferent same_adaptor (adaptor_slice m)
    → (leave_adaptors o m).1 ≢ success
unfolding leave_adaptors
leave_adaptors-skips o m h d =
    range_stop-skips adaptor_slice same_adaptor (λ c. detach_adaptor o c.typ c.id)
      (detach_adaptor-Removes o)
      (λ a b. ground (arith, str_eq_comm a.id b.id, str_eq_comm a.typ b.typ)) m d h

leave_controllers-keeps :
    (o : Outside) (m : Machine)
    → ((leave_controllers o m).0.drivers ≡ m.drivers)
      × ((leave_controllers o m).0.adaptors ≡ m.adaptors)
unfolding leave_controllers
leave_controllers-keeps o m = (
  range_stop-keeps controller_slice (λ c. stop_controller o c.id) (λ n. n.drivers)
      (λ c n. (stop_controller-keeps o c n).0) (length (controller_slice m)) 0 [] m,
  range_stop-keeps controller_slice (λ c. stop_controller o c.id) (λ n. n.adaptors)
      (λ c n. (stop_controller-keeps o c n).1) (length (controller_slice m)) 0 [] m,
)

leave_drivers-keeps : (o : Outside) (m : Machine) → (leave_drivers o m).0.adaptors ≡ m.adaptors
unfolding leave_drivers
leave_drivers-keeps o m =
    range_stop-keeps driver_slice (λ d. stop_driver o d.typ d.id) (λ n. n.adaptors)
      (λ d n. (stop_driver-keeps o d n).1) (length (driver_slice m)) 0 [] m

leave_parts-TooMany : (o : Outside) (m : Machine) → TooMany m → (leave_parts o m).1 ≢ success
unfolding leave_parts
leave_parts-TooMany o m (inl (h, d)) s = ground (arith, leave_controllers-skips o m h d)
leave_parts-TooMany o m (inr (inl (h, d))) s =
    let m1 = (leave_controllers o m).0 in
    let same = (leave_controllers-keeps o m).0 in
    let no_success = leave_drivers-skips o m1 (rw same h) (rw same d) in ground (arith, no_success)
leave_parts-TooMany o m (inr (inr (h, d))) s =
    let m1 = (leave_controllers o m).0 in
    let m2 = (leave_drivers o m1).0 in
    let same = leave_drivers-keeps o m1 ∙ (leave_controllers-keeps o m).1 in
    let no_success = leave_adaptors-skips o m2 (rw same h) (rw same d) in ground (arith, no_success)

-- `MachineLeave` of a machine with more than two controllers, drivers or adaptors, no two of the kind
-- with one id (drivers and adaptors: with one type and id), never succeeds, whatever the devices and
-- files answer, and the machine is still known afterwards.
pub machine_leave-TooMany :
    (o : Outside) (id : String) (d : Daemon) (m : Machine)
    → lookup_machine id d ≡ some m
    → TooMany m
    → ((machine_leave o id d).1 ≢ success) × (lookup_machine id (machine_leave o id d).0 ≢ none)
machine_leave-TooMany o id d m e many =
    let failed = machine_leave-failure o id id d m e (leave_parts-TooMany o m many) in
    (failed.0, λ n. ground (arith, failed.1, eq_iff id id))
