-- ===== src/Daemon/Leave.antt =====
-- daemon/daemon/machine.go, `MachineLeave`. Its three loops range over a slice of the machine while
-- the machine's own method takes elements out of that slice in place: the range keeps the array and
-- the length that it began with, and each removal moves the later elements one cell to the left, so
-- that the array is what the slice holds now, and behind it the cells that the slice has left.
pub mod Removing
pub mod Emptied
pub mod Missing
pub mod Skipping
use embd_project.Prelude.{
  ℕ, zero, suc, String, List, [], ◌∷◌, ◌++◌, map, Option, none, some, length, get_elem?,
}
use embd_project.Prelude.Maps.{delete}
use embd_project.Errors.{no_machine}
use embd_project.Machine.{
  AdaptorConf, Driver, DriverConf, Controller, ControllerConf, Machine, Outside, Outcome, success,
  fails, stuck,
}
use embd_project.Machine.Adaptors.{detach_adaptor}
use embd_project.Machine.Drivers.{stop_driver}
use embd_project.Machine.Controllers.{stop_controller}
use embd_project.Daemon.{Daemon, lookup_machine, put_machine}

-- The last element of a slice.
abbrev pub last_cells {ℓ} : {A : Type ℓ} → List A → List A
last_cells [] = []
last_cells (x ∷ []) = x ∷ []
last_cells (x ∷ y ∷ xs) = last_cells (y ∷ xs)

-- `for _, part := range slice { err := mh.Remove(part); if err != nil { return err } }`, where the
-- slice is read off the machine: the rounds left, the round's index, the cells behind the slice.
-- An index outside the array, which would panic, cannot occur: the array keeps its length.
unfoldable pub range_stop :
    {C : Type 0}
    → (Machine → List C)
    → (C → Machine → Machine × Outcome)
    → ℕ
    → ℕ
    → List C
    → Machine
    → Machine × Outcome
range_stop slice remove zero i behind m = (m, success)
range_stop slice remove (suc n) i behind m = elim (get_elem? (slice m ++ behind) i) [
  | none ↦ (m, stuck)
  | some c ↦
      let (m', r) = remove c m in
      elim r [
        | success ↦ range_stop slice remove n (suc i) (last_cells (slice m) ++ behind) m'
        | fails x ↦ (m', fails x)
        | stuck ↦ (m', stuck)
      ]
]

abbrev pub adaptor_slice : Machine → List AdaptorConf
adaptor_slice m = m.adaptors

abbrev pub driver_slice : Machine → List DriverConf
driver_slice m = map (λ d. d.conf) m.drivers

abbrev pub controller_slice : Machine → List ControllerConf
controller_slice m = map (λ c. c.conf) m.controllers

unfoldable pub leave_controllers : Outside → Machine → Machine × Outcome
leave_controllers o m =
    range_stop controller_slice (λ c. stop_controller o c.id) (length (controller_slice m)) 0 [] m

unfoldable pub leave_drivers : Outside → Machine → Machine × Outcome
leave_drivers o m =
    range_stop driver_slice (λ d. stop_driver o d.typ d.id) (length (driver_slice m)) 0 [] m

unfoldable pub leave_adaptors : Outside → Machine → Machine × Outcome
leave_adaptors o m =
    range_stop adaptor_slice (λ a. detach_adaptor o a.typ a.id) (length (adaptor_slice m)) 0 [] m

-- The part of `MachineLeave` that follows if the part before it had no error.
abbrev pub then_leave : Machine × Outcome → (Machine → Machine × Outcome) → Machine × Outcome
then_leave (m, success) f = f m
then_leave (m, fails x) f = (m, fails x)
then_leave (m, stuck) f = (m, stuck)

unfoldable pub leave_parts : Outside → Machine → Machine × Outcome
leave_parts o m =
    then_leave (then_leave (leave_controllers o m) (leave_drivers o)) (leave_adaptors o)

-- The deletion of the machine, which only follows if all its parts were stopped.
abbrev pub forget : String → Machine × Outcome → Daemon → Daemon × Outcome
forget id (m, success) d = (record d { machines = delete id d.machines }, success)
forget id (m, fails x) d = put_machine id (m, fails x) d
forget id (m, stuck) d = put_machine id (m, stuck) d

unfoldable pub machine_leave : Outside → String → Daemon → Daemon × Outcome
machine_leave o id d = elim (lookup_machine id d) [
  | none ↦ (d, fails (no_machine id))
  | some m ↦ forget id (leave_parts o m) d
]
