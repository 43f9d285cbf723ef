-- ===== src/Machine/WellFormed.antt =====
-- pkg/machine/machine.go: the invariant of a machine.
pub mod Starting
pub mod Stopping
pub mod Calls
use embd_project.Prelude.{◌≡◌}
use embd_project.Machine.{Machine}
use embd_project.Machine.Routes.{SoundRoutes}

abbrev pub WellFormed : Machine → Type 0
WellFormed m = SoundRoutes m.next_ptr m.queues m.msg_router

-- What WellFormed depends on is the same in both machines.
abbrev pub SameRouting : Machine → Machine → Type 0
SameRouting m m' =
    (m'.next_ptr ≡ m.next_ptr) × (m'.queues ≡ m.queues) × (m'.msg_router ≡ m.msg_router)

pub keep : (m m' : Machine) → SameRouting m m' → WellFormed m → WellFormed m'
keep m m' (n, q, r) w = rw (n, q, r) w
