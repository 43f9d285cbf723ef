-- ===== src/Machine/WellFormed/Starting.antt =====
-- pkg/machine/machine.go: the invariant and the starting of drivers and controllers.
use embd_project.Prelude.{◌+◌, String, ◌≡◌, inl, inr, ◌⊎◌, List, [], ◌∷◌, arith, Option-cases}
use embd_project.Machine.{
  DriverConf, ControllerConf, Machine, Outside, log_status, lookup_driver, lookup_controller,
  lookup_adaptor, subscribe_all, alloc_both,
}
use embd_project.Machine.Snapshots.{with_snapshot-machine, Outcome-cases}
use embd_project.Machine.Routes.{subscribe_all-SoundRoutes, alloc_both-SoundRoutes}
use embd_project.Machine.Drivers
use embd_project.Machine.Drivers.{start_drivers, stop_driver}
use embd_project.Machine.Controllers
use embd_project.Machine.Controllers.{start_controllers, stop_controller}
use embd_project.Machine.WellFormed.{WellFormed, SameRouting, keep}

-- What a round that starts a part makes of the routing, if it gets that far.
abbrev Added : String → List String → Machine → Machine → Type 0
Added id ts m m' =
    (m'.next_ptr ≡ m.next_ptr + 2)
    × (m'.queues ≡ alloc_both id m)
    × (m'.msg_router ≡ (subscribe_all ts m.next_ptr (alloc_both id m) m.msg_router).0)

Added-WellFormed :
    (id : String) (ts : List String) (m m' : Machine)
    → SameRouting m m' ⊎ Added id ts m m'
    → WellFormed m
    → WellFormed m'
Added-WellFormed id ts m m' (inl same) w = keep m m' same w
Added-WellFormed id ts m m' (inr (n, q, r)) w =
    rw (n, q, r)
      (subscribe_all-SoundRoutes ts (m.next_ptr + 2) m.next_ptr (alloc_both id m) m.msg_router
        (omega arith) (alloc_both-SoundRoutes id m w))

start_driver_round :
    (o : Outside) (c : DriverConf) (m : Machine)
    → SameRouting m (Drivers.start_one o c m).0
      ⊎ Added c.id c.subscriptions m (Drivers.start_one o c m).0
unfolding Drivers.start_one
start_driver_round o c m = elim (Option-cases (lookup_driver c.typ m)) [
  | inr (d, e) ↦ inl (ground arith)
  | inl e ↦ elim (Option-cases (lookup_adaptor c.adaptor_id m)) [
    | inl f ↦ inl (ground arith)
    | inr (a, f) ↦ inr (ground arith)
  ]
]

start_controller_round :
    (o : Outside) (c : ControllerConf) (m : Machine)
    → SameRouting m (Controllers.start_one o c m).0
      ⊎ Added c.id c.subscriptions m (Controllers.start_one o c m).0
unfolding Controllers.start_one log_status
start_controller_round o c m = elim (Option-cases (lookup_controller c.typ m)) [
  | inr (d, e) ↦ inl (ground arith)
  | inl e ↦ inr (ground arith)
]

-- A loop whose rounds keep the invariant, and which stops at the first failure.
start_drivers_loop-WellFormed :
    (o : Outside) (cs : List DriverConf) (m : Machine)
    → WellFormed m
    → WellFormed (Drivers.start_loop o cs m).0
unfolding Drivers.start_loop log_status
start_drivers_loop-WellFormed o [] m w = w
start_drivers_loop-WellFormed o (c ∷ cs) m w =
    let m' = (Drivers.start_one o c m).0 in
    let w' = Added-WellFormed c.id c.subscriptions m m' (start_driver_round o c m) w in
    elim (Outcome-cases (Drivers.start_one o c m).1) [
      | inl e ↦ rw (Drivers.start_loop, e) (start_drivers_loop-WellFormed o cs m' w')
      | inr (inl (x, e)) ↦ rw (Drivers.start_loop, e) w'
      | inr (inr e) ↦ rw (Drivers.start_loop, e) w'
    ]

start_controllers_loop-WellFormed :
    (o : Outside) (cs : List ControllerConf) (m : Machine)
    → WellFormed m
    → WellFormed (Controllers.start_loop o cs m).0
unfolding Controllers.start_loop log_status
start_controllers_loop-WellFormed o [] m w = w
start_controllers_loop-WellFormed o (c ∷ cs) m w =
    let m' = (Controllers.start_one o c m).0 in
    let w' = Added-WellFormed c.id c.subscriptions m m' (start_controller_round o c m) w in
    elim (Outcome-cases (Controllers.start_one o c m).1) [
      | inl e ↦ rw (Controllers.start_loop, e) (start_controllers_loop-WellFormed o cs m' w')
      | inr (inl (x, e)) ↦ rw (Controllers.start_loop, e) w'
      | inr (inr e) ↦ rw (Controllers.start_loop, e) w'
    ]

pub start_drivers-WellFormed :
    (o : Outside) (cs : List DriverConf) (m : Machine)
    → WellFormed m
    → WellFormed (start_drivers o cs m).0
unfolding start_drivers Drivers.start_confs
start_drivers-WellFormed o [] m w = rw (with_snapshot-machine o (Drivers.start_confs o [] m)) w
start_drivers-WellFormed o (c ∷ cs) m w =
    rw (with_snapshot-machine o (Drivers.start_confs o (c ∷ cs) m))
      (start_drivers_loop-WellFormed o (c ∷ cs) m w)

pub start_controllers-WellFormed :
    (o : Outside) (cs : List ControllerConf) (m : Machine)
    → WellFormed m
    → WellFormed (start_controllers o cs m).0
unfolding start_controllers Controllers.start_confs
start_controllers-WellFormed o [] m w =
    rw (with_snapshot-machine o (Controllers.start_confs o [] m)) w
start_controllers-WellFormed o (c ∷ cs) m w =
    rw (with_snapshot-machine o (Controllers.start_confs o (c ∷ cs) m))
      (start_controllers_loop-WellFormed o (c ∷ cs) m w)
