-- ===== src/Machine/WellFormed/Stopping.antt =====
-- pkg/machine/machine.go: the invariant and the stopping of drivers and controllers.
use embd_project.Prelude.{String, ◌≡◌, inl, inr, ◌⊎◌, List, arith, Option-cases}
use embd_project.Machine.{
  Driver, Controller, Machine, Outside, log_status, unsubscribe_all, shut_both,
}
use embd_project.Machine.Snapshots.{with_snapshot-machine, Outcome-cases}
use embd_project.Machine.Unsubscribed.{SameIds, shut_both-SameIds}
use embd_project.Machine.Routes.{unsubscribe_all-SoundRoutes, SoundRoutes-SameIds}
use embd_project.Machine.Drivers
use embd_project.Machine.Drivers.{start_drivers, stop_driver}
use embd_project.Machine.Drivers.Stopped.{stop-SameIds}
use embd_project.Machine.Controllers
use embd_project.Machine.Controllers.{start_controllers, stop_controller}
use embd_project.Machine.WellFormed.{WellFormed}

-- What stopping a part makes of the routing: its queues may be shut down, and the id may be
-- unsubscribed from types.
abbrev Removed : String → List String → Machine → Machine → Type 0
Removed id ts m m' =
    (m'.next_ptr ≡ m.next_ptr)
    × ((m'.msg_router ≡ m.msg_router)
        ⊎ (m'.msg_router ≡ (unsubscribe_all ts id m'.queues m.msg_router).0))

Removed-WellFormed :
    (id : String) (ts : List String) (m m' : Machine)
    → SameIds m.queues m'.queues
    → Removed id ts m m'
    → WellFormed m
    → WellFormed m'
Removed-WellFormed id ts m m' same (n, inl r) w =
    rw (n, r) (SoundRoutes-SameIds m.next_ptr m.queues m'.queues m.msg_router same w)
Removed-WellFormed id ts m m' same (n, inr r) w =
    rw (n, r)
      (unsubscribe_all-SoundRoutes ts id m.next_ptr m'.queues m.msg_router
        (SoundRoutes-SameIds m.next_ptr m.queues m'.queues m.msg_router same w))

stop_found_driver :
    (o : Outside) (t id : String) (d : Driver) (m : Machine)
    → ((Drivers.stop_found o t id d m).0.queues ≡ (Drivers.stop o m d).1)
      × Removed d.conf.id d.conf.subscriptions m (Drivers.stop_found o t id d m).0
unfolding Drivers.stop_found Drivers.finish_stop log_status
stop_found_driver o t id d m = elim (Outcome-cases (Drivers.stop o m d).2) [
  | inr (inl (x, e)) ↦ (ground arith, (ground arith, inl (ground arith)))
  | inr (inr e) ↦ (ground arith, (ground arith, inl (ground arith)))
  | inl e ↦
      elim (Option-cases
        (unsubscribe_all d.conf.subscriptions d.conf.id (Drivers.stop o m d).1 m.msg_router).1) [
          | inl f ↦ (ground arith, (ground arith, inr (ground arith)))
          | inr (x, f) ↦ (ground arith, (ground arith, inr (ground arith)))
        ]
]

stop_found_controller :
    (o : Outside) (id : String) (c : Controller) (m : Machine)
    → ((Controllers.stop_found o id c m).0.queues ≡ shut_both c.rcv_q c.snd_q m.queues)
      × Removed c.conf.id c.conf.subscriptions m (Controllers.stop_found o id c m).0
unfolding Controllers.stop_found Controllers.finish_stop Controllers.stop log_status
stop_found_controller o id c m = elim (Outcome-cases (Controllers.stop o m c).1) [
  | inr (inl (x, e)) ↦ (ground arith, (ground arith, inl (ground arith)))
  | inr (inr e) ↦ (ground arith, (ground arith, inl (ground arith)))
  | inl e ↦
      elim (Option-cases
        (unsubscribe_all c.conf.subscriptions c.conf.id (shut_both c.rcv_q c.snd_q m.queues)
          m.msg_router).1) [
            | inl f ↦ (ground arith, (ground arith, inr (ground arith)))
            | inr (x, f) ↦ (ground arith, (ground arith, inr (ground arith)))
          ]
]

pub stop_driver-WellFormed :
    (o : Outside) (t id : String) (m : Machine) → WellFormed m → WellFormed (stop_driver o t id m).0
unfolding stop_driver Drivers.stop_one
stop_driver-WellFormed o t id m w =
    rw (with_snapshot-machine o (Drivers.stop_one o t id m))
      (elim (Option-cases (Drivers.find_to_stop t id m.drivers)) [
        | inl e ↦ rw (Drivers.stop_one, e) w
        | inr (d, e) ↦
            let (q, r) = stop_found_driver o t id d m in
            rw (Drivers.stop_one, e)
              (Removed-WellFormed d.conf.id d.conf.subscriptions m (Drivers.stop_found o t id d m).0
                (rw q (stop-SameIds o m d)) r w)
      ])

pub stop_controller-WellFormed :
    (o : Outside) (id : String) (m : Machine) → WellFormed m → WellFormed (stop_controller o id m).0
unfolding stop_controller Controllers.stop_one
stop_controller-WellFormed o id m w =
    rw (with_snapshot-machine o (Controllers.stop_one o id m))
      (elim (Option-cases (Controllers.find_to_stop id m.controllers)) [
        | inl e ↦ rw (Controllers.stop_one, e) w
        | inr (c, e) ↦
            let (q, r) = stop_found_controller o id c m in
            rw (Controllers.stop_one, e)
              (Removed-WellFormed c.conf.id c.conf.subscriptions m
                (Controllers.stop_found o id c m).0
                (rw q (shut_both-SameIds c.rcv_q c.snd_q m.queues)) r w)
      ])
