-- ===== src/Machine/Controllers.antt =====
-- pkg/machine/machine.go, `StartControllers` and `StopController`, and the `Stop` that the
-- controllers of pkg/controllers share.
pub mod Started
pub mod Stopped
use embd_project.Prelude.{
  String, ◌+◌, Bool, true, false, List, [], ◌∷◌, ◌++◌, Option, none, some, str_eq, if◌then◌else◌,
}
use embd_project.Errors.{Error, none_specified, already_running, controller_not_found}
use embd_project.Queue.Store.{Store}
use embd_project.StatusLog.{
  status_ok, failure, controller, could_not_start, could_not_remove, started, stopped,
}
use embd_project.Machine.{
  ControllerConf, Controller, Machine, Outside, Outcome, success, fails, stuck, log_status,
  with_snapshot, lookup_controller, subscribe_all, unsubscribe_all, shut_both, alloc_both,
}

-- `conf.NewController` with two new queues: no controller of the repository refuses.
abbrev pub new_controller : ControllerConf → Machine → Controller
new_controller conf m = record {
  conf = conf;
  rcv_q = m.next_ptr;
  snd_q = m.next_ptr + 1;
  kill_chan_closed = false;
}

-- The machine with a controller and its queues added.
abbrev pub append_controller : ControllerConf → Machine → Machine
append_controller conf m = record m {
  controllers = m.controllers ++ new_controller conf m ∷ [];
  queues = alloc_both conf.id m;
  next_ptr = m.next_ptr + 2;
}

-- One round of the loop of `startControllers`. Starting may fail, on a socket or a process.
unfoldable pub start_one : Outside → ControllerConf → Machine → Machine × Outcome
start_one o conf m = elim (lookup_controller conf.typ m) [
  | some _ ↦ (m, fails (already_running conf.typ))
  | none ↦
      let m1 = append_controller conf m in
      let (r, e) = subscribe_all conf.subscriptions m.next_ptr m1.queues m.msg_router in
      let m2 = record m1 { msg_router = r } in
      elim e [
        | some x ↦ (m2, fails x)
        | none ↦
            let m3 = record m2 { listeners = m.listeners ++ (m.next_ptr + 1) ∷ [] } in
            elim (o.start_controller m3 conf) [
              | some x ↦ (log_status o failure (could_not_start controller x) m3, fails x)
              | none ↦ (m3, success)
            ]
      ]
]

unfoldable pub start_loop : Outside → List ControllerConf → Machine → Machine × Outcome
start_loop o [] m = (log_status o status_ok (started controller m.machine_id) m, success)
start_loop o (conf ∷ confs) m =
    let (m', r) = start_one o conf m in
    elim r [ success ↦ start_loop o confs m' | fails x ↦ (m', fails x) | stuck ↦ (m', stuck) ]

unfoldable pub start_confs : Outside → List ControllerConf → Machine → Machine × Outcome
start_confs o [] m = (m, fails none_specified)
start_confs o (conf ∷ confs) m = start_loop o (conf ∷ confs) m

unfoldable pub start_controllers : Outside → List ControllerConf → Machine → Machine × Outcome
start_controllers o confs m = with_snapshot o (start_confs o confs m)

-- `Stop`, with what it makes of the queues: it shuts both down, closes `killChan`, which panics the
-- second time, and then stops the controller's server or process, if it has one, and returns nil.
unfoldable pub stop : Outside → Machine → Controller → Store × Outcome
stop o m c = (
  shut_both c.rcv_q c.snd_q m.queues,
  if c.kill_chan_closed then stuck else if o.stops_serving m c.conf then success else stuck,
)

-- The search of `stopController`: the first controller of this id.
unfoldable pub find_to_stop : String → List Controller → Option Controller
find_to_stop id [] = none
find_to_stop id (c ∷ cs) =
    let rest = find_to_stop id cs in if str_eq c.conf.id id then some c else rest

-- `append(mh.Controllers[:i], mh.Controllers[i+1:]...)` at the controller that was found.
unfoldable pub remove_controller : String → List Controller → List Controller
remove_controller id [] = []
remove_controller id (c ∷ cs) =
    let rest = remove_controller id cs in if str_eq c.conf.id id then cs else c ∷ rest

-- The list after `killChan` of the found controller was closed.
unfoldable pub close_controller : String → List Controller → List Controller
close_controller id [] = []
close_controller id (c ∷ cs) =
    let rest = close_controller id cs in
    if str_eq c.conf.id id then record c { kill_chan_closed = true } ∷ cs else c ∷ rest

-- `stopController` once the controller's `Stop` has returned nil.
unfoldable pub finish_stop : Outside → String → Controller → Machine → Machine × Outcome
finish_stop o id c m =
    let (r, e) = unsubscribe_all c.conf.subscriptions c.conf.id m.queues m.msg_router in
    let m' = record m { msg_router = r } in
    elim e [
      | some (s, x) ↦ (log_status o failure (could_not_remove s x) m', fails x)
      | none ↦ (
        log_status o status_ok (stopped controller c.conf.typ id m.machine_id)
            (record m' { controllers = remove_controller id m.controllers }),
        success,
      )
    ]

unfoldable pub stop_found : Outside → String → Controller → Machine → Machine × Outcome
stop_found o id c m =
    let (σ, r) = stop o m c in
    let m' = record m { controllers = close_controller id m.controllers; queues = σ } in
    elim r [ success ↦ finish_stop o id c m' | fails x ↦ (m', fails x) | stuck ↦ (m', stuck) ]

-- `stopController`
unfoldable pub stop_one : Outside → String → Machine → Machine × Outcome
stop_one o id m = elim (find_to_stop id m.controllers) [
  | none ↦ (m, fails (controller_not_found id))
  | some c ↦ stop_found o id c m
]

unfoldable pub stop_controller : Outside → String → Machine → Machine × Outcome
stop_controller o id m = with_snapshot o (stop_one o id m)
