-- ===== src/Machine/Drivers.antt =====
-- pkg/machine/machine.go, `StartDrivers` and `StopDriver`, and the `Start` and `Stop` that every
-- driver of pkg/drivers has.
pub mod Started
pub mod Stopped
pub mod Unstoppable
use embd_project.Prelude.{
  String, ◌+◌, Bool, true, false, not, ◌&&◌, List, [], ◌∷◌, ◌++◌, Option, none, some, str_eq,
  if◌then◌else◌,
}
use embd_project.Errors.{Error, none_specified, already_running, no_adaptor, not_found, op_failed}
use embd_project.Queue.Store.{Store}
use embd_project.StatusLog.{
  status_ok, failure, driver, could_not_start, could_not_stop, could_not_remove, started, stopped,
}
use embd_project.Machine.{
  DriverConf, Driver, Machine, Outside, Outcome, success, fails, stuck, log_status, with_snapshot,
  lookup_driver, lookup_adaptor, subscribe_all, unsubscribe_all, shut_both, alloc_both,
}

-- `conf.NewDriver` with two new queues: no driver of the repository refuses.
abbrev pub new_driver : DriverConf → Machine → Driver
new_driver conf m = record {
  conf = conf;
  rcv_q = m.next_ptr;
  snd_q = m.next_ptr + 1;
  working = false;
  done_full = false;
  kill_chan_closed = false;
}

-- The machine with a driver and its queues added.
abbrev pub append_driver : DriverConf → Machine → Machine
append_driver conf m = record m {
  drivers = m.drivers ++ new_driver conf m ∷ [];
  queues = alloc_both conf.id m;
  next_ptr = m.next_ptr + 2;
}

-- `AddListener` on the new send queue, and `Start`, which starts the robot in a goroutine and
-- returns nil. The new driver is the last one.
abbrev pub listen_and_start : Outside → DriverConf → Machine → Machine → Machine
listen_and_start o conf m m' = record m' {
  drivers = m.drivers ++ record (new_driver conf m) { working = o.starts m conf } ∷ [];
  listeners = m.listeners ++ (m.next_ptr + 1) ∷ [];
}

-- One round of the loop of `startDrivers`.
unfoldable pub start_one : Outside → DriverConf → Machine → Machine × Outcome
start_one o conf m = elim (lookup_driver conf.typ m) [
  | some _ ↦ (m, fails (already_running conf.typ))
  | none ↦ elim (lookup_adaptor conf.adaptor_id m) [
    | none ↦ (m, fails (no_adaptor conf.adaptor_id))
    | some _ ↦
        let m1 = append_driver conf m in
        let (r, e) = subscribe_all conf.subscriptions m.next_ptr m1.queues m.msg_router in
        let m2 = record m1 { msg_router = r } in
        elim e [ some x ↦ (m2, fails x) | none ↦ (listen_and_start o conf m m2, success) ]
  ]
]

unfoldable pub start_loop : Outside → List DriverConf → Machine → Machine × Outcome
start_loop o [] m = (log_status o status_ok (started driver m.machine_id) m, success)
start_loop o (conf ∷ confs) m =
    let (m', r) = start_one o conf m in
    elim r [ success ↦ start_loop o confs m' | fails x ↦ (m', fails x) | stuck ↦ (m', stuck) ]

unfoldable pub start_confs : Outside → List DriverConf → Machine → Machine × Outcome
start_confs o [] m = (m, fails none_specified)
start_confs o (conf ∷ confs) m = start_loop o (conf ∷ confs) m

unfoldable pub start_drivers : Outside → List DriverConf → Machine → Machine × Outcome
unfolding start_confs
start_drivers o confs m = with_snapshot o (start_confs o confs m)

-- `Stop`, with what it makes of the driver and the queues. `robot.Stop` halts the devices and then
-- sends on `done`, which waits if a value is left in the channel: the goroutine of the robot takes it
-- only once `work` has returned. A second `close(killChan)` panics.
unfoldable pub stop : Outside → Machine → Driver → Driver × Store × Outcome
stop o m d = if d.done_full then (d, m.queues, stuck) else elim (o.halt m d.conf) [
  | some x ↦ (record d { done_full = true }, m.queues, fails x)
  | none ↦ if d.kill_chan_closed then (d, m.queues, stuck) else (
    record d { working = false; done_full = not d.working; kill_chan_closed = true },
    shut_both d.rcv_q d.snd_q m.queues,
    success,
  )
]

abbrev pub is_driver : String → String → Driver → Bool
is_driver t id d = str_eq d.conf.typ t && str_eq d.conf.id id

-- The search of `stopDriver`: the first driver of this type and id.
unfoldable pub find_to_stop : String → String → List Driver → Option Driver
find_to_stop t id [] = none
find_to_stop t id (d ∷ ds) =
    let rest = find_to_stop t id ds in if is_driver t id d then some d else rest

-- `append(mh.Drivers[:i], mh.Drivers[i+1:]...)` at the driver that was found.
unfoldable pub remove_driver : String → String → List Driver → List Driver
remove_driver t id [] = []
remove_driver t id (d ∷ ds) =
    let rest = remove_driver t id ds in if is_driver t id d then ds else d ∷ rest

-- The list after a change of the driver that was found.
unfoldable pub put_driver : Driver → String → String → List Driver → List Driver
put_driver d' t id [] = []
put_driver d' t id (d ∷ ds) =
    let rest = put_driver d' t id ds in if is_driver t id d then d' ∷ ds else d ∷ rest

-- `stopDriver` once the driver's `Stop` has returned nil.
unfoldable pub finish_stop : Outside → String → String → Driver → Machine → Machine × Outcome
finish_stop o t id d m =
    let (r, e) = unsubscribe_all d.conf.subscriptions d.conf.id m.queues m.msg_router in
    let m' = record m { msg_router = r } in
    elim e [
      | some (s, x) ↦ (log_status o failure (could_not_remove s x) m', fails x)
      | none ↦ (
        log_status o status_ok (stopped driver t id m.machine_id)
            (record m' { drivers = remove_driver t id m.drivers }),
        success,
      )
    ]

unfoldable pub stop_found : Outside → String → String → Driver → Machine → Machine × Outcome
stop_found o t id d m =
    let (d', σ, r) = stop o m d in
    let m' = record m { drivers = put_driver d' t id m.drivers; queues = σ } in
    elim r [
      | fails x ↦ (log_status o failure (could_not_stop driver x) m', fails x)
      | stuck ↦ (m', stuck)
      | success ↦ finish_stop o t id d m'
    ]

-- `stopDriver`
unfoldable pub stop_one : Outside → String → String → Machine → Machine × Outcome
stop_one o t id m = elim (find_to_stop t id m.drivers) [
  | none ↦ (m, fails (not_found t id))
  | some d ↦ stop_found o t id d m
]

unfoldable pub stop_driver : Outside → String → String → Machine → Machine × Outcome
stop_driver o t id m = with_snapshot o (stop_one o t id m)
