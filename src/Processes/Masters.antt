-- ===== src/Processes/Masters.antt =====
-- common/procwatcher/procwatcher.go: the watcher of processes and the master.
-- The methods of the master hold its mutex, so that each is one step. Two things are left to the
-- scheduler and are arguments here. `late`: when a watched process dies while it is being stopped, its
-- watcher finds both the news and the order to end, and takes the news. `deleted`: a watcher that has
-- reported a death removes its entry before the master goes on.
pub mod Started
pub mod Stopped
pub mod Restarted
use embd_project.Prelude.{
  String, Bool, true, false, List, [], ◌∷◌, Option, none, some, if◌then◌else◌,
}
use embd_project.Prelude.Maps.{lookup, insert, delete}
use embd_project.Errors.{Error, unknown_process, process_exists, process_not_running}
use embd_project.Processes.{
  Proc, System, Ran, with_status, add_restart, start, stop, is_alive, delete_proc,
}

-- `ProcWatcher`: the name of its process, and whether it polls.
pub record ProcWatcher : Type 0 where
  pub proc : String
  pub not_child : Bool

-- `ProcMaster` with its `Watcher`.
pub record ProcMaster : Type 0 where
  pub procs : List (String × Proc)
  pub watch_procs : List (String × ProcWatcher)

unfoldable pub new_master : ProcMaster
new_master = record { procs = []; watch_procs = [] }

-- `AddProcWatcher`
unfoldable pub add_proc_watcher : Proc → Bool → ProcMaster → ProcMaster
add_proc_watcher p not_child m = elim (lookup p.name m.watch_procs) [
  | some w ↦ m
  | none ↦
      let w : ProcWatcher = record { proc = p.name; not_child = not_child } in
      record m { watch_procs = insert p.name w m.watch_procs }
]

-- `delete(watcher.watchProcs, id)`, with which a watcher ends.
unfoldable pub end_watcher : String → ProcMaster → ProcMaster
end_watcher name m = record m { watch_procs = delete name m.watch_procs }

-- The map after a process changed that it may point to.
abbrev pub put_proc : Proc → ProcMaster → ProcMaster
put_proc p m = elim (lookup p.name m.procs) [
  | none ↦ m
  | some old ↦ record m { procs = insert p.name p m.procs }
]

-- What a method of the master leaves, or that it waits forever under the lock.
pub data Outcome (S : Type 0) : Type 0 where
  returned : S → Proc → ProcMaster → Option Error → Outcome S
  hangs : Outcome S

module _ {S : Type 0} (os : System S) where
  -- `Delete` in `stop`, whose error is only logged.
  finish_stop : S → Proc → ProcMaster → Outcome S
  finish_stop s p m = returned (delete_proc os s p).0 p (put_proc p m) none

  -- `stop` on a process that is alive, with the watcher that `StopWatcher` found. It waits for the
  -- watcher's news that the process ended.
  stop_alive : Bool → Option ProcWatcher → S → Proc → ProcMaster → Outcome S
  unfolding finish_stop end_watcher
  stop_alive late watched s p m =
      let (s', p', e) = stop os s p in
      let m' = end_watcher p.name m in
      elim e [
        | some x ↦ returned s' p' (put_proc p' m') (some x)
        | none ↦ elim watched [
          | none ↦ finish_stop s' p' m
          | some w ↦
              if late
              then hangs
              else if os.ends p.pid s'
              then finish_stop s' (with_status "stopped" p') m'
              else hangs
        ]
      ]

  -- `stop`
  unfoldable pub master_stop : Bool → S → Proc → ProcMaster → Outcome S
  unfolding stop_alive
  master_stop late s p m =
      if is_alive os s p
      then stop_alive late (lookup p.name m.watch_procs) s p m
      else finish_stop s p m

  -- `start`
  unfoldable pub master_start : S → Proc → ProcMaster → Outcome S
  unfolding add_proc_watcher
  master_start s p m =
      let (s', p', e) = start os s p in
      if is_alive os s p then returned s p m none else elim e [
        | some x ↦ returned s' p' (put_proc p' m) (some x)
        | none ↦
            let p'' = with_status "running" p' in
            returned s' p'' (put_proc p'' (add_proc_watcher p'' false m)) none
      ]

  -- A process entered under its name, unless there was an error.
  entered : Outcome S → Outcome S
  entered hangs = hangs
  entered (returned s p m (some e)) = returned s p m (some e)
  entered (returned s p m none) = returned s p (record m { procs = insert p.name p m.procs }) none

  -- `StartProcess`
  unfoldable pub start_process : S → Proc → ProcMaster → Outcome S
  unfolding master_start entered
  start_process s p m = elim (lookup p.name m.procs) [
    | some old ↦ returned s p m (some process_exists)
    | none ↦ entered (master_start s p m)
  ]

  -- `restore`
  master_restore : S → Proc → ProcMaster → Outcome S
  unfolding add_proc_watcher
  master_restore s p m =
      if is_alive os s p
      then returned s (with_status "restored" p) (add_proc_watcher p true m) none
      else returned s p m (some (process_not_running p.name))

  -- `Restore`
  unfoldable pub restore : S → Proc → ProcMaster → Outcome S
  unfolding master_restore entered
  restore s p m = elim (lookup p.name m.procs) [
    | some old ↦ returned s p m (some process_exists)
    | none ↦ entered (master_restore s p m)
  ]

  -- A process taken out of the map, unless there was an error.
  left : Outcome S → Outcome S
  left hangs = hangs
  left (returned s p m (some e)) = returned s p m (some e)
  left (returned s p m none) = returned s p (record m { procs = delete p.name m.procs }) none

  -- `StopProcess`; the process is a placeholder when the name is not known.
  unfoldable pub stop_process : Bool → Proc → S → String → ProcMaster → Outcome S
  unfolding master_stop left
  stop_process late nobody s name m = elim (lookup name m.procs) [
    | none ↦ returned s nobody m (some unknown_process)
    | some p ↦ left (master_stop late s p m)
  ]

  -- `start` after a `stop`, in `restart`.
  start_after : Outcome S → Outcome S
  unfolding master_start
  start_after hangs = hangs
  start_after (returned s p m (some e)) = returned s p m (some e)
  start_after (returned s p m none) = master_start s p m

  -- `restart`
  unfoldable pub master_restart : Bool → S → Proc → ProcMaster → Outcome S
  unfolding start_after master_stop
  master_restart late s p m = start_after (master_stop late s p m)

  -- `updateStatus`
  unfoldable pub update_status : S → Proc → Proc
  update_status s p = with_status (if is_alive os s p then "running" else "stopped") p

  -- The watcher that reported ends, if it did not before.
  ended : Bool → String → Outcome S → Outcome S
  unfolding end_watcher
  ended deleted name hangs = hangs
  ended deleted name (returned s p m e) = returned s p (if deleted then m else end_watcher name m) e

  -- One round of `WatchProcs`, on a process whose watcher reported its death.
  unfoldable pub watch_round : Bool → Bool → S → Proc → ProcMaster → Outcome S
  unfolding master_restart update_status ended
  watch_round deleted late s p m =
      let m' = if deleted then end_watcher p.name m else m in
      let p' = add_restart p in
      ended deleted p.name (
        if p.keep_alive
        then master_restart late s p' (put_proc p' m')
        else returned s (update_status s p) (put_proc (update_status s p) m') none)
