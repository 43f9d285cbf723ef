-- ===== src/Machine.antt =====
-- pkg/machine/machine.go: a machine, its adaptors, drivers and controllers, and its lookups.
-- Each public method holds the machine's mutex, so a machine's history is a list of whole calls.
-- What the hardware, the network and the files answer is `Outside`. An answer may depend on the
-- machine at the time of the call, so two calls of one kind may be answered differently.
pub mod Routes
pub mod WellFormed
pub mod Snapshots
pub mod Unsubscribed
pub mod Drivers
pub mod Controllers
pub mod Adaptors
pub mod Detached
use embd_project.Prelude.{
  ℕ, String, ◌+◌, Bool, true, false, List, [], ◌∷◌, ◌++◌, Option, none, some, ◌==◌, str_eq, any,
  ltb, length, if◌then◌else◌,
}
use embd_project.Errors.{Error, op_failed, snapshot_failed, both_failed}
use embd_project.Queue.{Queue, new_queue, shut_down}
use embd_project.Queue.Store.{Ptr, Store, write}
use embd_project.Router.{MessageRouter, add_subscriber_queue, remove_subscriber_queue}
use embd_project.StatusLog.{
  StatusCode, status_ok, failure, Note, MachineStatus, add_status_log, could_not_remove,
}
use embd_project.Options.{OptionMap, BoolOptions, apply}

-- What the machine reads of the three kinds of configuration.
pub record AdaptorConf : Type 0 where
  pub typ : String
  pub id : String

pub record DriverConf : Type 0 where
  pub typ : String
  pub id : String
  pub adaptor_id : String
  pub qualifier : String
  pub subscriptions : List String

pub record ControllerConf : Type 0 where
  pub typ : String
  pub id : String
  pub subscriptions : List String

-- `working`: the goroutine of the robot runs the driver's `work` and will then read the robot's
-- channel `done`, of capacity 1. `done_full`: a value waits in that channel.
pub record Driver : Type 0 where
  pub conf : DriverConf
  pub rcv_q : Ptr
  pub snd_q : Ptr
  pub working : Bool
  pub done_full : Bool
  pub kill_chan_closed : Bool

pub record Controller : Type 0 where
  pub conf : ControllerConf
  pub rcv_q : Ptr
  pub snd_q : Ptr
  pub kill_chan_closed : Bool

-- `Machine`, with the queues that were allocated for it. `listeners` are the send queues on which a
-- goroutine of `AddListener` runs.
pub record Machine : Type 0 where
  pub machine_id : String
  pub adaptors : List AdaptorConf
  pub drivers : List Driver
  pub controllers : List Controller
  pub msg_router : MessageRouter
  pub opts : Option BoolOptions
  pub status : MachineStatus
  pub queues : Store
  pub next_ptr : Ptr
  pub listeners : List Ptr

-- The answers of code outside the repository.
pub record Outside : Type 0 where
  pub now : ℕ
  pub snapshot : Machine → Option Error  -- writing and renaming the snapshot file
  pub starts : Machine → DriverConf → Bool  -- whether the devices of a driver's robot start
  pub halt : Machine → DriverConf → Option Error  -- halting the devices of a driver's robot
  pub start_controller : Machine → ControllerConf → Option Error  -- sockets and processes
  pub stops_serving : Machine → ControllerConf → Bool  -- whether stopping those returns
  pub attach : Machine → AdaptorConf → Option Error
  pub detach : Machine → AdaptorConf → Option Error

-- `stuck` is a call that does not return: it panics, or waits forever.
pub data Outcome : Type 0 where
  success : Outcome
  fails : Error → Outcome
  stuck : Outcome

-- `LogStatus`, and `LogStatusOK` at the code OK.
unfoldable pub log_status : Outside → StatusCode → Note → Machine → Machine
log_status o code msg m = record m {
  status = add_status_log (record { code = code; msg = msg; timestamp = o.now }) m.status;
}

-- `ApplyOpts`: whether an option was changed. Reading an entry of no options panics, and so may
-- `Apply`, and then there is no result.
unfoldable pub apply_opts : OptionMap → Machine → Option (Machine × Bool)
apply_opts n m = elim m.opts [
  | none ↦ elim n [ [] ↦ some (m, false) | _ ↦ none ]
  | some bo ↦ elim (apply n bo) [
    | none ↦ none
    | some (bo', changes) ↦ some (record m { opts = some bo' }, ltb 0 (length changes))
  ]
]

-- How a public method ends: it snapshots, and joins the two errors.
unfoldable pub with_snapshot : Outside → Machine × Outcome → Machine × Outcome
with_snapshot o (m, success) = elim (o.snapshot m) [
  | none ↦ (m, success)
  | some e ↦ (m, fails (snapshot_failed e))
]
with_snapshot o (m, fails x) = elim (o.snapshot m) [
  | none ↦ (m, fails (op_failed x))
  | some e ↦ (m, fails (both_failed x e))
]
with_snapshot o (m, stuck) = (m, stuck)

find_driver : String → List Driver → Option Driver
find_driver t [] = none
find_driver t (d ∷ ds) = if str_eq d.conf.typ t then some d else find_driver t ds

unfoldable pub lookup_driver : String → Machine → Option Driver
unfolding find_driver
lookup_driver t m = find_driver t m.drivers

find_controller : String → List Controller → Option Controller
find_controller t [] = none
find_controller t (c ∷ cs) = if str_eq c.conf.typ t then some c else find_controller t cs

unfoldable pub lookup_controller : String → Machine → Option Controller
unfolding find_controller
lookup_controller t m = find_controller t m.controllers

find_adaptor : String → List AdaptorConf → Option AdaptorConf
find_adaptor i [] = none
find_adaptor i (a ∷ as') = if str_eq a.id i then some a else find_adaptor i as'

unfoldable pub lookup_adaptor : String → Machine → Option AdaptorConf
unfolding find_adaptor
lookup_adaptor i m = find_adaptor i m.adaptors

-- The loop that subscribes a new receive queue to its types.
unfoldable pub subscribe_all :
    List String → Ptr → Store → MessageRouter → MessageRouter × Option Error
subscribe_all [] p σ r = (r, none)
subscribe_all (t ∷ ts) p σ r =
    let (r', e) = add_subscriber_queue t p σ r in
    elim e [ none ↦ subscribe_all ts p σ r' | some x ↦ (r', some x) ]

-- The loop that unsubscribes a queue id, with the type at which it failed.
unfoldable pub unsubscribe_all :
    List String → String → Store → MessageRouter → MessageRouter × Option (String × Error)
unsubscribe_all [] id σ r = (r, none)
unsubscribe_all (t ∷ ts) id σ r =
    let (r', e) = remove_subscriber_queue t id σ r in
    elim e [ none ↦ unsubscribe_all ts id σ r' | some x ↦ (r', some (t, x)) ]

-- The two queues of one part, shut down.
abbrev pub shut_both : Ptr → Ptr → Store → Store
shut_both p q σ = let σ' = write p (shut_down (σ p)) σ in write q (shut_down (σ' q)) σ'

-- Two new queues of one id.
abbrev pub alloc_both : String → Machine → Store
alloc_both id m = write (m.next_ptr + 1) (new_queue id) (write m.next_ptr (new_queue id) m.queues)
