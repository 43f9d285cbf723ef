-- ===== src/Machine/WellFormed/Calls.antt =====
-- pkg/machine/machine.go: the invariant after any calls.
use embd_project.Prelude.{String, ◌≡◌, refl, List, [], ◌∷◌, ◌++◌, arith}
use embd_project.Queue.{Queue, new_queue, shut_down}
use embd_project.Queue.Store.{Ptr}
use embd_project.Router.{new_message_router}
use embd_project.Machine.{AdaptorConf, DriverConf, ControllerConf, Machine, Outside, log_status}
use embd_project.Machine.Snapshots.{with_snapshot-machine}
use embd_project.Machine.Routes.{SoundRoutes-SameIds}
use embd_project.Machine.Adaptors.{
  attach_one, attach_loop, attach_confs, attach_adaptors, detach_one, detach_adaptor,
}
use embd_project.Machine.Drivers.{start_drivers, stop_driver}
use embd_project.Machine.Controllers.{start_controllers, stop_controller}
use embd_project.Queue
use embd_project.Queue.Store.{write}
use embd_project.Machine.WellFormed.{WellFormed, SameRouting, keep}
use embd_project.Machine.WellFormed.Starting.{
  start_drivers-WellFormed, start_controllers-WellFormed,
}
use embd_project.Machine.WellFormed.Stopping.{stop_driver-WellFormed, stop_controller-WellFormed}

attach_loop-SameRouting :
    (o : Outside) (cs : List AdaptorConf) (m : Machine) → SameRouting m (attach_loop o cs m).0
unfolding attach_loop attach_one log_status
attach_loop-SameRouting o [] m = (refl, refl, refl)
attach_loop-SameRouting o (c ∷ cs) m =
    ground (arith, attach_loop-SameRouting o cs (record m { adaptors = m.adaptors ++ c ∷ [] }))

attach_adaptors-SameRouting :
    (o : Outside) (cs : List AdaptorConf) (m : Machine) → SameRouting m (attach_adaptors o cs m).0
unfolding attach_adaptors attach_confs
attach_adaptors-SameRouting o [] m =
    rw (with_snapshot-machine o (attach_confs o [] m)) (refl, refl, refl)
attach_adaptors-SameRouting o (c ∷ cs) m =
    rw (with_snapshot-machine o (attach_confs o (c ∷ cs) m)) (attach_loop-SameRouting o (c ∷ cs) m)

detach_adaptor-SameRouting :
    (o : Outside) (t id : String) (m : Machine) → SameRouting m (detach_adaptor o t id m).0
unfolding detach_adaptor detach_one log_status
detach_adaptor-SameRouting o t id m =
    rw (with_snapshot-machine o (detach_one o t id m)) (ground arith)

-- What may happen to a machine: a request, or a call that a goroutine makes of a queue. The rounds of
-- the listeners are made of such calls.
pub data Call : Type 0 where
  starts_drivers : Outside → List DriverConf → Call
  stops_driver : Outside → String → String → Call
  starts_controllers : Outside → List ControllerConf → Call
  stops_controller : Outside → String → Call
  attaches : Outside → List AdaptorConf → Call
  detaches : Outside → String → String → Call
  uses_queue : Ptr → Queue.Call → Call

unfoldable pub step : Machine → Call → Machine
step m (starts_drivers o cs) = (start_drivers o cs m).0
step m (stops_driver o t id) = (stop_driver o t id m).0
step m (starts_controllers o cs) = (start_controllers o cs m).0
step m (stops_controller o id) = (stop_controller o id m).0
step m (attaches o cs) = (attach_adaptors o cs m).0
step m (detaches o t id) = (detach_adaptor o t id m).0
step m (uses_queue p c) = record m { queues = write p (Queue.step (m.queues p) c) m.queues }

unfoldable pub run : Machine → List Call → Machine
unfolding step
run m [] = m
run m (c ∷ cs) = run (step m c) cs

queue_step-q_id : (q : Queue) (c : Queue.Call) → (Queue.step q c).q_id ≡ q.q_id
unfolding Queue.step Queue.add Queue.get Queue.done Queue.shut_down
queue_step-q_id q (Queue.adds m) = ground arith
queue_step-q_id q Queue.gets = ground arith
queue_step-q_id q (Queue.dones m) = ground arith
queue_step-q_id q Queue.shuts_down = refl

step-WellFormed : (m : Machine) (c : Call) → WellFormed m → WellFormed (step m c)
unfolding step
step-WellFormed m (starts_drivers o cs) w = start_drivers-WellFormed o cs m w
step-WellFormed m (stops_driver o t id) w = stop_driver-WellFormed o t id m w
step-WellFormed m (starts_controllers o cs) w = start_controllers-WellFormed o cs m w
step-WellFormed m (stops_controller o id) w = stop_controller-WellFormed o id m w
step-WellFormed m (attaches o cs) w =
    keep m (attach_adaptors o cs m).0 (attach_adaptors-SameRouting o cs m) w
step-WellFormed m (detaches o t id) w =
    keep m (detach_adaptor o t id m).0 (detach_adaptor-SameRouting o t id m) w
step-WellFormed m (uses_queue p c) w =
    SoundRoutes-SameIds m.next_ptr m.queues (write p (Queue.step (m.queues p) c) m.queues)
      m.msg_router (λ r. ground (arith, queue_step-q_id (m.queues p) c)) w

run-WellFormed : (m : Machine) (cs : List Call) → WellFormed m → WellFormed (run m cs)
unfolding run
run-WellFormed m [] w = w
run-WellFormed m (c ∷ cs) w = run-WellFormed (step m c) cs (step-WellFormed m c w)

joined-WellFormed : (m : Machine) → m.msg_router ≡ new_message_router → WellFormed m
unfolding new_message_router
joined-WellFormed m e = record { valid = λ t. rw e tt; below = λ t. rw e tt }

-- Whatever requests a machine has met since it joined, and whatever its goroutines have done with its
-- queues: its routes lead only to queues that were allocated, and no set of them holds two queues of
-- one id.
pub run-joined-WellFormed :
    (m : Machine) (cs : List Call) → m.msg_router ≡ new_message_router → WellFormed (run m cs)
run-joined-WellFormed m cs e = run-WellFormed m cs (joined-WellFormed m e)
