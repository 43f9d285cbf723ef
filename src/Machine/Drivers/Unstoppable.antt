-- ===== src/Machine/Drivers/Unstoppable.antt =====
-- pkg/machine/machine.go: what `StopDriver` does where it returns an error.
use embd_project.Prelude.{
  String, ◌≡◌, ◌≢◌, inl, inr, refl, true, false, List, [], ◌∷◌, ◌++◌, map, none, some, arith,
  eq_iff, any, Option-cases,
}
use embd_project.Errors.{Error, unknown_message_type}
use embd_project.Message.{message_type_value}
use embd_project.Queue.Store.{Ptr, Store}
use embd_project.Router.{MessageRouter, add_subscriber_queue}
use embd_project.Machine.{
  AdaptorConf, DriverConf, Driver, find_driver, alloc_both, Machine, Outside, success, stuck,
  log_status, with_snapshot, lookup_driver, lookup_adaptor, subscribe_all, unsubscribe_all,
}
use embd_project.Machine.Unsubscribed.{is_unknown, unsubscribe_all-unknown}
use embd_project.Machine.Drivers.Started.{driver_confs}
use embd_project.Machine.Snapshots.{with_snapshot-machine, with_snapshot-success}
use embd_project.Machine.Drivers.Stopped.{after_stop, find_to_stop-is_driver}
use embd_project.Machine.Drivers.{
  is_driver, stop, start_one, start_loop, start_confs, start_drivers, new_driver, find_to_stop,
  put_driver, finish_stop, stop_found, stop_one, stop_driver,
}

put_driver-confs :
    (t id : String) (ds : List Driver) (d d' : Driver)
    → find_to_stop t id ds ≡ some d
    → d'.conf ≡ d.conf
    → map {A = Driver} {B = DriverConf} (λ x. x.conf) (put_driver d' t id ds)
      ≡ map {A = Driver} {B = DriverConf} (λ x. x.conf) ds
unfolding find_to_stop put_driver
put_driver-confs t id [] d d' f e = refl
put_driver-confs t id (x ∷ ds) d d' f e = ground (arith, put_driver-confs t id ds d d')

stop-conf : (o : Outside) (m : Machine) (d : Driver) → (stop o m d).0.conf ≡ d.conf
unfolding stop
stop-conf o m d = ground arith

finish_stop-unknown :
    (o : Outside) (t id : String) (d : Driver) (m : Machine)
    → any is_unknown d.conf.subscriptions ≡ true
    → ((finish_stop o t id d m).1 ≢ success) × ((finish_stop o t id d m).0.drivers ≡ m.drivers)
unfolding finish_stop log_status
finish_stop-unknown o t id d m u =
    let r = unsubscribe_all d.conf.subscriptions d.conf.id m.queues m.msg_router in
    elim (Option-cases r.1) [
      | inl e ↦
          absurd (unsubscribe_all-unknown d.conf.subscriptions d.conf.id m.queues m.msg_router u e)
      | inr (x, e) ↦ (λ h. ground arith, ground arith)
    ]

stop_found-unknown :
    (o : Outside) (t id : String) (d : Driver) (m : Machine)
    → find_to_stop t id m.drivers ≡ some d
    → any is_unknown d.conf.subscriptions ≡ true
    → ((stop_found o t id d m).1 ≢ success)
      × (driver_confs (stop_found o t id d m).0 ≡ driver_confs m)
unfolding stop_found log_status
stop_found-unknown o t id d m f u =
    let fin = finish_stop-unknown o t id d (after_stop o t id d m) u in
    let same = put_driver-confs t id m.drivers d (stop o m d).0 f (stop-conf o m d) in
    (λ h. ground (arith, fin), ground (arith, fin, same))

-- A driver that has subscribed to a message type with no name cannot be stopped: whatever the
-- devices answer, `StopDriver` returns an error or does not return, and the machine's drivers keep
-- their configurations, so that another attempt meets the same driver.
pub stop_driver-unknown_type :
    (o : Outside) (t id : String) (d : Driver) (m : Machine)
    → find_to_stop t id m.drivers ≡ some d
    → any is_unknown d.conf.subscriptions ≡ true
    → ((stop_driver o t id m).1 ≢ success)
      × (driver_confs (stop_driver o t id m).0 ≡ driver_confs m)
unfolding stop_driver stop_one
stop_driver-unknown_type o t id d m f u =
    let same = with_snapshot-machine o (stop_one o t id m) in
    let found = stop_found-unknown o t id d m f u in
    (
      λ h. ground (arith, found, with_snapshot-success o (stop_one o t id m)),
      ground (arith, found, same),
    )

-- A type with no name cannot be subscribed to.
add_subscriber_queue-unknown :
    (t : String) (p : Ptr) (σ : Store) (r : MessageRouter)
    → message_type_value t ≡ none
    → (add_subscriber_queue t p σ r).1 ≡ some (unknown_message_type t)
unfolding add_subscriber_queue
add_subscriber_queue-unknown t p σ r e = ground arith

subscribe_all-unknown :
    (ts : List String) (p : Ptr) (σ : Store) (r : MessageRouter)
    → any is_unknown ts ≡ true
    → (subscribe_all ts p σ r).1 ≢ none
unfolding subscribe_all
subscribe_all-unknown [] p σ r u h = cc
subscribe_all-unknown (t ∷ ts) p σ r u h = elim (Option-cases (message_type_value t)) [
  | inl e ↦ ground (arith, add_subscriber_queue-unknown t p σ r e)
  | inr (k, e) ↦ ground (arith, subscribe_all-unknown ts p σ (add_subscriber_queue t p σ r).0)
]

find_to_stop-snoc :
    (d : Driver) (ds : List Driver)
    → find_driver d.conf.typ ds ≡ none
    → find_to_stop d.conf.typ d.conf.id (ds ++ d ∷ []) ≡ some d
unfolding find_driver find_to_stop
find_to_stop-snoc d [] h = ground (arith, eq_iff d.conf.typ d.conf.typ, eq_iff d.conf.id d.conf.id)
find_to_stop-snoc d (x ∷ ds) h = ground (arith, find_to_stop-snoc d ds)

start_one-unknown :
    (o : Outside) (c : DriverConf) (a : AdaptorConf) (m : Machine)
    → lookup_driver c.typ m ≡ none
    → lookup_adaptor c.adaptor_id m ≡ some a
    → any is_unknown c.subscriptions ≡ true
    → ((start_one o c m).1 ≢ success)
      × ((start_one o c m).0.drivers ≡ m.drivers ++ new_driver c m ∷ [])
unfolding start_one
start_one-unknown o c a m f e u =
    let q = alloc_both c.id m in
    elim (Option-cases (subscribe_all c.subscriptions m.next_ptr q m.msg_router).1) [
      | inl n ↦ absurd (subscribe_all-unknown c.subscriptions m.next_ptr q m.msg_router u n)
      | inr (x, n) ↦ (λ h. ground arith, ground arith)
    ]

-- `StartDrivers` on a driver whose adaptor is there and whose type is new, but which subscribes to a
-- message type with no name, does not succeed and yet leaves the driver in the machine; and a
-- `StopDriver` of it that comes next does not succeed either, whatever the devices answer.
pub start_drivers-unknown_type :
    (o o' : Outside) (c : DriverConf) (cs : List DriverConf) (a : AdaptorConf) (m : Machine)
    → lookup_driver c.typ m ≡ none
    → lookup_adaptor c.adaptor_id m ≡ some a
    → any is_unknown c.subscriptions ≡ true
    → let m' = (start_drivers o (c ∷ cs) m).0 in
      ((start_drivers o (c ∷ cs) m).1 ≢ success)
      × (m'.drivers ≡ m.drivers ++ new_driver c m ∷ [])
      × ((stop_driver o' c.typ c.id m').1 ≢ success)
unfolding start_drivers start_confs start_loop lookup_driver
start_drivers-unknown_type o o' c cs a m f e u =
    let m' = (start_drivers o (c ∷ cs) m).0 in
    let one = start_one-unknown o c a m f e u in
    let same = with_snapshot-machine o (start_confs o (c ∷ cs) m) in
    let there : m'.drivers ≡ m.drivers ++ new_driver c m ∷ [] = ground (arith, one, same) in
    (
      λ h. ground (arith, one, with_snapshot-success o (start_confs o (c ∷ cs) m)),
      there,
      (stop_driver-unknown_type o' c.typ c.id (new_driver c m) m'
          (rw there (find_to_stop-snoc (new_driver c m) m.drivers f)) u).0,
    )

find_to_stop-put_driver :
    (d : Driver) (t id : String) (ds : List Driver) (x : Driver)
    → find_to_stop t id ds ≡ some x
    → is_driver t id d ≡ true
    → find_to_stop t id (put_driver d t id ds) ≡ some d
unfolding find_to_stop put_driver
find_to_stop-put_driver d t id [] x f h = cc
find_to_stop-put_driver d t id (y ∷ ds) x f h = ground (arith, find_to_stop-put_driver d t id ds x)

-- When the devices of a driver do not halt, then `StopDriver` returns an error and the driver stays;
-- and the next `StopDriver` of it, whatever the devices answer then, does not return.
pub stop_driver-halt_fails :
    (o o' : Outside) (t id : String) (d : Driver) (x : Error) (m : Machine)
    → find_to_stop t id m.drivers ≡ some d
    → d.done_full ≡ false
    → o.halt m d.conf ≡ some x
    → let m' = (stop_driver o t id m).0 in
      ((stop_driver o t id m).1 ≢ success)
      × (driver_confs m' ≡ driver_confs m)
      × ((stop_driver o' t id m').1 ≡ stuck)
unfolding stop_driver stop_one stop_found stop log_status with_snapshot
stop_driver-halt_fails o o' t id d x m f n e =
    let d' : Driver = record d { done_full = true } in
    let found =
      find_to_stop-put_driver d' t id m.drivers d f (find_to_stop-is_driver t id m.drivers d f) in
    (
      λ h. ground arith,
      ground (arith, put_driver-confs t id m.drivers d d' f refl),
      ground (arith, found),
    )
