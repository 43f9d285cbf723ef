-- ===== src/Machine/Controllers/Stopped.antt =====
-- What `StopController` leaves behind.
use embd_project.Prelude.{
  String, ◌≡◌, refl, ◌∙◌, subst, true, false, ◌&&◌, List, [], ◌∷◌, some, arith, str_eq, eq_iff, any,
  if◌then◌else◌,
}
use embd_project.Message.{MessageType}
use embd_project.Queue.Store.{Store}
use embd_project.Router.{has_queue}
use embd_project.Router.Subscriptions.{IsValid}
use embd_project.Machine.{Controller, Machine, Outside, success, log_status, shut_both}
use embd_project.Machine.Unsubscribed.{
  names_type, unsubscribe_all-ok, SameIds, has_queue-SameIds, DistinctIds-SameIds,
  shut_both-SameIds, shut_both-shut,
}
use embd_project.Machine.Snapshots.{with_snapshot-machine, with_snapshot-success}
use embd_project.Machine.Controllers.{
  stop, find_to_stop, remove_controller, close_controller, finish_stop, stop_found, stop_one,
  stop_controller,
}

pub remove_controller-close_controller :
    (id : String) (cs : List Controller)
    → remove_controller id (close_controller id cs) ≡ remove_controller id cs
unfolding remove_controller close_controller
remove_controller-close_controller id [] = refl
remove_controller-close_controller id (x ∷ cs) =
    ground (arith, remove_controller-close_controller id cs)

pub find_to_stop-id :
    (id : String) (cs : List Controller) (c : Controller)
    → find_to_stop id cs ≡ some c
    → c.conf.id ≡ id
unfolding find_to_stop
find_to_stop-id id [] c h = cc
find_to_stop-id id (x ∷ cs) c h = ground (arith, find_to_stop-id id cs c, eq_iff x.conf.id id)

finish_stop-success :
    (o : Outside) (id j : String) (k : MessageType) (c : Controller) (m : Machine)
    → IsValid m.queues m.msg_router
    → (finish_stop o id c m).1 ≡ success
    → let m' = (finish_stop o id c m).0 in
      (m'.controllers ≡ remove_controller id m.controllers)
      × (m'.queues ≡ m.queues)
      × (has_queue m.queues j (m'.msg_router.route_map k) ≡ (
          if any (names_type k) c.conf.subscriptions && str_eq j c.conf.id
          then false
          else has_queue m.queues j (m.msg_router.route_map k)))
unfolding finish_stop log_status
finish_stop-success o id j k c m v h =
    ground (arith, unsubscribe_all-ok c.conf.subscriptions c.conf.id j k m.queues m.msg_router v)

-- The machine once `Stop` has returned nil.
abbrev pub after_stop : String → Controller → Machine → Machine
after_stop id c m = record m {
  controllers = close_controller id m.controllers;
  queues = shut_both c.rcv_q c.snd_q m.queues;
}

pub stop_found-success :
    (o : Outside) (id : String) (c : Controller) (m : Machine)
    → (stop_found o id c m).1 ≡ success
    → stop_found o id c m ≡ finish_stop o id c (after_stop id c m)
unfolding stop_found stop
stop_found-success o id c m h = ground arith

stop_found_lem :
    (o : Outside) (id j : String) (k : MessageType) (c : Controller) (m : Machine)
    → IsValid m.queues m.msg_router
    → c.conf.id ≡ id
    → (stop_found o id c m).1 ≡ success
    → let m' = (stop_found o id c m).0 in
      (m'.controllers ≡ remove_controller id m.controllers)
      × ((m'.queues c.rcv_q).shutting_down ≡ true)
      × ((m'.queues c.snd_q).shutting_down ≡ true)
      × (has_queue m'.queues j (m'.msg_router.route_map k) ≡ (
          if any (names_type k) c.conf.subscriptions && str_eq j id
          then false
          else has_queue m.queues j (m.msg_router.route_map k)))
stop_found_lem o id j k c m v i h =
    let σ : Store = shut_both c.rcv_q c.snd_q m.queues in
    let same : SameIds m.queues σ = shut_both-SameIds c.rcv_q c.snd_q m.queues in
    let e = stop_found-success o id c m h in
    let fin =
      finish_stop-success o id j k c (after_stop id c m)
        (λ u. DistinctIds-SameIds m.queues σ (m.msg_router.route_map u) same (v u))
        (subst (λ r. r.1 ≡ success) e h) in
    rw e (
      fin.0 ∙ remove_controller-close_controller id m.controllers,
      rw fin.1 (shut_both-shut c.rcv_q c.snd_q m.queues).0,
      rw fin.1 (shut_both-shut c.rcv_q c.snd_q m.queues).1,
      rw fin.1
          (fin.2 ∙ ground (arith, has_queue-SameIds m.queues σ j (m.msg_router.route_map k) same)),
    )

-- When `StopController` finds a controller and returns no error, on routes whose ids are distinct,
-- then the controller is off the list and the others are as before; both its queues are shut down;
-- and the only routes that are gone are those of its id to the types that it had subscribed to.
pub stop_controller-success :
    (o : Outside) (id j : String) (k : MessageType) (c : Controller) (m : Machine)
    → IsValid m.queues m.msg_router
    → find_to_stop id m.controllers ≡ some c
    → (stop_controller o id m).1 ≡ success
    → let m' = (stop_controller o id m).0 in
      (m'.controllers ≡ remove_controller id m.controllers)
      × ((m'.queues c.rcv_q).shutting_down ≡ true)
      × ((m'.queues c.snd_q).shutting_down ≡ true)
      × (has_queue m'.queues j (m'.msg_router.route_map k) ≡ (
          if any (names_type k) c.conf.subscriptions && str_eq j id
          then false
          else has_queue m.queues j (m.msg_router.route_map k)))
unfolding stop_controller stop_one
stop_controller-success o id j k c m v f h = ground (
  arith,
  with_snapshot-machine o (stop_one o id m),
  with_snapshot-success o (stop_one o id m),
  stop_found_lem o id j k c m v (find_to_stop-id id m.controllers c f),
)
