-- ===== src/Machine/Drivers/Stopped.antt =====
-- What `StopDriver` leaves behind.
use embd_project.Prelude.{String, ◌≡◌, refl, true, List, [], ◌∷◌, some, arith}
use embd_project.Machine.{Driver, Machine, Outside, success, shut_both}
use embd_project.Machine.Unsubscribed.{SameIds, shut_both-SameIds}
use embd_project.Machine.Drivers.{
  is_driver, stop, find_to_stop, remove_driver, put_driver, finish_stop, stop_found,
}

pub remove_driver-put_driver :
    (d : Driver) (t id : String) (ds : List Driver)
    → is_driver t id d ≡ true
    → remove_driver t id (put_driver d t id ds) ≡ remove_driver t id ds
unfolding remove_driver put_driver
remove_driver-put_driver d t id [] h = refl
remove_driver-put_driver d t id (x ∷ ds) h = ground (arith, remove_driver-put_driver d t id ds)

pub find_to_stop-is_driver :
    (t id : String) (ds : List Driver) (d : Driver)
    → find_to_stop t id ds ≡ some d
    → is_driver t id d ≡ true
unfolding find_to_stop
find_to_stop-is_driver t id [] d h = cc
find_to_stop-is_driver t id (x ∷ ds) d h = ground (arith, find_to_stop-is_driver t id ds d)

-- What `Stop` did if it returned nil.
pub stop-success :
    (o : Outside) (m : Machine) (d : Driver)
    → (stop o m d).2 ≡ success
    → ((stop o m d).0.conf ≡ d.conf) × ((stop o m d).1 ≡ shut_both d.rcv_q d.snd_q m.queues)
unfolding stop
stop-success o m d h = ground arith

pub stop-SameIds : (o : Outside) (m : Machine) (d : Driver) → SameIds m.queues (stop o m d).1
unfolding stop
stop-SameIds o m d p = ground (arith, shut_both-SameIds d.rcv_q d.snd_q m.queues p)

-- The machine once `Stop` has returned nil.
abbrev pub after_stop : Outside → String → String → Driver → Machine → Machine
after_stop o t id d m = record m {
  drivers = put_driver (stop o m d).0 t id m.drivers;
  queues = (stop o m d).1;
}

pub stop_found-success :
    (o : Outside) (t id : String) (d : Driver) (m : Machine)
    → (stop_found o t id d m).1 ≡ success
    → ((stop o m d).2 ≡ success)
      × (stop_found o t id d m ≡ finish_stop o t id d (after_stop o t id d m))
unfolding stop_found
stop_found-success o t id d m h = ground arith
