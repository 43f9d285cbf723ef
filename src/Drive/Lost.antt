-- ===== src/Drive/Lost.antt =====
-- pkg/controllers/autonomous_drive.go: the two processors of one controller and its send queue.
use embd_project.Prelude.{◌≡◌, arith, some}
use embd_project.Message.{Message}
use embd_project.Queue.{Queue, add}
use embd_project.Queue.Identity.{id_eq_refl}
use embd_project.Drive.{AutonomousDrive, tick, process_event, action_of}

-- A driver's `forward` from the remote control is lost if the ultrasonic processor has just sent its
-- own command of the same version and the router has not taken that off the send queue yet: the
-- queue is the same after both as after the one, though their speeds may differ.
pub add-forward_lost :
    (d : AutonomousDrive) (m : Message) (q : Queue)
    → (tick d).1 ≡ some m
    → add (process_event "BTN_TOP" d.version).0 (add m q) ≡ add m q
unfolding tick process_event add action_of
add-forward_lost d m q h = ground (arith, id_eq_refl m.id)
