-- ===== src/Queue/Reenqueue.antt =====
-- What happens to an identity that is added while a worker holds it.
use embd_project.Prelude.{String, ◌≡◌, true, List, [], ◌∷◌, arith}
use embd_project.Message.{Message, id_eq_iff}
use embd_project.Queue.{Queue, new_queue, message, add, get, Call, adds, gets, dones, run}
use embd_project.Queue.Identity.{id_eq_refl}

-- A worker takes `m`; a producer adds `m'` of the same identity; the worker finishes.
abbrev pub readded : Message → Message → List Call
readded m m' = adds m ∷ gets ∷ adds m' ∷ dones m ∷ []

-- When a producer adds a newer message of an identity that a worker holds, then `Done` queues the
-- old message again: the data of the newer one is in the queue no more.
pub done-requeues_stale :
    (s : String) (m m' : Message) → m'.id ≡ m.id → (run (new_queue s) (readded m m')).queue ≡ m ∷ []
unfolding run new_queue
done-requeues_stale s m m' e = ground (arith, id_eq_refl m.id, id_eq_iff m.id m'.id)

-- The identity that `Done` has queued again is not marked dirty, so that the next `Add` of it queues
-- a second message, and two `Get`s hand one identity to two workers at once.
pub readded_twice-processed_twice :
    (s : String) (m m' : Message)
    → m'.id ≡ m.id
    → (q : Queue) → run (new_queue s) (readded m m') ≡ q
    → let first = get (add m' q) in
      (first.1 ≡ message m) × (first.0.processing m.id ≡ true) × ((get first.0).1 ≡ message m')
unfolding run new_queue add get
readded_twice-processed_twice s m m' e q h = ground (arith, id_eq_refl m.id, id_eq_iff m.id m'.id)
