-- ===== src/Queue/NoLoss.antt =====
-- common/message/queue.go: what becomes of an identity that was added.
use embd_project.Prelude.{String, ◌≡◌, refl, true, false, List, [], ◌∷◌, arith}
use embd_project.Message.{MessageId, Message, id_eq_iff}
use embd_project.Queue.{
  Queue, new_queue, add, get, done, shut_down, Call, adds, gets, dones, shuts_down, step, run,
}
use embd_project.Queue.Identity.{has_id, has_id-snoc, id_eq_refl}

-- An identity that is dirty and in no worker's hands stands in the queue.
abbrev pub NoLoss : Queue → Type 0
NoLoss q = (id : MessageId) → q.dirty id ≡ true → q.processing id ≡ false → has_id id q.queue ≡ true

add-NoLoss : (m : Message) (q : Queue) → NoLoss q → NoLoss (add m q)
unfolding add
add-NoLoss m q h id =
    ground (arith, h id, has_id-snoc id q.queue m, id_eq_iff m.id id, id_eq_refl id)

get-NoLoss : (q : Queue) (ms : List Message) → q.queue ≡ ms → NoLoss q → NoLoss (get q).0
unfolding get
get-NoLoss q [] e h id = ground (arith, h id)
get-NoLoss q (m ∷ ms) e h id = ground (arith, h id)

done-NoLoss : (m : Message) (q : Queue) → NoLoss q → NoLoss (done m q)
unfolding done
done-NoLoss m q h id =
    ground (arith, h id, has_id-snoc id q.queue m, id_eq_iff m.id id, id_eq_refl id)

step-NoLoss : (q : Queue) (c : Call) → NoLoss q → NoLoss (step q c)
unfolding step
step-NoLoss q (adds m) h = add-NoLoss m q h
step-NoLoss q gets h = get-NoLoss q q.queue refl h
step-NoLoss q (dones m) h = done-NoLoss m q h
step-NoLoss q shuts_down h = unfold shut_down in h

pub run-NoLoss : (q : Queue) (cs : List Call) → NoLoss q → NoLoss (run q cs)
unfolding run
run-NoLoss q [] h = h
run-NoLoss q (c ∷ cs) h = run-NoLoss (step q c) cs (step-NoLoss q c h)

-- After any calls at all on a new queue, in any order, an identity that is dirty and that no worker
-- holds stands in the queue, where a later `Get` finds it.
pub run-new_queue-NoLoss :
    (s : String) (cs : List Call) (id : MessageId)
    → (run (new_queue s) cs).dirty id ≡ true
    → (run (new_queue s) cs).processing id ≡ false
    → has_id id (run (new_queue s) cs).queue ≡ true
unfolding new_queue
run-new_queue-NoLoss s cs = run-NoLoss (new_queue s) cs (λ id d p. cc)
