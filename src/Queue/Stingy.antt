-- ===== src/Queue/Stingy.antt =====
-- common/message/queue.go: when one identity is in one worker's hands only. The comment of the queue
-- calls that stingy.
use embd_project.Prelude.{String, ◌≡◌, refl, true, false, List, [], ◌∷◌, arith}
use embd_project.Message.{MessageId, Message, id_eq_iff}
use embd_project.Queue.{
  Queue, new_queue, message, add, get, done, shut_down, Call, adds, gets, dones, shuts_down, step,
  run,
}
use embd_project.Queue.Identity.{has_id, has_id-snoc, Distinct, Distinct-snoc, id_eq_refl}

pub record Stingy (q : Queue) : Type 0 where
  pub distinct : Distinct q.queue
  pub queued_dirty : (id : MessageId) → has_id id q.queue ≡ true → q.dirty id ≡ true
  pub dirty_idle : (id : MessageId) → q.dirty id ≡ true → q.processing id ≡ false

-- Producers do not add what a worker holds, and workers finish only what they hold.
abbrev pub Allowed : Queue → Call → Type 0
Allowed q (adds m) = q.processing m.id ≡ false
Allowed q gets = Unit {0}
Allowed q (dones m) = q.processing m.id ≡ true
Allowed q shuts_down = Unit {0}

abbrev pub AllAllowed : Queue → List Call → Type 0
AllAllowed q [] = Unit {0}
AllAllowed q (c ∷ cs) = Allowed q c × AllAllowed (step q c) cs

add-Stingy : (m : Message) (q : Queue) → q.processing m.id ≡ false → Stingy q → Stingy (add m q)
unfolding add
add-Stingy m q p s = record {
  distinct = ground (arith, s.queued_dirty m.id, Distinct-snoc q.queue m);
  queued_dirty =
      λ id. ground (arith, s.queued_dirty id, has_id-snoc id q.queue m, id_eq_iff m.id id);
  dirty_idle = λ id. ground (arith, s.dirty_idle id, id_eq_iff m.id id);
}

get-Stingy : (q : Queue) (ms : List Message) → q.queue ≡ ms → Stingy q → Stingy (get q).0
unfolding get
get-Stingy q [] e s = ground arith
get-Stingy q (m ∷ ms) e s = record {
  distinct = ground (arith, s.distinct);
  queued_dirty = λ id. ground (arith, s.distinct, s.queued_dirty id, id_eq_iff m.id id);
  dirty_idle = λ id. ground (arith, s.dirty_idle id);
}

done-Stingy : (m : Message) (q : Queue) → q.processing m.id ≡ true → Stingy q → Stingy (done m q)
unfolding done
done-Stingy m q p s = record {
  distinct = ground (arith, s.distinct, s.dirty_idle m.id);
  queued_dirty = λ id. ground (arith, s.queued_dirty id, s.dirty_idle m.id);
  dirty_idle = λ id. ground (arith, s.dirty_idle id, s.dirty_idle m.id);
}

step-Stingy : (q : Queue) (c : Call) → Allowed q c → Stingy q → Stingy (step q c)
unfolding step
step-Stingy q (adds m) a s = add-Stingy m q a s
step-Stingy q gets a s = get-Stingy q q.queue refl s
step-Stingy q (dones m) a s = done-Stingy m q a s
step-Stingy q shuts_down a s =
    unfold shut_down in
    record { distinct = s.distinct; queued_dirty = s.queued_dirty; dirty_idle = s.dirty_idle }

pub run-Stingy : (q : Queue) (cs : List Call) → AllAllowed q cs → Stingy q → Stingy (run q cs)
unfolding run
run-Stingy q [] a s = s
run-Stingy q (c ∷ cs) a s = run-Stingy (step q c) cs a.1 (step-Stingy q c a.0 s)

new_queue-Stingy : (id : String) → Stingy (new_queue id)
unfolding new_queue
new_queue-Stingy id = record { distinct = tt; queued_dirty = λ i h. cc; dirty_idle = λ i h. cc }

get_idle :
    (q : Queue) (ms : List Message) (m : Message)
    → q.queue ≡ ms
    → Stingy q
    → (get q).1 ≡ message m
    → (q.processing m.id ≡ false) × (has_id m.id (get q).0.queue ≡ false)
unfolding get
get_idle q [] m e s h = ground arith
get_idle q (x ∷ ms) m e s h =
    ground (arith, s.distinct, s.queued_dirty x.id, s.dirty_idle x.id, id_eq_refl x.id)

-- After calls in which nobody adds an identity that a worker holds and workers finish only what they
-- hold, `Get` hands over a message that no worker holds, and no other message of its identity is
-- left in the queue.
pub get-run_idle :
    (s : String) (cs : List Call) (m : Message)
    → AllAllowed (new_queue s) cs
    → (get (run (new_queue s) cs)).1 ≡ message m
    → ((run (new_queue s) cs).processing m.id ≡ false)
      × (has_id m.id (get (run (new_queue s) cs)).0.queue ≡ false)
get-run_idle s cs m a h =
    let q = run (new_queue s) cs in
    get_idle q q.queue m refl (run-Stingy (new_queue s) cs a (new_queue-Stingy s)) h
