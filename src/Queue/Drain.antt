-- ===== src/Queue/Drain.antt =====
-- The consumer's loop, `for { msg, shutdown := q.Get(); if shutdown { return }; ...; q.Done(msg) }`.
use embd_project.Prelude.{
  ℕ, zero, suc, ◌≡◌, refl, ◌<◌, true, List, [], ◌∷◌, Option, none, some, arith, length,
}
use embd_project.Message.{Message}
use embd_project.Queue.{Queue, waits, message, shutdown, get, done}
use embd_project.Queue.Identity.{id_eq_refl}

-- The messages that one consumer handles until it is told of the shutdown; `none` if it waits for
-- a producer or the fuel ends.
unfoldable pub drain : ℕ → Queue → Option (List Message)
unfolding get done
drain zero q = none
drain (suc n) q =
    let (q', got) = get q in
    elim got [
      | waits ↦ none
      | message m ↦ elim (drain n (done m q')) [ none ↦ none | some ms ↦ some (m ∷ ms) ]
      | shutdown ↦ some []
    ]

drain-queue :
    (n : ℕ) (q : Queue) (ms : List Message)
    → q.queue ≡ ms
    → q.shutting_down ≡ true
    → length ms < n
    → drain n q ≡ some ms
unfolding drain
drain-queue zero q ms e s h = absurd (omega arith)
drain-queue (suc n) q [] e s h = ground arith
drain-queue (suc n) q (m ∷ ms) e s h =
    ground (arith, id_eq_refl m.id, drain-queue n (done m (get q).0) ms)

-- Once a queue is shut down, a consumer gets the messages left in it, in their order and each once,
-- and then the news of the shutdown: it never waits again.
pub drain-shut_down :
    (q : Queue) → q.shutting_down ≡ true → drain (suc (length q.queue)) q ≡ some q.queue
drain-shut_down q s = drain-queue (suc (length q.queue)) q q.queue refl s (omega arith)
