-- ===== src/Producers/Queued.antt =====
-- What a producer's messages leave in its send queue.
use embd_project.Prelude.{
  ℕ, ◌+◌, ◌≤◌, ◌^◌, String, ◌≡◌, refl, sym, ap, ◌∙◌, false, List, [], ◌∷◌, ◌++◌, length, arith,
}
use mathlib.Core.List.{append_assoc, append-nil}
use embd_project.Message.{Message, id_eq_iff}
use embd_project.Queue.{Queue, new_queue, add}
use embd_project.Drive.{u64}
use embd_project.Producers.{
  Producer, Event, reading_message, on_reading, event_message, on_event, feed_all,
}

-- The messages of a series of inputs, numbered from a first number on.
abbrev pub numbered {ℓ} : {X : Type ℓ} → (ℕ → X → Message) → ℕ → List X → List Message
numbered make n [] = []
numbered make n (x ∷ xs) = make n x ∷ numbered make (n + 1) xs

module _ {X : Type 0} (make : ℕ → X → Message) (put : X → Producer → Producer)
    (number : (n : ℕ) (x : X) → (make n x).id.version ≡ n)
    (adds : (x : X) (d : Producer)
      → put x d
        ≡ record { version = u64 (d.version + 1); snd_q = add (make d.version x) d.snd_q }) where
  -- No message from a number on has been queued or is being processed.
  abbrev Fresh : ℕ → Queue → Type 0
  Fresh n q =
      (k : ℕ) (x : X)
      → n ≤ k
      → (q.dirty (make k x).id ≡ false) × (q.processing (make k x).id ≡ false)

  add-Fresh :
      (n : ℕ) (x : X) (q : Queue)
      → q.shutting_down ≡ false
      → Fresh n q
      → ((add (make n x) q).queue ≡ q.queue ++ make n x ∷ [])
        × ((add (make n x) q).shutting_down ≡ false)
        × Fresh (n + 1) (add (make n x) q)
  unfolding add
  add-Fresh n x q s f = (
    ground (arith, f n x),
    ground (arith, f n x),
    λ k y le.
        ground (arith, f n x, f k y, id_eq_iff (make n x).id (make k y).id, number n x, number k y),
  )

  pub feed_all-numbered :
      (xs : List X) (n : ℕ) (q : Queue)
      → q.shutting_down ≡ false
      → Fresh n q
      → n + length xs ≤ 2 ^ 64
      → (feed_all put xs (record { version = n; snd_q = q })).snd_q.queue
        ≡ q.queue ++ numbered make n xs
  unfolding feed_all
  feed_all-numbered [] n q s f le = sym (append-nil q.queue)
  feed_all-numbered (x ∷ []) n q s f le =
      rw (adds x (record { version = n; snd_q = q })) (add-Fresh n x q s f).0
  feed_all-numbered (x ∷ y ∷ xs) n q s f le =
      let (queued, opened, fresh) = add-Fresh n x q s f in
      let q' : Queue = add (make n x) q in
      let small : u64 (n + 1) ≡ n + 1 = omega arith in
      let next : put x (record { version = n; snd_q = q })
          ≡ record { version = n + 1; snd_q = q' } =
        adds x (record { version = n; snd_q = q })
        ∙ ap (λ v. record { version = v; snd_q = q' }) small in
      rw (feed_all, next)
        (feed_all-numbered (y ∷ xs) (n + 1) q' opened fresh (omega arith)
          ∙ ap (λ l. l ++ numbered make (n + 1) (y ∷ xs)) queued
          ∙ append_assoc q.queue (make n x ∷ []) (numbered make (n + 1) (y ∷ xs)))

-- Up to 2 ^ 64 readings of a sonar that started with a new queue are all in its send queue, in their
-- order and numbered from 0 on, if nothing has been taken off it: not one is dropped as a duplicate.
pub readings-queued :
    (s qualifier : String) (samples : List ℕ)
    → length samples ≤ 2 ^ 64
    → (feed_all
        (on_reading qualifier)
        samples
        (record { version = 0; snd_q = new_queue s })).snd_q.queue
      ≡ numbered (reading_message qualifier) 0 samples
unfolding on_reading new_queue
readings-queued s qualifier samples le =
    feed_all-numbered (reading_message qualifier) (on_reading qualifier) (λ n x. refl) (λ x d. refl)
      samples 0 (new_queue s) refl (λ k x h. (refl, refl)) (omega arith)

-- The same of up to 2 ^ 64 events of a remote control.
pub events-queued :
    (s : String) (events : List Event)
    → length events ≤ 2 ^ 64
    → (feed_all on_event events (record { version = 0; snd_q = new_queue s })).snd_q.queue
      ≡ numbered event_message 0 events
unfolding on_event new_queue
events-queued s events le =
    feed_all-numbered event_message on_event (λ n x. refl) (λ x d. refl) events 0 (new_queue s) refl
      (λ k x h. (refl, refl)) (omega arith)
