-- ===== src/Messenger/Relayed.antt =====
-- From a queue of the daemon to a queue of a plugin, and back.
use embd_project.Prelude.{
  ℕ, zero, suc, ◌≡◌, ◌≢◌, refl, sym, ◌∙◌, ap, true, false, List, [], ◌∷◌, ◌++◌, take, drop, All,
  All-take, Option, some, ◌==◌, arith, inl, inr, Bool-cases,
}
use mathlib.Core.List.{append_assoc, append-nil}
use embd_project.Message.{Message, id_eq_iff}
use embd_project.Queue.{Queue, add, get, done, len}
use embd_project.Queue.Identity.{Distinct, has_id}
use embd_project.Convert.{
  PbMessage, Codec, ok, convert_to_external_format, convert_to_internal_format,
}
use embd_project.Convert.RoundTrip.{ReadsBack, internal-external}
use embd_project.Messenger.{
  envelope, receive_envelope, plugin_receive, plugin_send, plugin_loop, max_messages_per_env, Mpi,
  mpi_send_tick, mpi_receive,
}
use embd_project.Messenger.Ticks.{converted, Safe, get-done, pack-Safe, send_tick-converted}

-- The message has an external form.
abbrev pub HasForm : Codec → Message → Type 0
HasForm c m = (x : PbMessage) × (convert_to_external_format c m ≡ ok x)

-- The queue takes each of these messages: none has an identity that it holds or that is in progress.
abbrev pub Takes : Queue → List Message → Type 0
Takes q ms = All (λ m. (q.dirty m.id ≡ false) × (q.processing m.id ≡ false)) ms

HasForm-Safe : (c : Codec) (ms : List Message) → All (HasForm c) ms → All (Safe c) ms
HasForm-Safe c [] h = tt
HasForm-Safe c (m ∷ ms) ((x, e), h) = ((λ p. cc), HasForm-Safe c ms h)

add-Takes :
    (m : Message) (ms : List Message) (q : Queue)
    → has_id m.id ms ≡ false
    → Takes q ms
    → Takes (add m q) ms
unfolding add
add-Takes m [] q h t = tt
add-Takes m (n ∷ ms) q h t = (
  ground (arith, t.0, id_eq_iff m.id n.id, id_eq_iff n.id m.id),
  add-Takes m ms q (ground arith) t.1,
)

add_taken :
    (m : Message) (q : Queue)
    → q.shutting_down ≡ false
    → (q.dirty m.id ≡ false) × (q.processing m.id ≡ false)
    → ((add m q).queue ≡ q.queue ++ m ∷ []) × ((add m q).shutting_down ≡ false)
unfolding add
add_taken m q s t = ground (arith, t.0, t.1)

-- What the two receiving loops do with messages that convert: both add them in order.
module _ (c : Codec) (law : ReadsBack c) (receive : List PbMessage → Queue → Option Queue)
    (ends : (q : Queue) → receive [] q ≡ some q)
    (adds : (x : PbMessage) (xs : List PbMessage) (m : Message) (q : Queue)
      → convert_to_internal_format c x ≡ ok m
      → receive (x ∷ xs) q ≡ receive xs (add m q)) where
  receive-converted :
      (ms : List Message) (q : Queue)
      → All (HasForm c) ms
      → Distinct ms
      → q.shutting_down ≡ false
      → Takes q ms
      → (q' : Queue) × (receive (converted c ms) q ≡ some q') × (q'.queue ≡ q.queue ++ ms)
  receive-converted [] q h d s t = (q, ends q, sym (append-nil q.queue))
  receive-converted (m ∷ ms) q ((x, e), h) d s (t, ts) =
      let (queued, opened) = add_taken m q s t in
      let (q', done_all, all) =
        receive-converted ms (add m q) h d.1 opened (add-Takes m ms q d.0 ts) in
      (
        q',
        rw (converted, e) (adds x (converted c ms) m q (internal-external c m x law e) ∙ done_all),
        all ∙ ap (λ l. l ++ ms) queued ∙ append_assoc q.queue (m ∷ []) ms,
      )

plugin_loop-converted :
    (c : Codec) (n : ℕ) (m : Message) (ms : List Message) (q : Queue) (es : List PbMessage)
    → q.queue ≡ m ∷ ms
    → All (Safe c) (m ∷ ms)
    → let (q', sent) = plugin_loop c (suc n) q es in
      (sent ≡ envelope (es ++ converted c (take (suc n) (m ∷ ms))))
      × (q'.queue ≡ drop (suc n) (m ∷ ms))
unfolding plugin_loop
plugin_loop-converted c zero m ms q es e safe =
    let (got, left, _) = get-done q m ms e in
    let (es', packed, same) = pack-Safe c m [] es safe.0 in
    elim (Bool-cases (len (done m (get q).0) == 0)) [
      | inl z ↦ rw (plugin_loop, got, packed, z) (ap envelope (sym (append-nil es') ∙ same), left)
      | inr z ↦ rw (plugin_loop, got, packed, z) (ap envelope (sym (append-nil es') ∙ same), left)
    ]
plugin_loop-converted c (suc n) m [] q es e safe =
    let (got, left, _) = get-done q m [] e in
    let (es', packed, same) = pack-Safe c m [] es safe.0 in
    rw (plugin_loop, got, packed, emptied left) (ap envelope (sym (append-nil es') ∙ same), left)
  where
    emptied : (done m (get q).0).queue ≡ [] → (len (done m (get q).0) == 0) ≡ true
    emptied left = ground arith
plugin_loop-converted c (suc n) m (m' ∷ ms) q es e safe =
    let (got, left, _) = get-done q m (m' ∷ ms) e in
    let (es', packed, same) = pack-Safe c m (take (suc n) (m' ∷ ms)) es safe.0 in
    let (sent, rest) = plugin_loop-converted c n m' ms (done m (get q).0) es' left safe.1 in
    rw (plugin_loop, got, packed, not_emptied left) (sent ∙ ap envelope same, rest)
  where
    not_emptied : (done m (get q).0).queue ≡ m' ∷ ms → (len (done m (get q).0) == 0) ≡ false
    not_emptied left = ground arith

round :
    (c : Codec) (q : Queue)
    → q.shutting_down ≡ false
    → plugin_send c q ≡ plugin_loop c max_messages_per_env q []
unfolding plugin_send
round c q s = ground arith

-- What the daemon's queue for a plugin holds arrives in the plugin's queue by one tick: the messages in
-- order, behind what was there; provided that the two queues are open, that each message has an
-- external form, that no two have one identity, and that the plugin's queue takes them.
pub plugin_receive-mpi_send_tick :
    (c : Codec) (d : Mpi) (q : Queue)
    → ReadsBack c
    → d.rcv_q.shutting_down ≡ false
    → d.rcv_q.queue ≢ []
    → All (HasForm c) d.rcv_q.queue
    → Distinct d.rcv_q.queue
    → q.shutting_down ≡ false
    → Takes q d.rcv_q.queue
    → (es : List PbMessage) × (q' : Queue) × ((mpi_send_tick c d).1 ≡ envelope es)
      × ((mpi_send_tick c d).0.rcv_q.queue ≡ [])
      × (plugin_receive c es q ≡ some q')
      × (q'.queue ≡ q.queue ++ d.rcv_q.queue)
unfolding mpi_send_tick plugin_receive
plugin_receive-mpi_send_tick c d q law s some_left h distinct s' takes =
    let (sent, empty) =
      send_tick-converted c d.rcv_q s some_left (HasForm-Safe c d.rcv_q.queue h) in
    let (q', received, all) =
      receive-converted c law (plugin_receive c) (λ q. refl)
        (λ x xs m q e. rw (plugin_receive, e) refl) d.rcv_q.queue q h distinct s' takes in
    (converted c d.rcv_q.queue, q', sent, empty, received, all)

-- What a plugin's queue holds arrives in the daemon's by rounds of at most five: one round of the
-- plugin and the daemon's receipt of its envelope bring the first five messages over, or all if there
-- are fewer, in order, and leave the others where they were; under the same conditions.
pub mpi_receive-plugin_send :
    (c : Codec) (m : Message) (ms : List Message) (q : Queue) (d : Mpi)
    → ReadsBack c
    → q.queue ≡ m ∷ ms
    → q.shutting_down ≡ false
    → All (HasForm c) (m ∷ ms)
    → Distinct (take 5 (m ∷ ms))
    → d.snd_q.shutting_down ≡ false
    → Takes d.snd_q (take 5 (m ∷ ms))
    → (es : List PbMessage) × (d' : Mpi) × ((plugin_send c q).1 ≡ envelope es)
      × ((plugin_send c q).0.queue ≡ drop 5 (m ∷ ms))
      × (mpi_receive c es d ≡ some d')
      × (d'.snd_q.queue ≡ d.snd_q.queue ++ take 5 (m ∷ ms))
unfolding plugin_send mpi_receive receive_envelope
mpi_receive-plugin_send c m ms q d law e s h distinct s' takes =
    let first = take 5 (m ∷ ms) in
    let (sent, left) = plugin_loop-converted c 4 m ms q [] e (HasForm-Safe c (m ∷ ms) h) in
    let (q', received, all) =
      receive-converted c law (receive_envelope c) (λ q. refl)
        (λ x xs m q e. rw (receive_envelope, e) refl) first d.snd_q
        (All-take (HasForm c) 5 (m ∷ ms) h) distinct s' takes in
    (
      converted c first,
      record d { snd_q = q' },
      rw (round c q s) sent,
      rw (round c q s) left,
      rw (mpi_receive, received) refl,
      all,
    )
