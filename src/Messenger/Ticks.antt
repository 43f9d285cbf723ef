-- ===== src/Messenger/Ticks.antt =====
-- What a tick of a send routine sends, and what it leaves in its queue.
use embd_project.Prelude.{
  ◌≡◌, ◌≢◌, refl, sym, ◌∙◌, ap, false, List, [], ◌∷◌, ◌++◌, length, All, some, ◌==◌, arith, inl,
  inr, Bool-cases, length-eq_zero,
}
use mathlib.Core.List.{append_assoc, append-nil}
use embd_project.Message.{Message}
use embd_project.Queue.{Queue, message, get, done, len}
use embd_project.Queue.Identity.{id_eq_refl}
use embd_project.Convert.{PbMessage, Codec, ok, panic, convert_to_external_format}
use embd_project.Convert.RoundTrip.{Result-cases}
use embd_project.Messenger.{pack, envelope, send_loop, send_tick}

-- The external forms of the messages that have one, in order.
abbrev pub converted : Codec → List Message → List PbMessage
converted c [] = []
converted c (m ∷ ms) =
    let rest = converted c ms in
    elim (convert_to_external_format c m) [ ok x ↦ x ∷ rest | _ ↦ rest ]

-- The conversion does not panic.
abbrev pub Safe : Codec → Message → Type 0
Safe c m = convert_to_external_format c m ≢ panic

-- `Get` and `Done` of the head leave the rest: `Get` clears the mark that would queue it again.
pub get-done :
    (q : Queue) (m : Message) (ms : List Message)
    → q.queue ≡ m ∷ ms
    → ((get q).1 ≡ message m)
      × ((done m (get q).0).queue ≡ ms)
      × ((done m (get q).0).shutting_down ≡ q.shutting_down)
unfolding get done
get-done q m ms e = ground (arith, id_eq_refl m.id)

pub pack-Safe :
    (c : Codec) (m : Message) (ms : List Message) (es : List PbMessage)
    → Safe c m
    → (es' : List PbMessage) × (pack c m es ≡ some es')
      × (es' ++ converted c ms ≡ es ++ converted c (m ∷ ms))
unfolding pack
pack-Safe c m ms es safe = elim (Result-cases (convert_to_external_format c m)) [
  | inl (x, e) ↦ (
    es ++ x ∷ [],
    rw (pack, e) refl,
    rw (converted, e) (append_assoc es (x ∷ []) (converted c ms)),
  )
  | inr (inl (x, e)) ↦ (es, rw (pack, e) refl, rw (converted, e) refl)
  | inr (inr e) ↦ absurd (safe e)
]

send_loop-converted :
    (c : Codec) (ms : List Message) (q : Queue) (es : List PbMessage)
    → q.queue ≡ ms
    → All (Safe c) ms
    → ((send_loop c (length ms) q es).1 ≡ envelope (es ++ converted c ms))
      × ((send_loop c (length ms) q es).0.queue ≡ [])
unfolding send_loop
send_loop-converted c [] q es e safe = (ap envelope (sym (append-nil es)), e)
send_loop-converted c (m ∷ ms) q es e safe =
    let (got, left, _) = get-done q m ms e in
    let (es', packed, same) = pack-Safe c m ms es safe.0 in
    let (sent, empty) = send_loop-converted c ms (done m (get q).0) es' left safe.1 in
    rw (send_loop, got, packed) (sent ∙ ap envelope same, empty)

ticked :
    (c : Codec) (q : Queue)
    → q.shutting_down ≡ false
    → (len q == 0) ≡ false
    → send_tick c q ≡ send_loop c (len q) q []
unfolding send_tick
ticked c q is_open some_left = ground arith

-- A tick on a queue that is open and holds messages, none of which makes the converter panic, sends
-- the external forms of all of them in one envelope, in order, less those that have none, and empties
-- the queue.
pub send_tick-converted :
    (c : Codec) (q : Queue)
    → q.shutting_down ≡ false
    → q.queue ≢ []
    → All (Safe c) q.queue
    → ((send_tick c q).1 ≡ envelope (converted c q.queue)) × ((send_tick c q).0.queue ≡ [])
send_tick-converted c q is_open some_left safe = elim (Bool-cases (len q == 0)) [
  | inl e ↦ absurd (some_left (length-eq_zero q.queue (ground arith)))
  | inr e ↦ rw (ticked c q is_open e) (send_loop-converted c q.queue q [] refl safe)
]
