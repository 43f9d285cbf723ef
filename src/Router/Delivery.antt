-- ===== src/Router/Delivery.antt =====
-- Who gets a message that a listener routes.
use embd_project.Prelude.{
  ◌≡◌, ◌≢◌, refl, Bool, ◌&&◌, not, List, [], ◌∷◌, arith, ◌==◌, str_eq, eq_iff, any, if◌then◌else◌,
}
use embd_project.Message.{Message}
use embd_project.Queue.{Queue, message, add, get, done}
use embd_project.Queue.Store.{Ptr, Store, write}
use embd_project.Queue.Identity.{id_eq_refl}
use embd_project.Router.{MessageRouter, offer, forward, listen}

pub q_id-add : (m : Message) (q : Queue) → (add m q).q_id ≡ q.q_id
unfolding add
q_id-add m q = ground arith

pub q_id-get : (q : Queue) → (get q).0.q_id ≡ q.q_id
unfolding get
q_id-get q = ground arith

-- An identity that is already dirty is not added again.
pub add_idem : (m : Message) (q : Queue) → add m (add m q) ≡ add m q
unfolding add
add_idem m q = ground (arith, id_eq_refl m.id)

abbrev pub listed : Ptr → List Ptr → Bool
listed p = any λ r. r == p

q_id-offer :
    (s : Ptr) (m : Message) (r : Ptr) (σ : Store) (p : Ptr) → (offer s m r σ p).q_id ≡ (σ p).q_id
unfolding offer
q_id-offer s m r σ p = ground (arith, q_id-add m (σ r))

offer_lem :
    (s : Ptr) (m : Message) (r : Ptr) (σ : Store) (p : Ptr)
    → offer s m r σ p ≡ (if r == p && not (str_eq (σ s).q_id (σ p).q_id) then add m (σ p) else σ p)
unfolding offer
offer_lem s m r σ p = ground arith

-- Where `forward` ends, whatever the order of the set and however often a queue stands in it.
pub forward_lem :
    (s : Ptr) (m : Message) (set : List Ptr) (σ : Store) (p : Ptr)
    → forward s m set σ p
      ≡ (if listed p set && not (str_eq (σ s).q_id (σ p).q_id) then add m (σ p) else σ p)
unfolding forward
forward_lem s m [] σ p = refl
forward_lem s m (r ∷ set) σ p = ground (
  arith,
  forward_lem s m set (offer s m r σ) p,
  offer_lem s m r σ p,
  q_id-offer s m r σ p,
  q_id-offer s m r σ s,
  add_idem m (σ p),
)

pub q_id-done : (m : Message) (q : Queue) → (done m q).q_id ≡ q.q_id
unfolding done
q_id-done m q = ground arith

abbrev pub is_subscribed : MessageRouter → Message → Ptr → Bool
is_subscribed m msg p = listed p (m.route_map msg.id.typ)

-- When a listener takes a message off its send queue, then each other queue is offered the message
-- if it is subscribed to the message's type and has another id than the sender, and otherwise is
-- left as it was.
pub listen-delivers :
    (m : MessageRouter) (s p : Ptr) (σ : Store) (msg : Message)
    → (get (σ s)).1 ≡ message msg
    → s ≢ p
    → (listen m s σ).0 p
      ≡ (if is_subscribed m msg p && not (str_eq (σ s).q_id (σ p).q_id) then add msg (σ p) else σ p)
unfolding listen
listen-delivers m s p σ msg g n =
    ground (
      arith,
      forward_lem s msg (m.route_map msg.id.typ) (write s (get (σ s)).0 σ) p,
      q_id-get (σ s),
    )

-- The sender's own queue is not offered its message, though it may be subscribed: it is left as
-- `Get` and `Done` leave it.
pub listen-no_echo :
    (m : MessageRouter) (s : Ptr) (σ : Store) (msg : Message)
    → (get (σ s)).1 ≡ message msg
    → (listen m s σ).0 s ≡ done msg (get (σ s)).0
unfolding listen
listen-no_echo m s σ msg g = ground (
  arith,
  forward_lem s msg (m.route_map msg.id.typ) (write s (get (σ s)).0 σ) s,
  eq_iff (σ s).q_id (σ s).q_id,
  q_id-get (σ s),
)
