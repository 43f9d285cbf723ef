-- ===== src/Machine/Controllers/Started.antt =====
-- What `StartControllers` leaves behind, when it succeeds and when it fails.
use mathlib.Core.List.{append_assoc, append-nil}
use embd_project.Prelude.{
  String, ◌≡◌, ◌≢◌, ◌⊎◌, inl, inr, refl, sym, Bool, false, List, [], ◌∷◌, ◌++◌, map, map-snoc, none,
  arith, str_eq, eq_iff, any, Option-cases, any-append,
}
use embd_project.Machine.{
  ControllerConf, Controller, Machine, Outside, success, log_status, lookup_controller,
  find_controller,
}
use embd_project.Machine.Snapshots.{with_snapshot-machine, with_snapshot-success}
use embd_project.Machine.Controllers.{
  new_controller, start_one, start_loop, start_confs, start_controllers,
}

abbrev pub controller_confs : Machine → List ControllerConf
controller_confs m = map (λ d. d.conf) m.controllers

-- Whether a controller of this type is there.
abbrev pub has_controller : String → List ControllerConf → Bool
has_controller t = any λ c. str_eq c.typ t

-- No two controllers have one type.
abbrev pub DistinctTypes : List ControllerConf → Type 0
DistinctTypes [] = Unit {0}
DistinctTypes (c ∷ cs) = (has_controller c.typ cs ≡ false) × DistinctTypes cs

DistinctTypes-snoc :
    (cs : List ControllerConf) (c : ControllerConf)
    → has_controller c.typ cs ≡ false
    → DistinctTypes cs
    → DistinctTypes (cs ++ c ∷ [])
DistinctTypes-snoc [] c h d = (refl, tt)
DistinctTypes-snoc (x ∷ cs) c h d = (
  ground (
    arith,
    any-append (λ (y : ControllerConf). str_eq y.typ x.typ) cs (c ∷ []),
    eq_iff x.typ c.typ,
    eq_iff c.typ x.typ,
  ),
  DistinctTypes-snoc cs c (ground arith) d.1,
)

find_controller-has_controller :
    (t : String) (ds : List Controller)
    → find_controller t ds ≡ none
    → has_controller t (map (λ d. d.conf) ds) ≡ false
unfolding find_controller
find_controller-has_controller t [] h = refl
find_controller-has_controller t (d ∷ ds) h = ground (arith, find_controller-has_controller t ds)

-- A round adds the controller's configuration at the end, or leaves the controllers as they are. It adds one
-- whenever it succeeds, and only of a type that was not there.
start_one-confs :
    (o : Outside) (c : ControllerConf) (m : Machine)
    → ((controller_confs (start_one o c m).0 ≡ controller_confs m)
        × ((start_one o c m).1 ≢ success))
      ⊎ ((controller_confs (start_one o c m).0 ≡ controller_confs m ++ c ∷ [])
          × (has_controller c.typ (controller_confs m) ≡ false))
unfolding start_one lookup_controller log_status
start_one-confs o c m = elim (Option-cases (lookup_controller c.typ m)) [
  | inl free ↦ inr (
    ground (arith, map-snoc (λ (d : Controller). d.conf) m.controllers (new_controller c m)),
    find_controller-has_controller c.typ m.controllers free,
  )
  | inr (d, e) ↦ inl (ground arith, λ s. ground arith)
]

start_loop-confs :
    (o : Outside) (cs : List ControllerConf) (m : Machine)
    → (start_loop o cs m).1 ≡ success
    → controller_confs (start_loop o cs m).0 ≡ controller_confs m ++ cs
unfolding start_loop log_status
start_loop-confs o [] m h = sym (append-nil (controller_confs m))
start_loop-confs o (c ∷ cs) m h = ground (
  arith,
  start_one-confs o c m,
  start_loop-confs o cs (start_one o c m).0,
  append_assoc (controller_confs m) (c ∷ []) cs,
)

start_one-DistinctTypes :
    (o : Outside) (c : ControllerConf) (m : Machine)
    → DistinctTypes (controller_confs m)
    → DistinctTypes (controller_confs (start_one o c m).0)
start_one-DistinctTypes o c m d = elim (start_one-confs o c m) [
  | inl (e, _) ↦ rw e d
  | inr (e, new) ↦ rw e (DistinctTypes-snoc (controller_confs m) c new d)
]

start_loop-DistinctTypes :
    (o : Outside) (cs : List ControllerConf) (m : Machine)
    → DistinctTypes (controller_confs m)
    → DistinctTypes (controller_confs (start_loop o cs m).0)
unfolding start_loop log_status
start_loop-DistinctTypes o [] m d = d
start_loop-DistinctTypes o (c ∷ cs) m d =
    ground (arith, start_one-DistinctTypes o c m, start_loop-DistinctTypes o cs (start_one o c m).0)

-- When `StartControllers` returns no error, then some controller was asked for, and the machine's controllers
-- are those that it had and, after them, the ones asked for, in their order.
pub start_controllers-success :
    (o : Outside) (cs : List ControllerConf) (m : Machine)
    → (start_controllers o cs m).1 ≡ success
    → (controller_confs (start_controllers o cs m).0 ≡ controller_confs m ++ cs) × (cs ≢ [])
unfolding start_controllers start_confs
start_controllers-success o [] m h =
    absurd (ground (arith, with_snapshot-success o (start_confs o [] m)))
start_controllers-success o (c ∷ cs) m h = (
  ground (
    arith,
    with_snapshot-machine o (start_confs o (c ∷ cs) m),
    with_snapshot-success o (start_confs o (c ∷ cs) m),
    start_loop-confs o (c ∷ cs) m,
  ),
  λ e. cc,
)

-- `StartControllers` keeps the types of a machine's controllers distinct, whether it succeeds or fails.
pub start_controllers-DistinctTypes :
    (o : Outside) (cs : List ControllerConf) (m : Machine)
    → DistinctTypes (controller_confs m)
    → DistinctTypes (controller_confs (start_controllers o cs m).0)
unfolding start_controllers start_confs
start_controllers-DistinctTypes o [] m d =
    ground (arith, with_snapshot-machine o (start_confs o [] m))
start_controllers-DistinctTypes o (c ∷ cs) m d = ground (
  arith,
  with_snapshot-machine o (start_confs o (c ∷ cs) m),
  start_loop-DistinctTypes o (c ∷ cs) m d,
)
