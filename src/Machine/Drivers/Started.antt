-- ===== src/Machine/Drivers/Started.antt =====
-- What `StartDrivers` leaves behind, when it succeeds and when it fails.
use mathlib.Core.List.{append_assoc, append-nil}
use embd_project.Prelude.{
  String, ◌≡◌, ◌≢◌, ◌⊎◌, inl, inr, refl, sym, Bool, false, List, [], ◌∷◌, ◌++◌, map, map-snoc, none,
  arith, str_eq, eq_iff, any, Option-cases, any-append,
}
use embd_project.Machine.{
  DriverConf, Driver, Machine, Outside, success, log_status, lookup_driver, find_driver,
  lookup_adaptor,
}
use embd_project.Machine.Snapshots.{with_snapshot-machine, with_snapshot-success}
use embd_project.Machine.Drivers.{new_driver, start_one, start_loop, start_confs, start_drivers}

abbrev pub driver_confs : Machine → List DriverConf
driver_confs m = map (λ d. d.conf) m.drivers

-- Whether a driver of this type is there.
abbrev pub has_driver : String → List DriverConf → Bool
has_driver t = any λ c. str_eq c.typ t

-- No two drivers have one type.
abbrev pub DistinctTypes : List DriverConf → Type 0
DistinctTypes [] = Unit {0}
DistinctTypes (c ∷ cs) = (has_driver c.typ cs ≡ false) × DistinctTypes cs

DistinctTypes-snoc :
    (cs : List DriverConf) (c : DriverConf)
    → has_driver c.typ cs ≡ false
    → DistinctTypes cs
    → DistinctTypes (cs ++ c ∷ [])
DistinctTypes-snoc [] c h d = (refl, tt)
DistinctTypes-snoc (x ∷ cs) c h d = (
  ground (
    arith,
    any-append (λ (y : DriverConf). str_eq y.typ x.typ) cs (c ∷ []),
    eq_iff x.typ c.typ,
    eq_iff c.typ x.typ,
  ),
  DistinctTypes-snoc cs c (ground arith) d.1,
)

find_driver-has_driver :
    (t : String) (ds : List Driver)
    → find_driver t ds ≡ none
    → has_driver t (map (λ d. d.conf) ds) ≡ false
unfolding find_driver
find_driver-has_driver t [] h = refl
find_driver-has_driver t (d ∷ ds) h = ground (arith, find_driver-has_driver t ds)

-- A round adds the driver's configuration at the end, or leaves the drivers as they are. It adds one
-- whenever it succeeds, and only of a type that was not there.
start_one-confs :
    (o : Outside) (c : DriverConf) (m : Machine)
    → ((driver_confs (start_one o c m).0 ≡ driver_confs m) × ((start_one o c m).1 ≢ success))
      ⊎ ((driver_confs (start_one o c m).0 ≡ driver_confs m ++ c ∷ [])
          × (has_driver c.typ (driver_confs m) ≡ false))
unfolding start_one lookup_driver
start_one-confs o c m = elim (Option-cases (lookup_driver c.typ m)) [
  | inl free ↦ elim (Option-cases (lookup_adaptor c.adaptor_id m)) [
    | inl e ↦ inl (ground arith, λ s. ground arith)
    | inr (a, e) ↦ inr (
      ground (
        arith,
        map-snoc (λ (d : Driver). d.conf) m.drivers (new_driver c m),
        map-snoc (λ (d : Driver). d.conf) m.drivers
            (record (new_driver c m) { working = o.starts m c }),
      ),
      find_driver-has_driver c.typ m.drivers free,
    )
  ]
  | inr (d, e) ↦ inl (ground arith, λ s. ground arith)
]

start_loop-confs :
    (o : Outside) (cs : List DriverConf) (m : Machine)
    → (start_loop o cs m).1 ≡ success
    → driver_confs (start_loop o cs m).0 ≡ driver_confs m ++ cs
unfolding start_loop log_status
start_loop-confs o [] m h = sym (append-nil (driver_confs m))
start_loop-confs o (c ∷ cs) m h = ground (
  arith,
  start_one-confs o c m,
  start_loop-confs o cs (start_one o c m).0,
  append_assoc (driver_confs m) (c ∷ []) cs,
)

start_one-DistinctTypes :
    (o : Outside) (c : DriverConf) (m : Machine)
    → DistinctTypes (driver_confs m)
    → DistinctTypes (driver_confs (start_one o c m).0)
start_one-DistinctTypes o c m d = elim (start_one-confs o c m) [
  | inl (e, _) ↦ rw e d
  | inr (e, new) ↦ rw e (DistinctTypes-snoc (driver_confs m) c new d)
]

start_loop-DistinctTypes :
    (o : Outside) (cs : List DriverConf) (m : Machine)
    → DistinctTypes (driver_confs m)
    → DistinctTypes (driver_confs (start_loop o cs m).0)
unfolding start_loop log_status
start_loop-DistinctTypes o [] m d = d
start_loop-DistinctTypes o (c ∷ cs) m d =
    ground (arith, start_one-DistinctTypes o c m, start_loop-DistinctTypes o cs (start_one o c m).0)

-- When `StartDrivers` returns no error, then some driver was asked for, and the machine's drivers
-- are those that it had and, after them, the ones asked for, in their order.
pub start_drivers-success :
    (o : Outside) (cs : List DriverConf) (m : Machine)
    → (start_drivers o cs m).1 ≡ success
    → (driver_confs (start_drivers o cs m).0 ≡ driver_confs m ++ cs) × (cs ≢ [])
unfolding start_drivers start_confs
start_drivers-success o [] m h =
    absurd (ground (arith, with_snapshot-success o (start_confs o [] m)))
start_drivers-success o (c ∷ cs) m h = (
  ground (
    arith,
    with_snapshot-machine o (start_confs o (c ∷ cs) m),
    with_snapshot-success o (start_confs o (c ∷ cs) m),
    start_loop-confs o (c ∷ cs) m,
  ),
  λ e. cc,
)

-- `StartDrivers` keeps the types of a machine's drivers distinct, whether it succeeds or fails.
pub start_drivers-DistinctTypes :
    (o : Outside) (cs : List DriverConf) (m : Machine)
    → DistinctTypes (driver_confs m)
    → DistinctTypes (driver_confs (start_drivers o cs m).0)
unfolding start_drivers start_confs
start_drivers-DistinctTypes o [] m d = ground (arith, with_snapshot-machine o (start_confs o [] m))
start_drivers-DistinctTypes o (c ∷ cs) m d = ground (
  arith,
  with_snapshot-machine o (start_confs o (c ∷ cs) m),
  start_loop-DistinctTypes o (c ∷ cs) m d,
)
