-- ===== src/Machine/Adaptors.antt =====
-- pkg/machine/machine.go, `AttachAdaptors` and `DetachAdaptor`.
use embd_project.Prelude.{
  String, Bool, ◌&&◌, List, [], ◌∷◌, ◌++◌, Option, none, some, str_eq, if◌then◌else◌,
}
use embd_project.Errors.{none_specified, not_found}
use embd_project.StatusLog.{
  status_ok, failure, adaptor, could_not_start, could_not_stop, started, stopped,
}
use embd_project.Machine.{
  AdaptorConf, Machine, Outside, Outcome, success, fails, stuck, log_status, with_snapshot,
}

-- One round of the loop of `attachAdaptors`: the adaptor is listed before it is attached.
unfoldable pub attach_one : Outside → AdaptorConf → Machine → Machine × Outcome
attach_one o conf m =
    let m' = record m { adaptors = m.adaptors ++ conf ∷ [] } in
    elim (o.attach m' conf) [
      | some x ↦ (log_status o failure (could_not_start adaptor x) m', fails x)
      | none ↦ (m', success)
    ]

unfoldable pub attach_loop : Outside → List AdaptorConf → Machine → Machine × Outcome
attach_loop o [] m = (log_status o status_ok (started adaptor m.machine_id) m, success)
attach_loop o (conf ∷ confs) m =
    let (m', r) = attach_one o conf m in
    elim r [ success ↦ attach_loop o confs m' | fails x ↦ (m', fails x) | stuck ↦ (m', stuck) ]

unfoldable pub attach_confs : Outside → List AdaptorConf → Machine → Machine × Outcome
attach_confs o [] m = (m, fails none_specified)
attach_confs o (conf ∷ confs) m = attach_loop o (conf ∷ confs) m

unfoldable pub attach_adaptors : Outside → List AdaptorConf → Machine → Machine × Outcome
attach_adaptors o confs m = with_snapshot o (attach_confs o confs m)

abbrev pub is_adaptor : String → String → AdaptorConf → Bool
is_adaptor t id a = str_eq a.typ t && str_eq a.id id

-- The search of `detachAdaptor`: the first adaptor of this type and id, and the others.
unfoldable pub take_adaptor :
    String → String → List AdaptorConf → Option (AdaptorConf × List AdaptorConf)
take_adaptor t id [] = none
take_adaptor t id (a ∷ as') =
    let rest = take_adaptor t id as' in
    if is_adaptor t id a
    then some (a, as')
    else elim rest [ none ↦ none | some (b, left) ↦ some (b, a ∷ left) ]

-- `detachAdaptor`
unfoldable pub detach_one : Outside → String → String → Machine → Machine × Outcome
detach_one o t id m = elim (take_adaptor t id m.adaptors) [
  | none ↦ (m, fails (not_found t id))
  | some (a, left) ↦ elim (o.detach m a) [
    | some x ↦ (log_status o failure (could_not_stop adaptor x) m, fails x)
    | none ↦ (
      log_status o status_ok (stopped adaptor t id m.machine_id) (record m { adaptors = left }),
      success,
    )
  ]
]

unfoldable pub detach_adaptor : Outside → String → String → Machine → Machine × Outcome
detach_adaptor o t id m = with_snapshot o (detach_one o t id m)
