-- ===== src/Machine/Detached.antt =====
-- What attaching and detaching adaptors leave behind.
use mathlib.Core.List.{append_assoc, append-nil}
use embd_project.Prelude.{
  String, ◌≡◌, ◌≢◌, sym, true, List, [], ◌∷◌, ◌++◌, some, arith, Option-cases, Bool-cases, inl, inr,
}
use embd_project.Machine.{AdaptorConf, Machine, Outside, success, log_status}
use embd_project.Machine.Snapshots.{with_snapshot-machine, with_snapshot-success}
use embd_project.Machine.Adaptors.{
  attach_one, attach_loop, attach_confs, attach_adaptors, is_adaptor, take_adaptor, detach_one,
  detach_adaptor,
}

attach_loop-success :
    (o : Outside) (cs : List AdaptorConf) (m : Machine)
    → (attach_loop o cs m).1 ≡ success
    → (attach_loop o cs m).0.adaptors ≡ m.adaptors ++ cs
unfolding attach_loop attach_one log_status
attach_loop-success o [] m h = sym (append-nil m.adaptors)
attach_loop-success o (c ∷ cs) m h = ground (
  arith,
  attach_loop-success o cs (record m { adaptors = m.adaptors ++ c ∷ [] }),
  append_assoc m.adaptors (c ∷ []) cs,
)

-- When `AttachAdaptors` returns no error, then some adaptor was asked for, and the machine's
-- adaptors are those that it had and, after them, the ones asked for, in their order.
pub attach_adaptors-success :
    (o : Outside) (cs : List AdaptorConf) (m : Machine)
    → (attach_adaptors o cs m).1 ≡ success
    → ((attach_adaptors o cs m).0.adaptors ≡ m.adaptors ++ cs) × (cs ≢ [])
unfolding attach_adaptors attach_confs
attach_adaptors-success o [] m h =
    absurd (ground (arith, with_snapshot-success o (attach_confs o [] m)))
attach_adaptors-success o (c ∷ cs) m h = (
  ground (
    arith,
    with_snapshot-machine o (attach_confs o (c ∷ cs) m),
    with_snapshot-success o (attach_confs o (c ∷ cs) m),
    attach_loop-success o (c ∷ cs) m,
  ),
  λ e. cc,
)

take_adaptor-parts :
    (t id : String) (l : List AdaptorConf) (a : AdaptorConf) (left : List AdaptorConf)
    → take_adaptor t id l ≡ some (a, left)
    → (before : List AdaptorConf) × (after : List AdaptorConf) × (l ≡ before ++ a ∷ after)
      × (left ≡ before ++ after)
      × (is_adaptor t id a ≡ true)
unfolding take_adaptor
take_adaptor-parts t id [] a left h = cc
take_adaptor-parts t id (x ∷ l) a left h = elim (Option-cases (take_adaptor t id l)) [
  | inl e ↦ ([], l, ground arith, ground arith, ground arith)
  | inr ((b, left'), e) ↦
      let (before, after, p, q, r) = take_adaptor-parts t id l b left' e in
      elim (Bool-cases (is_adaptor t id x)) [
        | inl hit ↦ ([], l, ground arith, ground arith, ground arith)
        | inr miss ↦ (x ∷ before, after, ground arith, ground arith, ground arith)
      ]
]

-- When `DetachAdaptor` returns no error, then exactly one adaptor is gone, of the type and id asked
-- for, and the others stand in their order.
pub detach_adaptor-success :
    (o : Outside) (t id : String) (m : Machine)
    → (detach_adaptor o t id m).1 ≡ success
    → (a : AdaptorConf) × (before : List AdaptorConf) × (after : List AdaptorConf) × (m.adaptors
        ≡ before ++ a ∷ after)
      × ((detach_adaptor o t id m).0.adaptors ≡ before ++ after)
      × (is_adaptor t id a ≡ true)
unfolding detach_adaptor detach_one log_status
detach_adaptor-success o t id m h =
    let same = with_snapshot-machine o (detach_one o t id m) in
    let fine = with_snapshot-success o (detach_one o t id m) in
    elim (Option-cases (take_adaptor t id m.adaptors)) [
      | inl e ↦ absurd (ground (arith, fine))
      | inr ((a, left), e) ↦
          let (before, after, p, q, r) = take_adaptor-parts t id m.adaptors a left e in
          (a, before, after, p, ground (arith, same, fine), r)
    ]
