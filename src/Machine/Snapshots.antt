-- ===== src/Machine/Snapshots.antt =====
-- pkg/machine/machine.go: the snapshot that ends every public method, and the outcomes.
use embd_project.Prelude.{◌≡◌, ◌⊎◌, inl, inr, refl, arith}
use embd_project.Errors.{Error}
use embd_project.Machine.{Machine, Outside, Outcome, success, fails, stuck, with_snapshot}

pub with_snapshot-machine : (o : Outside) (r : Machine × Outcome) → (with_snapshot o r).0 ≡ r.0
unfolding with_snapshot
with_snapshot-machine o (m, success) = ground arith
with_snapshot-machine o (m, fails x) = ground arith
with_snapshot-machine o (m, stuck) = refl

pub with_snapshot-success :
    (o : Outside) (r : Machine × Outcome) → (with_snapshot o r).1 ≡ success → r.1 ≡ success
unfolding with_snapshot
with_snapshot-success o (m, success) h = refl
with_snapshot-success o (m, fails x) h = ground arith
with_snapshot-success o (m, stuck) h = h

pub Outcome-cases : (r : Outcome) → (r ≡ success) ⊎ (((x : Error) × (r ≡ fails x)) ⊎ (r ≡ stuck))
Outcome-cases success = inl refl
Outcome-cases (fails x) = inr (inl (x, refl))
Outcome-cases stuck = inr (inr refl)
