-- ===== src/Queue/Store.antt =====
-- The queues that the program has allocated, by address.
use embd_project.Prelude.{ℕ, ◌==◌, if◌then◌else◌}
use embd_project.Queue.{Queue}

abbrev pub Ptr : Type 0
Ptr = ℕ

abbrev pub Store : Type 0
Store = Ptr → Queue

abbrev pub write : Ptr → Queue → Store → Store
write p q σ r = if p == r then q else σ r
