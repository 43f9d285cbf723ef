-- ===== src/Processes/Masters/Stopped.antt =====
-- Stopping a process.
use embd_project.Prelude.{
  ℕ, String, ◌≡◌, ◌∙◌, refl, Bool, true, false, none, some, if◌then◌else◌, arith, inl, inr,
  Option-cases, str_eq, eq_iff,
}
use embd_project.Prelude.Maps.{lookup, insert, delete, lookup-insert, lookup-delete}
use embd_project.Errors.{Error, process_does_not_exist}
use embd_project.Processes.{
  Proc, System, with_status, set_pgid, gracefully_stop, stop, is_alive, delete_proc,
}
use embd_project.Processes.Masters.{
  ProcWatcher, ProcMaster, returned, end_watcher, put_proc, finish_stop, stop_alive, master_stop,
  left, stop_process,
}

pub put_proc_known :
    (q p : Proc) (m : ProcMaster)
    → lookup q.name m.procs ≡ some p
    → put_proc q m ≡ record m { procs = insert q.name q m.procs }
put_proc_known q p m e = ground arith

module _ {S : Type 0} (os : System S) where
  gracefully_stop-name : (s : S) (p : Proc) → (gracefully_stop os s p).1.name ≡ p.name
  unfolding gracefully_stop
  gracefully_stop-name s p = elim (Option-cases p.process) [
    | inl e ↦ rw (gracefully_stop, e) refl
    | inr (pid, e) ↦ rw (gracefully_stop, e) refl
  ]

  -- `Stop` on a process that was not started as the leader of a group: an error, whatever the signal does.
  stop_not_group :
      (s : S) (p : Proc)
      → set_pgid p ≡ false
      → (x : Error) × ((stop os s p).2 ≡ some x) × ((stop os s p).1.name ≡ p.name)
  unfolding stop
  stop_not_group s p h = elim (Option-cases p.process) [
    | inl e ↦ (process_does_not_exist, rw (stop, e) refl, rw (stop, e) refl)
    | inr (pid, e) ↦ elim (Option-cases (gracefully_stop os s p).2) [
      | inl g ↦ (
        process_does_not_exist,
        rw (stop, e, h, g) refl,
        rw (stop, e, h, g) (gracefully_stop-name s p),
      )
      | inr (x, g) ↦ (x, rw (stop, e, h, g) refl, rw (stop, e, h, g) (gracefully_stop-name s p))
    ]
  ]

  stop_group :
      (s : S) (p : Proc) (pid : ℕ)
      → set_pgid p ≡ true
      → p.process ≡ some pid
      → stop os s p ≡ (os.kill_group p.pid s, with_status "killed (via setpgid)" p, none)
  unfolding stop
  stop_group s p pid h e = ground arith

  stop_process-left :
      (late : Bool) (nobody : Proc) (s : S) (name : String) (p : Proc) (m : ProcMaster)
      → lookup name m.procs ≡ some p
      → is_alive os s p ≡ true
      → stop_process os late nobody s name m
        ≡ left os (stop_alive os late (lookup p.name m.watch_procs) s p m)
  unfolding stop_process master_stop
  stop_process-left late nobody s name p m known alive =
      rw (stop_process, known, master_stop, alive) refl

-- `StopProcess` of a process that is alive and was not started as the leader of a process group fails,
-- also when the signal reaches it: the process stays in the master's map, but its watcher is gone.
pub stop_process-not_group :
    {S : Type 0} (os : System S) (late : Bool) (nobody : Proc) (s : S) (p : Proc) (m : ProcMaster)
    → lookup p.name m.procs ≡ some p
    → is_alive os s p ≡ true
    → set_pgid p ≡ false
    → (s' : S) × (q : Proc) × (m' : ProcMaster) × (x : Error) × (stop_process os late nobody s
          p.name m
        ≡ returned s' q m' (some x))
      × (lookup p.name m'.procs ≡ some q)
      × (lookup p.name m'.watch_procs ≡ none)
unfolding stop_alive left end_watcher
stop_process-not_group os late nobody s p m known alive alone =
    let (s', q, e) = stop os s p in
    let (x, failed, same) = stop_not_group os s p alone in
    let m' = end_watcher p.name m in
    let ends = put_proc_known q p m' (rw same known) in
    (
      s',
      q,
      record m' { procs = insert q.name q m'.procs },
      x,
      stop_process-left os late nobody s p.name p m known alive
          ∙ rw (stop_alive, failed, ends) refl,
      rw same (ground (arith, lookup-insert p.name p.name q m.procs, eq_iff p.name p.name)),
      ground (arith, lookup-delete p.name p.name m.watch_procs, eq_iff p.name p.name),
    )

-- `StopProcess` of a watched process that is alive and leads its process group, and that ends once its
-- group was sent the signal: if the watcher takes the order to end, and not the news of the death, then
-- the call returns without an error, the process is out of the master's map, nobody watches it, and
-- every other entry is as before.
pub stop_process-group :
    {S : Type 0} (os : System S) (nobody : Proc) (s : S) (p : Proc) (m : ProcMaster) (pid : ℕ)
    (w : ProcWatcher)
    → lookup p.name m.procs ≡ some p
    → lookup p.name m.watch_procs ≡ some w
    → is_alive os s p ≡ true
    → set_pgid p ≡ true
    → p.process ≡ some pid
    → os.ends p.pid (os.kill_group p.pid s) ≡ true
    → (s' : S) × (q : Proc) × (m' : ProcMaster) × (stop_process os false nobody s p.name m
        ≡ returned s' q m' none)
      × (lookup p.name m'.watch_procs ≡ none)
      × ((j : String) → lookup j m'.procs ≡ (if str_eq p.name j then none else lookup j m.procs))
unfolding stop_alive left end_watcher finish_stop
stop_process-group os nobody s p m pid w known watched alive leads has dies =
    let ran = stop_group os s p pid leads has in
    let q = with_status "stopped" p in
    let m' = end_watcher p.name m in
    let stays = record m' { procs = insert p.name q m'.procs } in
    (
      (delete_proc os (os.kill_group p.pid s) q).0,
      q,
      record stays { procs = delete p.name stays.procs },
      stop_process-left os false nobody s p.name p m known alive
          ∙ rw (stop_alive, ran, watched, ran, dies, finish_stop, put_proc_known q p m' known) refl,
      ground (arith, lookup-delete p.name p.name m.watch_procs, eq_iff p.name p.name),
      λ j. ground (
        arith,
        lookup-delete p.name j (insert p.name q m.procs),
        lookup-insert p.name j q m.procs,
      ),
    )
