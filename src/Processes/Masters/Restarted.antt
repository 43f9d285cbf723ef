-- ===== src/Processes/Masters/Restarted.antt =====
-- What `WatchProcs` does with a process that died.
use embd_project.Prelude.{
  String, ◌≡◌, ◌∙◌, refl, ap, subst, Bool, true, false, none, some, if◌then◌else◌, arith, eq_iff,
}
use embd_project.Prelude.Maps.{lookup, lookup-insert, lookup-delete}
use embd_project.Processes.{Proc, System, with_status, add_restart, start, is_alive, delete_proc}
use embd_project.Processes.Masters.{
  ProcWatcher, ProcMaster, returned, end_watcher, add_proc_watcher, put_proc, finish_stop,
  master_stop, start_after, master_restart, ended, watch_round,
}
use embd_project.Processes.Masters.Started.{
  start_lem, master_start-ok, add_proc_watcher-watched, add_proc_watcher-procs,
}
use embd_project.Processes.Masters.Stopped.{put_proc_known}

-- The entry of a process in the map after `put_proc`, if it had one.
put_proc-known :
    (q p : Proc) (m : ProcMaster) (name : String)
    → q.name ≡ name
    → lookup name m.procs ≡ some p
    → lookup name (put_proc q m).procs ≡ some q
put_proc-known q p m name same e =
    subst (λ n. lookup n (put_proc q m).procs ≡ some q) same
      (rw (put_proc_known q p m (rw same e))
        (ground (arith, lookup-insert q.name q.name q m.procs, eq_iff q.name q.name)))

put_proc-watch_procs : (q : Proc) (m : ProcMaster) → (put_proc q m).watch_procs ≡ m.watch_procs
put_proc-watch_procs q m = ground arith

module _ {S : Type 0} (os : System S) where
  -- `restart` of a process that is dead, and still is when its files are gone.
  restart-dead :
      (late : Bool) (s : S) (p : Proc) (m : ProcMaster)
      → is_alive os s p ≡ false
      → let s₁ = (delete_proc os s p).0 in
        is_alive os s₁ p ≡ false
        → (start os s₁ p).2 ≡ none
        → let q = with_status "running" (start os s₁ p).1 in
          master_restart os late s p m
          ≡ returned (start os s₁ p).0 q (put_proc q (add_proc_watcher q false (put_proc p m))) none
  unfolding master_restart start_after master_stop finish_stop
  restart-dead late s p m dead dead₁ started =
      rw (master_restart, start_after, master_stop, dead, finish_stop)
        (master_start-ok os (delete_proc os s p).0 p (put_proc p m) dead₁ started)

  watch_round_kept :
      (deleted late : Bool) (s : S) (p : Proc) (m : ProcMaster)
      → p.keep_alive ≡ true
      → watch_round os deleted late s p m
        ≡ ended os deleted p.name (
            master_restart os late s
              (add_restart p)
              (put_proc (add_restart p) (if deleted then end_watcher p.name m else m)))
  unfolding watch_round
  watch_round_kept deleted late s p m keeps = ground arith

-- The master with a process that was restarted: its entry, and its watcher if it had none.
abbrev restarted : Proc → Proc → ProcMaster → ProcMaster
restarted p q m = put_proc q (add_proc_watcher q false (put_proc p m))

restarted-known :
    (p q r : Proc) (m : ProcMaster)
    → q.name ≡ p.name
    → lookup p.name m.procs ≡ some r
    → lookup p.name (restarted p q m).procs ≡ some q
restarted-known p q r m same known =
    put_proc-known q p (add_proc_watcher q false (put_proc p m)) p.name same (
      ap (λ l. lookup p.name l) (add_proc_watcher-procs q false (put_proc p m))
      ∙ put_proc-known p r m p.name refl known)

restarted-watched :
    (p q : Proc) (m : ProcMaster)
    → q.name ≡ p.name
    → (w : ProcWatcher) × (lookup p.name (restarted p q m).watch_procs ≡ some w)
restarted-watched p q m same =
    let (w, e) = add_proc_watcher-watched q false (put_proc p m) in
    (
      w,
      ap (λ l. lookup p.name l) (put_proc-watch_procs q (add_proc_watcher q false (put_proc p m)))
          ∙ subst (λ n. lookup n (add_proc_watcher q false (put_proc p m)).watch_procs ≡ some w)
              same e,
    )

-- A dead process that is to be kept alive, once its watcher has reported the death: if it can be
-- started, then it runs again under its name, with no error; it is watched if the watcher that
-- reported had removed its entry before, and otherwise nobody watches it from then on.
pub watch_round-restarted :
    {S : Type 0} (os : System S) (deleted late : Bool) (s : S) (p : Proc) (m : ProcMaster)
    → lookup p.name m.procs ≡ some p
    → p.keep_alive ≡ true
    → is_alive os s p ≡ false
    → let s₁ = (delete_proc os s (add_restart p)).0 in
      is_alive os s₁ p ≡ false
      → (start os s₁ (add_restart p)).2 ≡ none
      → (s' : S) × (q : Proc) × (m' : ProcMaster) × (w : ProcWatcher) × (watch_round os deleted late
            s p m
          ≡ returned s' q m' none)
        × (lookup p.name m'.procs ≡ some q)
        × (q.status ≡ "running")
        × (lookup p.name m'.watch_procs ≡ (if deleted then some w else none))
unfolding ended end_watcher is_alive
watch_round-restarted os true late s p m known keeps dead dead₁ started =
    let p' = add_restart p in
    let m₁ = put_proc p' (end_watcher p.name m) in
    let s₁ = (delete_proc os s p').0 in
    let q = with_status "running" (start os s₁ p').1 in
    let same = (start_lem os s₁ p').0 in
    let (w, watched) = restarted-watched p' q m₁ same in
    (
      (start os s₁ p').0,
      q,
      restarted p' q m₁,
      w,
      watch_round_kept os true late s p m keeps
          ∙ ap (ended os true p.name) (restart-dead os late s p' m₁ dead dead₁ started),
      restarted-known p' q p' m₁ same
          (put_proc-known p' p (end_watcher p.name m) p.name refl known),
      refl,
      watched,
    )
watch_round-restarted os false late s p m known keeps dead dead₁ started =
    let p' = add_restart p in
    let m₁ = put_proc p' m in
    let s₁ = (delete_proc os s p').0 in
    let q = with_status "running" (start os s₁ p').1 in
    let same = (start_lem os s₁ p').0 in
    (
      (start os s₁ p').0,
      q,
      end_watcher p.name (restarted p' q m₁),
      record { proc = p.name; not_child = false },
      watch_round_kept os false late s p m keeps
          ∙ ap (ended os false p.name) (restart-dead os late s p' m₁ dead dead₁ started),
      restarted-known p' q p' m₁ same (put_proc-known p' p m p.name refl known),
      refl,
      ground (
        arith,
        lookup-delete p.name p.name (restarted p' q m₁).watch_procs,
        eq_iff p.name p.name,
      ),
    )
