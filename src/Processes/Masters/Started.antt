-- ===== src/Processes/Masters/Started.antt =====
-- Starting a process.
use embd_project.Prelude.{
  ℕ, subst, String, ◌≡◌, ◌⊎◌, refl, ap, ◌∙◌, Bool, false, [], ◌∷◌, none, some, arith, inl, inr,
  Option-cases, str_eq, eq_iff,
}
use embd_project.Prelude.Maps.{lookup, insert, lookup-insert}
use embd_project.Errors.{Error, Result, ok, Result-cases}
use embd_project.Processes.{Proc, System, with_status, get_files, start, is_alive}
use embd_project.Processes.Masters.{
  ProcWatcher, ProcMaster, returned, add_proc_watcher, put_proc, master_start, entered,
  start_process,
}

-- What the master knows of a process that runs: its entry, and that it is watched.
pub record Runs (p : Proc) (m : ProcMaster) : Type 0 where
  pub known : lookup p.name m.procs ≡ some p
  pub running : p.status ≡ "running"
  pub has_process : p.process ≡ some p.pid
  pub watched : (w : ProcWatcher) × (lookup p.name m.watch_procs ≡ some w)

module _ {S : Type 0} (os : System S) where
  -- What `Start` leaves in its process.
  pub start_lem :
      (s : S) (p : Proc)
      → let (s', q, e) = start os s p in (q.name ≡ p.name) × (e ≡ none → q.process ≡ some q.pid)
  unfolding start
  start_lem s p =
      let files = get_files os (p.infile ∷ p.outfile ∷ p.errfile ∷ []) s in
      let ran = os.start_process p.cmd (p.name ∷ p.args) p.sys files.0 in
      elim (Option-cases files.1) [
        | inr (e, h) ↦ rw (start, h) (refl, λ u. cc)
        | inl h ↦ elim (Result-cases ran.1) [
          | inr (e, x) ↦ rw (start, h, x) (refl, λ u. cc)
          | inl (pid, x) ↦ elim (Option-cases (os.write_pid p.pidfile pid ran.0).1) [
            | inr (e, y) ↦ rw (start, h, x, y) (refl, λ u. cc)
            | inl y ↦ rw (start, h, x, y) (refl, λ u. refl)
          ]
        ]
      ]

  -- The id that the operating system gives to the process that `Start` starts.
  abbrev pub given : S → Proc → Result ℕ
  given s p =
      (os.start_process p.cmd (p.name ∷ p.args) p.sys
        (get_files os (p.infile ∷ p.outfile ∷ p.errfile ∷ []) s).0).1

  -- A process that was started has the id that was given.
  start-given : (s : S) (p : Proc) → (start os s p).2 ≡ none → given s p ≡ ok (start os s p).1.pid
  unfolding start
  start-given s p done =
      let files = get_files os (p.infile ∷ p.outfile ∷ p.errfile ∷ []) s in
      let ran = os.start_process p.cmd (p.name ∷ p.args) p.sys files.0 in
      elim (Option-cases files.1) [
        | inr (e, h) ↦ absurd (ground (arith, h, done))
        | inl h ↦ elim (Result-cases ran.1) [
          | inr (e, x) ↦ absurd (ground (arith, h, x, done))
          | inl (pid, x) ↦ elim (Option-cases (os.write_pid p.pidfile pid ran.0).1) [
            | inr (e, y) ↦ absurd (ground (arith, h, x, y, done))
            | inl y ↦ rw (start, h, x, y) refl
          ]
        ]
      ]

pub add_proc_watcher-watched :
    (p : Proc) (b : Bool) (m : ProcMaster)
    → (w : ProcWatcher) × (lookup p.name (add_proc_watcher p b m).watch_procs ≡ some w)
unfolding add_proc_watcher
add_proc_watcher-watched p b m = elim (Option-cases (lookup p.name m.watch_procs)) [
  | inl e ↦
      let w : ProcWatcher = record { proc = p.name; not_child = b } in
      (
        w,
        rw (add_proc_watcher, e)
            (ground (arith, lookup-insert p.name p.name w m.watch_procs, eq_iff p.name p.name)),
      )
  | inr (w, e) ↦ (w, rw (add_proc_watcher, e) e)
]

pub add_proc_watcher-procs :
    (p : Proc) (b : Bool) (m : ProcMaster) → (add_proc_watcher p b m).procs ≡ m.procs
unfolding add_proc_watcher
add_proc_watcher-procs p b m = ground arith

-- Without an entry of that name, a new watcher is started.
add_proc_watcher-new :
    (p : Proc) (b : Bool) (m : ProcMaster)
    → lookup p.name m.watch_procs ≡ none
    → lookup p.name (add_proc_watcher p b m).watch_procs
      ≡ some (record { proc = p.name; not_child = b })
unfolding add_proc_watcher
add_proc_watcher-new p b m e =
    let w : ProcWatcher = record { proc = p.name; not_child = b } in
    rw (add_proc_watcher, e)
      (ground (arith, lookup-insert p.name p.name w m.watch_procs, eq_iff p.name p.name))

-- The master with a process entered and watched.
abbrev pub with_proc : Proc → ProcMaster → ProcMaster
with_proc q m =
    let m' = add_proc_watcher q false m in record m' { procs = insert q.name q m'.procs }

pub with_proc-Runs :
    (q : Proc) (m : ProcMaster)
    → q.status ≡ "running"
    → q.process ≡ some q.pid
    → Runs q (with_proc q m)
with_proc-Runs q m h e = record {
  known = ground (
    arith,
    lookup-insert q.name q.name q (add_proc_watcher q false m).procs,
    eq_iff q.name q.name,
  );
  running = h;
  has_process = e;
  watched = add_proc_watcher-watched q false m;
}

lookup-with_proc :
    (q : Proc) (m : ProcMaster) (j : String)
    → str_eq q.name j ≡ false
    → lookup j (with_proc q m).procs ≡ lookup j m.procs
lookup-with_proc q m j h = ground (
  arith,
  lookup-insert q.name j q (add_proc_watcher q false m).procs,
  add_proc_watcher-procs q false m,
)

put_proc_new : (q : Proc) (m : ProcMaster) → lookup q.name m.procs ≡ none → put_proc q m ≡ m
put_proc_new q m e = ground arith

module _ {S : Type 0} (os : System S) where
  -- `start` on a process that is not alive, when `Start` succeeds.
  pub master_start-ok :
      (s : S) (p : Proc) (m : ProcMaster)
      → is_alive os s p ≡ false
      → (start os s p).2 ≡ none
      → let q = with_status "running" (start os s p).1 in
        master_start os s p m
        ≡ returned (start os s p).0 q (put_proc q (add_proc_watcher q false m)) none
  unfolding master_start
  master_start-ok s p m dead e = rw (master_start, dead, e) refl

  master_start-fails :
      (s : S) (p : Proc) (m : ProcMaster) (x : Error)
      → is_alive os s p ≡ false
      → (start os s p).2 ≡ some x
      → lookup p.name m.procs ≡ none
      → master_start os s p m ≡ returned (start os s p).0 (start os s p).1 m (some x)
  unfolding master_start
  master_start-fails s p m x dead e unknown =
      rw (master_start, dead, e, put_proc_new (start os s p).1 m (rw (start_lem os s p).0 unknown))
        refl

  start_process-entered :
      (s : S) (p : Proc) (m : ProcMaster)
      → lookup p.name m.procs ≡ none
      → start_process os s p m ≡ entered os (master_start os s p m)
  unfolding start_process
  start_process-entered s p m unknown = rw (start_process, unknown) refl

-- `StartProcess` of a process that is not alive, under a name that the master does not know and that no
-- watcher has: either it returns an error and the master's map is as before, or none, and then the
-- operating system has started a process, whose id is recorded, the process is known as running under
-- its name, a new watcher of it as a child is started, and every other entry is as before.
pub start_process-outcome :
    {S : Type 0} (os : System S) (s : S) (p : Proc) (m : ProcMaster)
    → lookup p.name m.procs ≡ none
    → lookup p.name m.watch_procs ≡ none
    → is_alive os s p ≡ false
    → (s' : S) × (q : Proc) × (m' : ProcMaster) × (q.name ≡ p.name)
      × (((start_process os s p m ≡ returned s' q m' none)
            × Runs q m'
            × (given os s p ≡ ok q.pid)
            × (lookup p.name m'.watch_procs ≡ some (record { proc = p.name; not_child = false }))
            × ((j : String) → str_eq p.name j ≡ false → lookup j m'.procs ≡ lookup j m.procs))
          ⊎ ((e : Error) × (start_process os s p m ≡ returned s' q m' (some e))
              × (m'.procs ≡ m.procs)))
unfolding entered
start_process-outcome os s p m unknown unwatched dead =
    let (s', q, e) = start os s p in
    let (same, in_process) = start_lem os s p in
    elim (Option-cases e) [
      | inr (x, h) ↦ (
        s',
        q,
        m,
        same,
        inr (
          x,
          start_process-entered os s p m unknown
              ∙ ap (entered os) (master_start-fails os s p m x dead h unknown),
          refl,
        ),
      )
      | inl h ↦
          let q' = with_status "running" q in
          let new =
            put_proc_new q' (add_proc_watcher q' false m)
              (rw (add_proc_watcher-procs q' false m, same) unknown) in
          let ran = master_start-ok os s p m dead h ∙ ap (λ n. returned s' q' n none) new in
          (
            s',
            q',
            with_proc q' m,
            same,
            inl (
              start_process-entered os s p m unknown ∙ ap (entered os) ran,
              with_proc-Runs q' m refl (in_process h),
              start-given os s p h,
              subst
                  (λ n.
                    lookup n (add_proc_watcher q' false m).watch_procs
                    ≡ some (record { proc = n; not_child = false }))
                  same (add_proc_watcher-new q' false m (rw same unwatched)),
              λ j other. lookup-with_proc q' m j (rw same other),
            ),
          )
    ]
