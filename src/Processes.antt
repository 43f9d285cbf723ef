-- ===== src/Processes.antt =====
-- common/procwatcher/procwatcher.go, and the files and signals of common/utils.go that it uses: the
-- processes of plugins. This module has `Proc`; the child `Masters` has the watcher and the master.
-- The operating system is a parameter, `System`, over a type of its states.
pub mod Masters
use embd_project.Prelude.{
  ℕ, suc, ◌+◌, String, Bool, true, false, List, [], ◌∷◌, Option, none, some, if◌then◌else◌,
}
use embd_project.Errors.{Error, Result, ok, err, process_does_not_exist, no_such_file}

-- `Proc` with its `ProcStatus`. `process` is the process that `os` gave, by its id; `sys` is the flag
-- `Setpgid`, if attributes are set.
pub record Proc : Type 0 where
  pub name : String
  pub cmd : String
  pub args : List String
  pub pidfile : String
  pub infile : String
  pub outfile : String
  pub errfile : String
  pub keep_alive : Bool
  pub pid : ℕ
  pub status : String
  pub restarts : ℕ
  pub process : Option ℕ
  pub sys : Option Bool

-- What `os.Stat` and `os.IsNotExist` say of a path.
pub data Stat : Type 0 where
  exists : Stat
  not_exist : Stat
  stat_failed : Error → Stat

pub data Signal : Type 0 where
  sigterm sigkill : Signal

pub record System (S : Type 0) : Type 0 where
  pub proc_dir : ℕ → S → Stat  -- of /proc/<pid>
  pub stat : String → S → Stat
  pub open_file : String → S → S × Option Error  -- created if need be
  pub write_pid : String → ℕ → S → S × Option Error
  pub remove : String → S → S × Option Error
  pub start_process : String → List String → Option Bool → S → S × Result ℕ
  pub signal : ℕ → Signal → S → S × Option Error
  pub kill_group : ℕ → S → S  -- `syscall.Kill(-pid, SIGKILL)`, whose error is dropped
  pub ends : ℕ → S → Bool  -- whether the process comes to its end, sooner or later
  pub release : ℕ → S → S

-- The system, the process and the error after a method of `Proc`.
abbrev pub Ran : Type 0 → Type 0
Ran S = S × Proc × Option Error

abbrev pub with_status : String → Proc → Proc
with_status status p = record p { status = status }

-- `Restore`, on a process that was found.
unfoldable pub restore_proc : ℕ → Proc → Proc
restore_proc pid p = record p { pid = pid; process = some pid; status = "restored" }

abbrev pub add_restart : Proc → Proc
add_restart p = record p { restarts = p.restarts + 1 }

-- `proc.Sys != nil && proc.Sys.Setpgid == true`
abbrev pub set_pgid : Proc → Bool
set_pgid p = elim p.sys [ none ↦ false | some b ↦ b ]

module _ {S : Type 0} (os : System S) where
  -- `common.DeleteFile`
  unfoldable pub delete_file : String → S → S × Option Error
  delete_file path s = elim (os.stat path s) [
    | exists ↦ os.remove path s
    | not_exist ↦ (s, some no_such_file)
    | stat_failed e ↦ (s, some e)
  ]

  -- The calls of `common.GetFile` at the start of `Start`.
  unfoldable pub get_files : List String → S → S × Option Error
  get_files [] s = (s, none)
  get_files (f ∷ fs) s =
      let (s', e) = os.open_file f s in elim e [ some e ↦ (s', some e) | none ↦ get_files fs s' ]

  -- `Start`
  unfoldable pub start : S → Proc → Ran S
  unfolding get_files
  start s p =
      let (s₁, opened) = get_files (p.infile ∷ p.outfile ∷ p.errfile ∷ []) s in
      elim opened [
        | some e ↦ (s₁, p, some e)
        | none ↦
            let (s₂, r) = os.start_process p.cmd (p.name ∷ p.args) p.sys s₁ in
            elim r [
              | err e ↦ (s₂, p, some e)
              | ok pid ↦
                  let p' : Proc = record p { process = some pid; pid = pid } in
                  let (s₃, written) = os.write_pid p.pidfile pid s₂ in
                  elim written [
                    | some e ↦ (s₃, p', some e)
                    | none ↦ (s₃, with_status "started" p', none)
                  ]
            ]
      ]

  -- `release`
  unfoldable pub release : S → Proc → S
  unfolding delete_file
  release s p =
      let s' : S = elim p.process [ none ↦ s | some pid ↦ os.release pid s ] in
      (delete_file p.pidfile s').0

  -- `ForceStop`
  unfoldable pub force_stop : S → Proc → Ran S
  unfolding release
  force_stop s p = elim p.process [
    | none ↦ (s, p, some process_does_not_exist)
    | some pid ↦
        let (s', e) = os.signal pid sigkill s in
        (release s' (with_status "stopped" p), with_status "stopped" p, e)
  ]

  -- `GracefullyStop`
  unfoldable pub gracefully_stop : S → Proc → Ran S
  gracefully_stop s p = elim p.process [
    | none ↦ (s, p, some process_does_not_exist)
    | some pid ↦ let (s', e) = os.signal pid sigterm s in (s', with_status "asked to stop" p, e)
  ]

  -- `Stop`
  unfoldable pub stop : S → Proc → Ran S
  unfolding gracefully_stop
  stop s p =
      let (s', p', e) = gracefully_stop s p in
      elim p.process [
        | none ↦ (s, p, some process_does_not_exist)
        | some pid ↦
            if set_pgid p
            then (os.kill_group p.pid s, with_status "killed (via setpgid)" p, none)
            else elim e [ some x ↦ (s', p', some x) | none ↦ (s', p', some process_does_not_exist) ]
      ]

  -- `IsAlive`
  unfoldable pub is_alive : S → Proc → Bool
  is_alive s p = elim (os.proc_dir p.pid s) [ exists ↦ true | _ ↦ false ]

  -- `Restart`
  unfoldable pub restart : S → Proc → Ran S
  unfolding start stop is_alive
  restart s p =
      let (s', p', e) = stop s p in
      if is_alive s p then elim e [ some x ↦ (s', p', some x) | none ↦ start s' p' ] else start s p

  -- The three calls of `common.DeleteFile` in `Delete`.
  unfoldable pub delete_files : List String → S → S × Option Error
  unfolding delete_file
  delete_files [] s = (s, none)
  delete_files (f ∷ fs) s =
      let (s', e) = delete_file f s in elim e [ some x ↦ (s', some x) | none ↦ delete_files fs s' ]

  -- `Delete`
  unfoldable pub delete_proc : S → Proc → S × Option Error
  unfolding release delete_files
  delete_proc s p = delete_files (p.infile ∷ p.outfile ∷ p.errfile ∷ []) (release s p)
