-- ===== src/Tests/Processes.antt =====
-- The theorems on processes, applied to a system with one process, number 7, that runs or does not.
use embd_project.Prelude.{
  ◌≡◌, refl, ◌⊎◌, true, false, Bool, String, [], ◌∷◌, none, some, Option, ◌==◌, str_eq,
  if◌then◌else◌,
}
use embd_project.Prelude.Maps.{lookup}
use embd_project.Errors.{Error, ok}
use embd_project.Processes.{Proc, System, exists, not_exist, is_alive, delete_proc, start}
use embd_project.Processes.{get_files, release, delete_files, delete_file}
use embd_project.Processes.Masters.{
  ProcWatcher, ProcMaster, new_master, returned, start_process, stop_process, watch_round,
}
use embd_project.Processes.Masters.Started.{Runs, given, start_process-outcome}
use embd_project.Processes.Masters.Stopped.{stop_process-not_group, stop_process-group}
use embd_project.Processes.Masters.Restarted.{watch_round-restarted}

abbrev one_process : System Bool
one_process = record {
  proc_dir = λ pid s. if s then if pid == 7 then exists else not_exist else not_exist;
  stat = λ path s. exists;
  open_file = λ path s. (s, none);
  write_pid = λ path pid s. (s, none);
  remove = λ path s. (s, none);
  start_process = λ cmd args sys s. (true, ok 7);
  signal = λ pid g s. (false, none);
  kill_group = λ pid s. false;
  ends = λ pid s. if s then false else true;
  release = λ pid s. s;
}

abbrev plugin : Option Bool → Proc
plugin sys = record {
  name = "plugin";
  cmd = "/plugins/p";
  args = [];
  pidfile = "p.pid";
  infile = "p.in";
  outfile = "p.out";
  errfile = "p.err";
  keep_alive = true;
  pid = 7;
  status = "running";
  restarts = 0;
  process = some 7;
  sys = sys;
}

abbrev watching : ProcWatcher
watching = record { proc = "plugin"; not_child = false }

abbrev with_plugin : Option Bool → ProcMaster
with_plugin sys = record {
  procs = ("plugin", plugin sys) ∷ [];
  watch_procs = ("plugin", watching) ∷ [];
}

start_process-outcome_example :
    (s : Bool) × (q : Proc) × (m : ProcMaster) × (q.name ≡ "plugin")
    × (((start_process one_process false (plugin none) new_master ≡ returned s q m none)
          × Runs q m
          × (given one_process false (plugin none) ≡ ok q.pid)
          × (lookup "plugin" m.watch_procs ≡ some watching)
          × ((j : String)
              → str_eq "plugin" j ≡ false
              → lookup j m.procs ≡ lookup j new_master.procs))
        ⊎ ((e : Error) × (start_process one_process false (plugin none) new_master
              ≡ returned s q m (some e))
            × (m.procs ≡ new_master.procs)))
unfolding new_master lookup is_alive
start_process-outcome_example =
    start_process-outcome one_process false (plugin none) new_master refl refl refl

stop_process-not_group_example :
    (s : Bool) × (q : Proc) × (m : ProcMaster) × (x : Error) × (stop_process one_process false
        (plugin none)
        true
        "plugin"
        (with_plugin none)
      ≡ returned s q m (some x))
    × (lookup "plugin" m.procs ≡ some q)
    × (lookup "plugin" m.watch_procs ≡ none)
unfolding lookup is_alive
stop_process-not_group_example =
    stop_process-not_group one_process false (plugin none) true (plugin none) (with_plugin none)
      refl refl refl

stop_process-group_example :
    (s : Bool) × (q : Proc) × (m : ProcMaster) × (stop_process one_process false
        (plugin none)
        true
        "plugin"
        (with_plugin (some true))
      ≡ returned s q m none)
    × (lookup "plugin" m.watch_procs ≡ none)
    × ((j : String)
        → lookup j m.procs
          ≡ (if str_eq "plugin" j then none else lookup j (with_plugin (some true)).procs))
unfolding lookup is_alive
stop_process-group_example =
    stop_process-group one_process (plugin none) true (plugin (some true)) (with_plugin (some true))
      7 watching refl refl refl refl refl refl

watch_round-restarted_example :
    (s : Bool) × (q : Proc) × (m : ProcMaster) × (w : ProcWatcher) × (watch_round one_process false
        false false
        (plugin (some true))
        (with_plugin (some true))
      ≡ returned s q m none)
    × (lookup "plugin" m.procs ≡ some q)
    × (q.status ≡ "running")
    × (lookup "plugin" m.watch_procs ≡ none)
unfolding lookup is_alive delete_proc release delete_files delete_file start get_files
watch_round-restarted_example =
    watch_round-restarted one_process false false false (plugin (some true))
      (with_plugin (some true)) refl refl refl refl refl
