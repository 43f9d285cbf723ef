-- ===== src/StatusLog.antt =====
-- pkg/machine/machine.go and status.go: the ring of a machine's last status logs.
pub mod Ring
use embd_project.Prelude.{
  ℕ, zero, suc, String, ◌+◌, ◌-◌, Bool, List, [], ◌∷◌, ◌++◌, Option, none, some, ◌==◌, ltb, leb,
  length, get_elem?, set, if◌then◌else◌,
}
use embd_project.Errors.{Error}

abbrev pub max_logs : ℕ
max_logs = 4

pub data StatusCode : Type 0 where
  status_ok warning failure disabled info : StatusCode

pub data Part : Type 0 where
  driver controller adaptor : Part

-- The texts that the program logs, with the values that are formatted into them.
pub data Note : Type 0 where
  could_not_start could_not_stop : Part → Error → Note
  could_not_remove : String → Error → Note
  started : Part → String → Note
  stopped : Part → String → String → String → Note
  restoring : Note
  restore_failed : Error → Note

pub record StatusLog : Type 0 where
  pub code : StatusCode
  pub msg : Note
  pub timestamp : ℕ

-- `Log []*statusLog` may hold nil pointers.
pub record MachineStatus : Type 0 where
  pub log : List (Option StatusLog)
  pub index : ℕ

unfoldable pub empty_status : MachineStatus
empty_status = record { log = []; index = 0 }

unfoldable pub last_index : MachineStatus → ℕ
last_index e = if e.index == 0 then max_logs - 1 else e.index - 1

unfoldable pub get_and_inc_idx : MachineStatus → MachineStatus × ℕ
get_and_inc_idx e =
    let next = e.index + 1 in (record e { index = if leb max_logs next then 0 else next }, e.index)

unfoldable pub add_status_log : StatusLog → MachineStatus → MachineStatus
unfolding get_and_inc_idx
add_status_log s e =
    let (e', idx) = get_and_inc_idx e in
    if ltb (length e.log) max_logs
    then record e' { log = e.log ++ some s ∷ [] }
    else record e' { log = set e.log idx (some s) }

-- What an access `e.Log[i]` gives: an index out of range panics.
pub data Access : Type 0 where
  panics : Access
  code_of : StatusCode → Access

abbrev code_at : Option (Option StatusLog) → Access
code_at none = panics
code_at (some none) = code_of status_ok
code_at (some (some l)) = code_of l.code

-- `MachineStatus.String`: the code whose text is shown.
unfoldable pub status_string : MachineStatus → Access
unfolding last_index
status_string e =
    if ltb 0 (length e.log) then code_at (get_elem? e.log (last_index e)) else code_of status_ok

abbrev shown : Option (Option StatusLog) → List StatusLog → List StatusLog
shown (some (some l)) logs = logs ++ l ∷ []
shown _ logs = logs

-- The loop of `DumpLog`. The variable is `i + 1`, so that 0 stands for -1; `none` is a loop that has
-- not ended on this fuel.
unfoldable pub dump_from : ℕ → ℕ → MachineStatus → List StatusLog → Option (List StatusLog)
dump_from zero j e logs = none
dump_from (suc n) j e logs =
    let i = if j == 0 then max_logs - 1 else j - 1 in
    let logs' = shown (get_elem? e.log i) logs in
    let rest = dump_from n i e logs' in if i == e.index then some logs' else rest

-- `DumpLog`: the logs in the order in which their lines are joined.
unfoldable pub dump_log : MachineStatus → Option (List StatusLog)
unfolding dump_from last_index
dump_log e = dump_from (suc max_logs) (suc (last_index e)) e []

-- `DeepCopy`: the copy shares the logs, which nothing mutates.
unfoldable pub deep_copy : MachineStatus → MachineStatus
deep_copy e = record { log = e.log; index = e.index }
