-- ===== src/StatusLog/Ring.antt =====
-- pkg/machine/machine.go: which logs the ring keeps and shows.
use embd_project.Prelude.{ℕ, ◌≡◌, refl, List, [], ◌∷◌, Option, some, take}
use embd_project.StatusLog.{
  StatusLog, MachineStatus, StatusCode, status_ok, empty_status, add_status_log, status_string,
  code_of, dump_log,
}

-- The status after these logs, the newest first.
abbrev pub logged : List StatusLog → MachineStatus
logged [] = empty_status
logged (s ∷ older) = add_status_log s (logged older)

abbrev ring : List (Option StatusLog) → ℕ → MachineStatus
ring log index = record { log = log; index = index }

-- How a status can stand for a history.
data Shows (e : MachineStatus) (hist : List StatusLog) : Type 0 where
  zero_logs : hist ≡ [] → e ≡ ring [] 0 → Shows e hist
  one_log : (a : StatusLog) → hist ≡ a ∷ [] → e ≡ ring (some a ∷ []) 1 → Shows e hist
  two_logs :
      (a b : StatusLog) → hist ≡ a ∷ b ∷ [] → e ≡ ring (some b ∷ some a ∷ []) 2 → Shows e hist
  three_logs :
      (a b c : StatusLog)
      → hist ≡ a ∷ b ∷ c ∷ []
      → e ≡ ring (some c ∷ some b ∷ some a ∷ []) 3
      → Shows e hist
  full_at_0 :
      (a b c d : StatusLog) (older : List StatusLog)
      → hist ≡ a ∷ b ∷ c ∷ d ∷ older
      → e ≡ ring (some d ∷ some c ∷ some b ∷ some a ∷ []) 0
      → Shows e hist
  full_at_1 :
      (a b c d : StatusLog) (older : List StatusLog)
      → hist ≡ a ∷ b ∷ c ∷ d ∷ older
      → e ≡ ring (some a ∷ some d ∷ some c ∷ some b ∷ []) 1
      → Shows e hist
  full_at_2 :
      (a b c d : StatusLog) (older : List StatusLog)
      → hist ≡ a ∷ b ∷ c ∷ d ∷ older
      → e ≡ ring (some b ∷ some a ∷ some d ∷ some c ∷ []) 2
      → Shows e hist
  full_at_3 :
      (a b c d : StatusLog) (older : List StatusLog)
      → hist ≡ a ∷ b ∷ c ∷ d ∷ older
      → e ≡ ring (some c ∷ some b ∷ some a ∷ some d ∷ []) 3
      → Shows e hist

add-Shows :
    (s : StatusLog) {e : MachineStatus} {h : List StatusLog}
    → Shows e h
    → Shows (add_status_log s e) (s ∷ h)
unfolding add_status_log
add-Shows s (zero_logs p q) = one_log s (rw p) (rw q)
add-Shows s (one_log a p q) = two_logs s a (rw p) (rw q)
add-Shows s (two_logs a b p q) = three_logs s a b (rw p) (rw q)
add-Shows s (three_logs a b c p q) = full_at_0 s a b c [] (rw p) (rw q)
add-Shows s (full_at_0 a b c d o p q) = full_at_1 s a b c (d ∷ o) (rw p) (rw q)
add-Shows s (full_at_1 a b c d o p q) = full_at_2 s a b c (d ∷ o) (rw p) (rw q)
add-Shows s (full_at_2 a b c d o p q) = full_at_3 s a b c (d ∷ o) (rw p) (rw q)
add-Shows s (full_at_3 a b c d o p q) = full_at_0 s a b c (d ∷ o) (rw p) (rw q)

logged-Shows : (h : List StatusLog) → Shows (logged h) h
unfolding empty_status
logged-Shows [] = zero_logs refl refl
logged-Shows (s ∷ h) = add-Shows s (logged-Shows h)

dump_of_Shows : {e : MachineStatus} {h : List StatusLog} → Shows e h → dump_log e ≡ some (take 4 h)
unfolding dump_log
dump_of_Shows (zero_logs p q) = rw (p, q)
dump_of_Shows (one_log a p q) = rw (p, q)
dump_of_Shows (two_logs a b p q) = rw (p, q)
dump_of_Shows (three_logs a b c p q) = rw (p, q)
dump_of_Shows (full_at_0 a b c d o p q) = rw (p, q)
dump_of_Shows (full_at_1 a b c d o p q) = rw (p, q)
dump_of_Shows (full_at_2 a b c d o p q) = rw (p, q)
dump_of_Shows (full_at_3 a b c d o p q) = rw (p, q)

-- After any logs, the loop of `DumpLog` ends, and shows the last four logs, the newest first.
pub dump_log-logged : (h : List StatusLog) → dump_log (logged h) ≡ some (take 4 h)
dump_log-logged h = dump_of_Shows (logged-Shows h)

abbrev pub newest_code : List StatusLog → StatusCode
newest_code [] = status_ok
newest_code (s ∷ h) = s.code

string_of_Shows :
    {e : MachineStatus} {h : List StatusLog} → Shows e h → status_string e ≡ code_of (newest_code h)
unfolding status_string
string_of_Shows (zero_logs p q) = rw (p, q)
string_of_Shows (one_log a p q) = rw (p, q)
string_of_Shows (two_logs a b p q) = rw (p, q)
string_of_Shows (three_logs a b c p q) = rw (p, q)
string_of_Shows (full_at_0 a b c d o p q) = rw (p, q)
string_of_Shows (full_at_1 a b c d o p q) = rw (p, q)
string_of_Shows (full_at_2 a b c d o p q) = rw (p, q)
string_of_Shows (full_at_3 a b c d o p q) = rw (p, q)

-- After any logs, `String` reads inside the ring and shows the code of the newest log, and OK if
-- there is none.
pub status_string-logged : (h : List StatusLog) → status_string (logged h) ≡ code_of (newest_code h)
status_string-logged h = string_of_Shows (logged-Shows h)
