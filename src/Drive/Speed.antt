-- ===== src/Drive/Speed.antt =====
-- The speeds that the controller commands.
use embd_project.Prelude.{
  ℕ, ◌+◌, ◌*◌, ◌-◌, ◌≤◌, ◌≡◌, refl, inl, inr, Bool-cases, true, List, [], ◌∷◌, ◌++◌, Option, none,
  some, arith, ltb, leb, length, All, if◌then◌else◌,
}
use embd_project.Message.{Message, drive_data}
use embd_project.Drive.{
  AutonomousDrive, new_autonomous_drive, next_speed, tick, drive_id, forward, motors, drives,
  process_drive_cmd, dual_motors_work,
}

-- What happens to the controller between two messages that it sends.
pub data Input : Type 0 where
  reads : ℕ → Input
  ticks shuts_down : Input

unfoldable pub feed : Input → AutonomousDrive → AutonomousDrive × Option Message
feed (reads n) d = (record d { readings = d.readings ++ n ∷ [] }, none)
feed ticks d = tick d
feed shuts_down d = (record d { is_shut_down = true }, none)

abbrev pub sent : Option Message → List Message → List Message
sent none ms = ms
sent (some m) ms = m ∷ ms

-- The controller after these inputs, and the messages that it has sent, in their order.
unfoldable pub run : List Input → AutonomousDrive → AutonomousDrive × List Message
unfolding feed
run [] d = (d, [])
run (i ∷ is) d = let (d', m) = feed i d in let (d'', ms) = run is d' in (d'', sent m ms)

-- A speed that the controller can reach: it goes from 75 to 210 in steps of 15.
abbrev pub IsStep : ℕ → Type 0
IsStep s = (k : ℕ) × (k ≤ 9) × (s ≡ 75 + 15 * k)

next_speed-IsStep : (n s : ℕ) → IsStep s → IsStep (next_speed n s)
unfolding next_speed
next_speed-IsStep n s (k, h, e) = (
  if leb n 1
      then 0
      else if ltb 5 n
      then (if ltb s 210 then k + 1 else k)
      else if ltb 75 s
      then k - 1
      else k,
  ground arith,
  ground arith,
)

-- A `forward` command at a speed that the motors' byte holds, between 75 and 210.
abbrev pub IsForward : Message → Type 0
IsForward m =
    (s v : ℕ) × (m ≡ record { id = drive_id "forward" v; payload = drive_data s })
    × (75 ≤ s)
    × (s ≤ 210)
    × (dual_motors_work "" m ≡ drives (motors (forward s) (forward s)))

drive_forward :
    (s v : ℕ)
    → s ≤ 210
    → dual_motors_work "" (record { id = drive_id "forward" v; payload = drive_data s })
      ≡ drives (motors (forward s) (forward s))
unfolding dual_motors_work process_drive_cmd
drive_forward s v h = ground arith

All-sent :
    (m : Option Message) (ms : List Message)
    → All IsForward (sent m [])
    → All IsForward ms
    → All IsForward (sent m ms)
All-sent none ms h hs = hs
All-sent (some m) ms h hs = (h.0, hs)

tick-IsForward :
    (d : AutonomousDrive)
    → IsStep d.speed
    → IsStep (tick d).0.speed × All IsForward (sent (tick d).1 [])
unfolding tick
tick-IsForward d h = elim (Bool-cases d.is_shut_down) [
  | inl off ↦ ground arith
  | inr on ↦
      let (k, le, e) = next_speed-IsStep (length d.readings) d.speed h in
      let s = next_speed (length d.readings) d.speed in
      rw on (
        (k, le, e),
        (
          (s, d.version, refl, omega arith, omega arith, drive_forward s d.version (omega arith)),
          tt,
        ),
      )
]

run-IsForward :
    (is : List Input) (d : AutonomousDrive)
    → IsStep d.speed
    → IsStep (run is d).0.speed × All IsForward (run is d).1
unfolding run feed
run-IsForward [] d h = (h, tt)
run-IsForward (reads n ∷ is) d h = run-IsForward is (record d { readings = d.readings ++ n ∷ [] }) h
run-IsForward (shuts_down ∷ is) d h = run-IsForward is (record d { is_shut_down = true }) h
run-IsForward (ticks ∷ is) d h =
    let (s, m) = tick-IsForward d h in
    let (s', ms) = run-IsForward is (tick d).0 s in
    (s', All-sent (tick d).1 (run is (tick d).0).1 m ms)

-- Whatever readings, ticks and shutdowns a new controller meets, its speed is 75 plus a multiple of
-- 15, at most 210; and each message that it sends is a `forward` command which the motors' driver
-- turns into its full speed, between 75 and 210, on both motors, with nothing cut off by the byte.
pub run-new_autonomous_drive :
    (is : List Input)
    → IsStep (run is new_autonomous_drive).0.speed × All IsForward (run is new_autonomous_drive).1
unfolding new_autonomous_drive
run-new_autonomous_drive is = run-IsForward is new_autonomous_drive (0, omega arith, refl)

-- After a shutdown, the controller sends nothing more.
pub run-shut_down :
    (is : List Input) (d : AutonomousDrive) → d.is_shut_down ≡ true → (run is d).1 ≡ []
unfolding run feed tick
run-shut_down [] d h = refl
run-shut_down (reads n ∷ is) d h = run-shut_down is (record d { readings = d.readings ++ n ∷ [] }) h
run-shut_down (shuts_down ∷ is) d h = run-shut_down is (record d { is_shut_down = true }) refl
run-shut_down (ticks ∷ is) d h = ground (arith, run-shut_down is d)
