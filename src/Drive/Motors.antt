-- ===== src/Drive/Motors.antt =====
-- Which motions a drive command gives the motors.
use embd_project.Prelude.{ℕ, ◌+◌, ◌-◌, ◌≤◌, ◌<◌, ◌≡◌, arith}
use embd_project.Message.{Message, drive_data}
use embd_project.Drive.{forward, motors, process_drive_cmd}

-- A turn at a speed from 50 to 205 drives the outer motor faster than the inner one by 100.
pub process_drive_cmd-turns :
    (m : Message) (s : ℕ)
    → m.payload ≡ drive_data s
    → 50 ≤ s
    → s ≤ 205
    → (m.id.sub_type ≡ "forward-right"
        → process_drive_cmd m ≡ motors (forward (s - 50)) (forward (s + 50)))
      × (m.id.sub_type ≡ "forward-left"
          → process_drive_cmd m ≡ motors (forward (s + 50)) (forward (s - 50)))
unfolding process_drive_cmd
process_drive_cmd-turns m s e lo hi =
    ((λ t. rw (t, e) (ground arith)), (λ t. rw (t, e) (ground arith)))

-- A turn at a speed from 206 to 255 overflows the byte: the outer motor gets the speed less 206, and
-- is the slower one.
pub process_drive_cmd-overflows :
    (m : Message) (s : ℕ)
    → m.payload ≡ drive_data s
    → 206 ≤ s
    → s ≤ 255
    → m.id.sub_type ≡ "forward-right"
    → (process_drive_cmd m ≡ motors (forward (s - 50)) (forward (s - 206))) × (s - 206 < s - 50)
unfolding process_drive_cmd
process_drive_cmd-overflows m s e lo hi t = (rw (t, e) (ground arith), omega arith)
