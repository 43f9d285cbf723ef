-- ===== src/Tests/Drives.antt =====
-- The theorems on drive commands, applied.
use embd_project.Prelude.{◌≡◌, List, [], ◌∷◌, arith, All}
use embd_project.Queue.{new_queue}
use embd_project.Drive.{new_autonomous_drive}
use embd_project.Drive.Speed.{
  Input, reads, ticks, shuts_down, run, IsStep, IsForward, run-new_autonomous_drive,
}
use embd_project.Producers.{Producer, reading_message, on_reading, feed_all}
use embd_project.Producers.Queued.{readings-queued}

abbrev inputs : List Input
inputs = reads 10 ∷ reads 12 ∷ ticks ∷ shuts_down ∷ ticks ∷ []

run-new_autonomous_drive_example :
    IsStep (run inputs new_autonomous_drive).0.speed
    × All IsForward (run inputs new_autonomous_drive).1
run-new_autonomous_drive_example = run-new_autonomous_drive inputs

abbrev sonar : Producer
sonar = record { version = 0; snd_q = new_queue "sonar" }

readings-queued_example :
    (feed_all (on_reading "FrontFacing") (10 ∷ 12 ∷ []) sonar).snd_q.queue
    ≡ reading_message "FrontFacing" 0 10 ∷ reading_message "FrontFacing" 1 12 ∷ []
readings-queued_example = readings-queued "sonar" "FrontFacing" (10 ∷ 12 ∷ []) (omega arith)
