-- ===== src/Drive.antt =====
-- pkg/controllers/autonomous_drive.go, and the message handling of pkg/drivers/dualmotors.go and
-- pkg/drivers/led.go: from sensor readings and remote-control events to
-- drive commands and from these to the motors. The motors and the LED are gobot's, so what a driver
-- calls on them is the result. A uint32 speed and a uint64 version wrap around.
pub mod Speed
pub mod Motors
pub mod Lost
use embd_project.Prelude.{
  ℕ, String, ◌+◌, ◌-◌, ◌%◌, ◌^◌, Bool, true, false, List, [], ◌∷◌, ◌++◌, Option, none, some, ◌==◌,
  str_eq, ltb, leb, length, if◌then◌else◌,
}
use embd_project.Message.{
  MessageId, Message, Payload, sensor_ultra_sonic, cmd_drive, lirc_event, unit_test_data,
  ultra_sonic_data, drive_data, led_data, lirc_data, heartbeat_data, nil_data,
}

abbrev pub u32 : ℕ → ℕ
u32 n = n % 2 ^ 32

abbrev pub u64 : ℕ → ℕ
u64 n = n % 2 ^ 64

abbrev pub max_speed_value : ℕ
max_speed_value = 210

abbrev pub stop_speed_value : ℕ
stop_speed_value = 75

-- The controller: its readings since the last tick, whether it was shut down, and the variables that
-- the goroutine of the ultrasonic processor keeps.
pub record AutonomousDrive : Type 0 where
  pub readings : List ℕ
  pub is_shut_down : Bool
  pub speed : ℕ
  pub version : ℕ

unfoldable pub new_autonomous_drive : AutonomousDrive
new_autonomous_drive = record {
  readings = [];
  is_shut_down = false;
  speed = stop_speed_value;
  version = 0;
}

-- What `messageHandler` does: it keeps a reading, hands an event to the remote-control processor,
-- warns of another type, or panics on data that is not of the message's type.
pub data Handled : Type 0 where
  kept : AutonomousDrive → Handled
  handed_over : Payload → Handled
  warned panics : Handled

keep_reading : Payload → AutonomousDrive → Handled
keep_reading (ultra_sonic_data n) d = kept (record d { readings = d.readings ++ n ∷ [] })
keep_reading _ d = panics

hand_over : Payload → Handled
hand_over (lirc_data c r b m) = handed_over (lirc_data c r b m)
hand_over _ = panics

unfoldable pub message_handler : Message → AutonomousDrive → Handled
unfolding keep_reading hand_over
message_handler msg d =
    if msg.id.typ == sensor_ultra_sonic
    then keep_reading msg.payload d
    else if msg.id.typ == lirc_event
    then hand_over msg.payload
    else warned

-- The identity of a drive command, which has no qualifier.
abbrev pub drive_id : String → ℕ → MessageId
drive_id action version = record {
  typ = cmd_drive;
  sub_type = action;
  version = version;
  qualifier = "";
}

-- The speed of the next command. A uint32 does not fall below 0 here: the test comes first.
unfoldable pub next_speed : ℕ → ℕ → ℕ
next_speed readings speed =
    if leb readings 1
    then stop_speed_value
    else if ltb 5 readings
    then if ltb speed max_speed_value then u32 (speed + 15) else speed
    else if ltb stop_speed_value speed
    then u32 (speed + 2 ^ 32 - 15)
    else speed

-- One tick of `ultrasonicProcessor`, and the message that it adds to the send queue.
unfoldable pub tick : AutonomousDrive → AutonomousDrive × Option Message
unfolding next_speed
tick d =
    let speed = next_speed (length d.readings) d.speed in
    if d.is_shut_down then (d, none) else (
      record d { readings = []; speed = speed; version = u64 (d.version + 1) },
      some (record { id = drive_id "forward" d.version; payload = drive_data speed }),
    )

-- The switch of `lircProcessor`.
unfoldable pub action_of : String → String
action_of button =
    if str_eq button "BTN_START"
    then "stop"
    else if str_eq button "BTN_LEFT"
    then "left"
    else if str_eq button "BTN_RIGHT"
    then "right"
    else if str_eq button "BTN_TOP"
    then "forward"
    else if str_eq button "BTN_BACK"
    then "backward"
    else "stop"

-- One event of `lircProcessor`: the message that it adds to the send queue, and its next version.
unfoldable pub process_event : String → ℕ → Message × ℕ
unfolding action_of
process_event button version = (
  record { id = drive_id (action_of button) version; payload = drive_data max_speed_value },
  u64 (version + 1),
)

-- What is called on a motor, with the byte that it gets.
pub data Motion : Type 0 where
  forward backward : ℕ → Motion

pub data Driven : Type 0 where
  motors : Motion → Motion → Driven  -- the right motor, the left motor
  unknown_command panics : Driven

abbrev pub byte : ℕ → ℕ
byte n = n % 256

-- `byte(speed - 50)`, of a uint32 that wraps.
abbrev pub slower : ℕ → ℕ
slower speed = byte (u32 (speed + 2 ^ 32 - 50))

abbrev pub faster : ℕ → ℕ
faster speed = byte (u32 (speed + 50))

-- `msg.Data.(*seguepb.CmdDriveData).Speed`
abbrev pub with_speed : Payload → (ℕ → Driven) → Driven
with_speed (drive_data speed) f = f speed
with_speed _ f = panics

-- `ProcessDriveCmd`
unfoldable pub process_drive_cmd : Message → Driven
process_drive_cmd msg =
    let cmd = msg.id.sub_type in
    let p = msg.payload in
    if str_eq cmd "forward"
    then with_speed p (λ s. motors (forward (byte s)) (forward (byte s)))
    else if str_eq cmd "backward"
    then with_speed p (λ s. motors (backward (byte s)) (backward (byte s)))
    else if str_eq cmd "stop"
    then motors (forward 0) (forward 0)
    else if str_eq cmd "left"
    then with_speed p (λ s. motors (forward (byte s)) (backward (byte s)))
    else if str_eq cmd "right"
    then with_speed p (λ s. motors (backward (byte s)) (forward (byte s)))
    else if str_eq cmd "forward-right"
    then with_speed p (λ s. motors (forward (slower s)) (forward (faster s)))
    else if str_eq cmd "forward-left"
    then with_speed p (λ s. motors (forward (faster s)) (forward (slower s)))
    else unknown_command

-- What the work of the motors' driver does with a message, before `Done`.
pub data Worked : Type 0 where
  not_for_us unknown_type : Worked
  drives : Driven → Worked

unfoldable pub dual_motors_work : String → Message → Worked
unfolding process_drive_cmd
dual_motors_work qualifier msg =
    if str_eq msg.id.qualifier qualifier
    then if msg.id.typ == cmd_drive then drives (process_drive_cmd msg) else unknown_type
    else not_for_us

-- What the work of the LED's driver does with a message, before `Done`.
pub data Switched : Type 0 where
  on off passed_over panics : Switched

abbrev switch : Payload → Switched
switch (led_data is_on n) = if is_on then on else off
switch _ = panics

unfoldable pub led_work : String → Message → Switched
led_work qualifier msg =
    if str_eq msg.id.qualifier qualifier then switch msg.payload else passed_over
