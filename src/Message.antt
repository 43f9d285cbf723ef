-- ===== src/Message.antt =====
-- common/seguepb/segue.pb.go and common/message/message.go: message types, identities, messages.
-- An int32 enum value is its number (bit pattern for the negative ones, which have no name).
use embd_project.Prelude.{
  ℕ, String, ◌≡◌, ◌↔◌, Bool, true, ◌&&◌, List, Option, none, some, arith, ◌==◌, str_eq, eq_iff,
  if◌then◌else◌,
}

abbrev pub MessageType : Type 0
MessageType = ℕ

abbrev pub unit_test : MessageType
unit_test = 0

abbrev pub sensor_ultra_sonic : MessageType
sensor_ultra_sonic = 1

abbrev pub cmd_drive : MessageType
cmd_drive = 2

abbrev pub cmd_led_switch : MessageType
cmd_led_switch = 3

abbrev pub lirc_event : MessageType
lirc_event = 4

abbrev pub rf24_heartbeat : MessageType
rf24_heartbeat = 100

-- `MessageType_value`, the map from names to enum values.
unfoldable pub message_type_value : String → Option MessageType
message_type_value s =
    if str_eq s "UnitTest"
    then some unit_test
    else if str_eq s "SensorUltraSonic"
    then some sensor_ultra_sonic
    else if str_eq s "CmdDrive"
    then some cmd_drive
    else if str_eq s "CmdLEDSwitch"
    then some cmd_led_switch
    else if str_eq s "LIRCEvent"
    then some lirc_event
    else if str_eq s "RF24NetworkNodeHeartbeat"
    then some rf24_heartbeat
    else none

pub record MessageId : Type 0 where
  pub typ : MessageType
  pub sub_type : String
  pub version : ℕ  -- uint64
  pub qualifier : String

-- What `Data interface{}` holds. An int64 is its two's complement bit pattern.
pub data Payload : Type 0 where
  unit_test_data : String → Payload
  ultra_sonic_data : ℕ → Payload
  drive_data : ℕ → Payload
  led_data : Bool → ℕ → Payload
  lirc_data : ℕ → ℕ → String → String → Payload
  heartbeat_data : String → ℕ → ℕ → List MessageType → Payload
  nil_data : Payload

pub record Message : Type 0 where
  pub id : MessageId
  pub payload : Payload

-- `message.Message{}`
abbrev pub zero_message : Message
zero_message = record {
  id = record { typ = unit_test; sub_type = ""; version = 0; qualifier = "" };
  payload = nil_data;
}

-- Go's `==` on message identities, by which the queues' sets are keyed.
unfoldable pub id_eq : MessageId → MessageId → Bool
id_eq a b =
    a.typ == b.typ
    && str_eq a.sub_type b.sub_type
    && a.version == b.version
    && str_eq a.qualifier b.qualifier

pub id_eq_iff : (a b : MessageId) → (id_eq a b ≡ true) ↔ (a ≡ b)
unfolding id_eq
id_eq_iff a b = ground (arith, eq_iff a.sub_type b.sub_type, eq_iff a.qualifier b.qualifier)
