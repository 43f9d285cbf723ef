-- ===== src/Convert.antt =====
-- common/message/message.go: between the messages inside a daemon and the protobuf messages outside.
-- protobuf itself is a parameter, `Codec`. A failed type assertion is a panic.
pub mod RoundTrip
pub mod Panics
use embd_project.Prelude.{
  ℕ, String, Bool, true, false, List, Option, none, some, ◌≡◌, ◌==◌, if◌then◌else◌,
}
use embd_project.Errors.{Error, converter_unknown_type}
use embd_project.Message.{
  MessageType, unit_test, sensor_ultra_sonic, cmd_drive, cmd_led_switch, lirc_event, rf24_heartbeat,
  MessageId, Payload, unit_test_data, ultra_sonic_data, drive_data, led_data, lirc_data,
  heartbeat_data, nil_data, Message,
}

abbrev pub Bytes : Type 0
Bytes = List ℕ

-- `seguepb.Message`: the identity behind a pointer, and the encoded payload.
pub record PbMessage : Type 0 where
  pub id : Option MessageId
  pub payload : Bytes

pub data Result (A : Type 0) : Type 0 where
  ok : A → Result A
  err : Error → Result A
  panic : Result A

-- The Go types that `Data` may hold.
pub data Kind : Type 0 where
  unit_test_kind ultra_sonic_kind drive_kind led_kind lirc_kind heartbeat_kind nil_kind : Kind

abbrev pub kind_of : Payload → Kind
kind_of (unit_test_data s) = unit_test_kind
kind_of (ultra_sonic_data n) = ultra_sonic_kind
kind_of (drive_data n) = drive_kind
kind_of (led_data b n) = led_kind
kind_of (lirc_data c r b m) = lirc_kind
kind_of (heartbeat_data s a i l) = heartbeat_kind
kind_of nil_data = nil_kind

-- `proto.Marshal` of a payload, and `proto.Unmarshal` into an empty value of a type.
pub record Codec : Type 0 where
  pub marshal : Payload → Result Bytes
  pub unmarshal : Kind → Bytes → Result Payload

abbrev pub then_do : {A B : Type 0} → Result A → (A → Result B) → Result B
then_do (ok a) f = f a
then_do (err e) f = err e
then_do panic f = panic

-- `*m.ID`, which panics on a nil pointer.
abbrev deref : Option MessageId → (MessageId → Result Message) → Result Message
deref none f = panic
deref (some id) f = f id

-- `m.GetID().GetType()`, which is 0, `UnitTest`, on a nil pointer.
abbrev get_type : Option MessageId → MessageType
get_type none = unit_test
get_type (some id) = id.typ

-- One case of the switch of `ConvertToInternalFormat`.
internal_as : Codec → Kind → PbMessage → Result Message
internal_as c k m =
    then_do (c.unmarshal k m.payload) λ p. deref m.id λ id. ok (record { id = id; payload = p })

unfoldable pub convert_to_internal_format : Codec → PbMessage → Result Message
unfolding internal_as
convert_to_internal_format c m =
    let t = get_type m.id in
    if t == unit_test
    then internal_as c unit_test_kind m
    else if t == sensor_ultra_sonic
    then internal_as c ultra_sonic_kind m
    else if t == cmd_drive
    then internal_as c drive_kind m
    else if t == cmd_led_switch
    then internal_as c led_kind m
    else if t == lirc_event
    then internal_as c lirc_kind m
    else if t == rf24_heartbeat
    then internal_as c heartbeat_kind m
    else err (converter_unknown_type t)

-- The type assertion `iMsg.Data.(*T)`.
abbrev asserted : Kind → Kind → Bool
asserted unit_test_kind unit_test_kind = true
asserted ultra_sonic_kind ultra_sonic_kind = true
asserted drive_kind drive_kind = true
asserted led_kind led_kind = true
asserted lirc_kind lirc_kind = true
asserted heartbeat_kind heartbeat_kind = true
asserted _ _ = false

-- One case of the switch of `ConvertToExternalFormat`.
external_as : Codec → Kind → Message → Result PbMessage
external_as c k m =
    if asserted k (kind_of m.payload)
    then then_do (c.marshal m.payload) (λ b. ok (record { id = some m.id; payload = b }))
    else panic

unfoldable pub convert_to_external_format : Codec → Message → Result PbMessage
unfolding external_as
convert_to_external_format c m =
    let t = m.id.typ in
    if t == unit_test
    then external_as c unit_test_kind m
    else if t == sensor_ultra_sonic
    then external_as c ultra_sonic_kind m
    else if t == cmd_drive
    then external_as c drive_kind m
    else if t == cmd_led_switch
    then external_as c led_kind m
    else if t == lirc_event
    then external_as c lirc_kind m
    else if t == rf24_heartbeat
    then external_as c heartbeat_kind m
    else err (converter_unknown_type t)
