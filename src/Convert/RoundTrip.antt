-- ===== src/Convert/RoundTrip.antt =====
-- What the two converters keep.
use embd_project.Prelude.{
  ◌≡◌, ◌⊎◌, refl, true, Option, none, some, arith, ◌==◌, if◌then◌else◌, inl, inr,
}
use embd_project.Errors.{Error, converter_unknown_type}
use embd_project.Message.{
  MessageType, unit_test, sensor_ultra_sonic, cmd_drive, cmd_led_switch, lirc_event, rf24_heartbeat,
  Message, Payload,
}
use embd_project.Convert.{
  Bytes, PbMessage, Result, ok, err, panic, Kind, kind_of, Codec, convert_to_internal_format,
  convert_to_external_format, unit_test_kind, ultra_sonic_kind, drive_kind, led_kind, lirc_kind,
  heartbeat_kind, asserted,
}

-- The kind of payload that each message type stands for; `none` for a type with no converter.
abbrev pub kind_for : MessageType → Option Kind
kind_for t =
    if t == unit_test
    then some unit_test_kind
    else if t == sensor_ultra_sonic
    then some ultra_sonic_kind
    else if t == cmd_drive
    then some drive_kind
    else if t == cmd_led_switch
    then some led_kind
    else if t == lirc_event
    then some lirc_kind
    else if t == rf24_heartbeat
    then some heartbeat_kind
    else none

-- What protobuf documents: what `Marshal` wrote, `Unmarshal` reads back into a value of its type.
abbrev pub ReadsBack : Codec → Type 0
ReadsBack c = (p : Payload) (b : Bytes) → c.marshal p ≡ ok b → c.unmarshal (kind_of p) b ≡ ok p

pub Result-cases :
    {A : Type 0} (r : Result A)
    → ((a : A) × (r ≡ ok a)) ⊎ (((e : Error) × (r ≡ err e)) ⊎ (r ≡ panic))
Result-cases (ok a) = inl (a, refl)
Result-cases (err e) = inr (inl (e, refl))
Result-cases panic = inr (inr refl)

asserted-eq : (k l : Kind) → asserted k l ≡ true → k ≡ l
asserted-eq k l h = ground arith

-- A message that was converted to the external format converts back to itself.
pub internal-external :
    (c : Codec) (m : Message) (x : PbMessage)
    → ReadsBack c
    → convert_to_external_format c m ≡ ok x
    → convert_to_internal_format c x ≡ ok m
unfolding convert_to_external_format convert_to_internal_format
internal-external c m x law h = elim (Result-cases (c.marshal m.payload)) [
  | inl (b, e) ↦ ground (arith, law m.payload b)
  | inr r ↦ ground arith
]

-- `ConvertToExternalFormat` panics exactly when the type has a converter and the payload is not of
-- the kind that the type stands for; it refuses exactly the types with no converter, provided that
-- protobuf can marshal the payload.
pub external_outcomes :
    (c : Codec) (m : Message) (b : Bytes)
    → c.marshal m.payload ≡ ok b
    → convert_to_external_format c m ≡ elim (kind_for m.id.typ) [
      | none ↦ err (converter_unknown_type m.id.typ)
      | some k ↦
          if asserted k (kind_of m.payload)
          then ok (record { id = some m.id; payload = b })
          else panic
    ]
unfolding convert_to_external_format
external_outcomes c m b h = ground arith

-- A message from outside that carries no identity is read as a `UnitTest` message: if its data can
-- be unmarshalled as such, then the converter dereferences the missing identity and panics.
pub internal-no_id :
    (c : Codec) (b : Bytes) (p : Payload)
    → c.unmarshal unit_test_kind b ≡ ok p
    → convert_to_internal_format c (record { id = none; payload = b }) ≡ panic
unfolding convert_to_internal_format
internal-no_id c b p h = ground arith
