-- ===== src/Convert/Panics.antt =====
-- The messages from outside that make the converter panic.
use embd_project.Prelude.{
  ◌≡◌, ◌≢◌, ◌↔◌, Bool, true, false, none, some, arith, inl, inr, Option-cases,
}
use embd_project.Message.{MessageId}
use embd_project.Convert.{
  Bytes, PbMessage, Codec, ok, panic, Kind, unit_test_kind, ultra_sonic_kind, drive_kind, led_kind,
  lirc_kind, heartbeat_kind, internal_as, convert_to_internal_format,
}
use embd_project.Convert.RoundTrip.{Result-cases}

-- A message with no identity whose data can be read as that of a unit test.
abbrev pub is_nameless : Codec → PbMessage → Bool
is_nameless c m = elim m.id [
  | some id ↦ false
  | none ↦ elim (c.unmarshal unit_test_kind m.payload) [ ok p ↦ true | _ ↦ false ]
]

-- Protobuf answers with an error or a value.
abbrev pub Calm : Codec → Type 0
Calm c = (k : Kind) (b : Bytes) → c.unmarshal k b ≢ panic

named :
    (c : Codec) (m : PbMessage) (k : Kind) (id : MessageId)
    → Calm c
    → m.id ≡ some id
    → internal_as c k m ≢ panic
unfolding internal_as
named c m k id calm e = elim (Result-cases (c.unmarshal k m.payload)) [
  | inl (p, ep) ↦ ground arith
  | inr (inl (x, ex)) ↦ ground arith
  | inr (inr r) ↦ absurd (calm k m.payload r)
]

nameless :
    (c : Codec) (m : PbMessage)
    → Calm c
    → m.id ≡ none
    → (internal_as c unit_test_kind m ≡ panic) ↔ (is_nameless c m ≡ true)
unfolding internal_as
nameless c m calm e = elim (Result-cases (c.unmarshal unit_test_kind m.payload)) [
  | inl (p, ep) ↦ ground arith
  | inr (inl (x, ex)) ↦ ground arith
  | inr (inr r) ↦ absurd (calm unit_test_kind m.payload r)
]

-- `ConvertToInternalFormat` panics on the nameless messages and on no others.
pub convert_to_internal_format-panic_iff :
    (c : Codec) (m : PbMessage)
    → Calm c
    → (convert_to_internal_format c m ≡ panic) ↔ (is_nameless c m ≡ true)
unfolding convert_to_internal_format
convert_to_internal_format-panic_iff c m calm = elim (Option-cases m.id) [
  | inl e ↦ ground (arith, nameless c m calm e)
  | inr (id, e) ↦ ground (
    arith,
    named c m unit_test_kind id calm e,
    named c m ultra_sonic_kind id calm e,
    named c m drive_kind id calm e,
    named c m led_kind id calm e,
    named c m lirc_kind id calm e,
    named c m heartbeat_kind id calm e,
  )
]
