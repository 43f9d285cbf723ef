-- ===== src/Tests/Radios.antt =====
-- The theorems on the radio and on the queues over gRPC, applied to a small wire format.
use embd_project.Prelude.{
  ℕ, zero, suc, ◌<◌, ◌≡◌, refl, true, false, Bool, List, [], ◌∷◌, length, Option, none, some, ◌==◌,
  str_eq, eq_iff, ◌&&◌, ◌++◌, ◌≤◌, flatten, arith, Option-cases, inl, inr, if◌then◌else◌,
}
use mathlib.Core.List.{Perm}
use embd_project.Errors.{Error, external}
use embd_project.Message.{
  MessageId, Message, Payload, unit_test_data, ultra_sonic_data, drive_data, led_data, lirc_data,
  heartbeat_data, nil_data, cmd_led_switch,
}
use embd_project.Convert.{
  Codec, Kind, Bytes, PbMessage, Result, ok, err, convert_to_external_format, unit_test_kind,
  led_kind, heartbeat_kind,
}
use embd_project.Convert.RoundTrip.{ReadsBack}
use embd_project.Radio.{
  Wire, Network, Hook, new_hook, receive, rf24_network_send, extract, rf24_network_receive,
}
use embd_project.Radio.Framing.{Frames, IsFrame}
use embd_project.Radio.Frames.{receives, receives-Frames, receive-Frames, Drains}
use embd_project.Radio.Exchange.{Lossless, Survives, AllRead}
use embd_project.Radio.Workers.{Pool, Turn, takes, puts, start_pool, turns}
use embd_project.Radio.Scheduled.{turns-receives, turns-in_order}

-- Protobuf for what an LED gets and for heartbeats of "child", and for identities of subtype "na".
abbrev encode : Payload → Result Bytes
encode (led_data is_on n) = ok ((if is_on then 1 else 0) ∷ n ∷ [])
encode (heartbeat_data s a i l) =
    if str_eq s "child" then ok (a ∷ i ∷ l) else err (external "proto")
encode _ = err (external "proto")

abbrev decode : Kind → Bytes → Result Payload
decode led_kind (a ∷ n ∷ []) = ok (led_data (a == 1) n)
decode heartbeat_kind (a ∷ i ∷ l) = ok (heartbeat_data "child" a i l)
decode unit_test_kind [] = ok (unit_test_data "")
decode _ _ = err (external "proto")

abbrev pub small_codec : Codec
small_codec = record { marshal = encode; unmarshal = decode }

pub small_codec-ReadsBack : ReadsBack small_codec
small_codec-ReadsBack (led_data true n) b h = ground arith
small_codec-ReadsBack (led_data false n) b h = ground arith
small_codec-ReadsBack (heartbeat_data s a i l) b h = ground (arith, eq_iff s "child")
small_codec-ReadsBack (unit_test_data s) b h = cc
small_codec-ReadsBack (ultra_sonic_data n) b h = cc
small_codec-ReadsBack (drive_data n) b h = cc
small_codec-ReadsBack (lirc_data c r u m) b h = cc
small_codec-ReadsBack nil_data b h = cc

abbrev encode_message : PbMessage → Result Bytes
encode_message x = elim x.id [
  | none ↦ err (external "proto")
  | some id ↦
      if str_eq id.sub_type "na" && str_eq id.qualifier ""
      then ok (id.typ ∷ id.version ∷ x.payload)
      else err (external "proto")
]

abbrev na : ℕ → ℕ → MessageId
na t v = record { typ = t; sub_type = "na"; version = v; qualifier = "" }

abbrev decode_message : Bytes → PbMessage × Option Error
decode_message (t ∷ v ∷ b) = (record { id = some (na t v); payload = b }, none)
decode_message _ = (record { id = none; payload = [] }, some (external "proto"))

-- Bytes one up, and a zero at the end.
abbrev stuff : Bytes → Bytes
stuff [] = 0 ∷ []
stuff (b ∷ bs) = suc b ∷ stuff bs

abbrev unstuff : Bytes → Bytes
unstuff [] = []
unstuff (zero ∷ bs) = []
unstuff (suc b ∷ bs) = b ∷ unstuff bs

abbrev pub small_wire : Wire
small_wire = record {
  codec = small_codec;
  proto_marshal = encode_message;
  proto_unmarshal = decode_message;
  cobs_encode = stuff;
  cobs_decode = unstuff;
}

pub unstuff-stuff : (b : Bytes) → unstuff (stuff b) ≡ b
unstuff-stuff [] = refl
unstuff-stuff (x ∷ b) = cc (unstuff-stuff b)

stuff-IsFrame : (b : Bytes) → IsFrame (stuff b)
stuff-IsFrame [] = refl
stuff-IsFrame (x ∷ []) = ground arith
stuff-IsFrame (x ∷ y ∷ b) = ground (arith, stuff-IsFrame (y ∷ b))

encode_message-back :
    (x : PbMessage) (b : Bytes) → encode_message x ≡ ok b → (decode_message b).0 ≡ x
encode_message-back x b h = elim (Option-cases x.id) [
  | inl e ↦ absurd (ground arith)
  | inr (id, e) ↦ ground (arith, eq_iff id.sub_type "na", eq_iff id.qualifier "")
]

pub small_wire-Lossless : Lossless small_wire
small_wire-Lossless = record {
  data_back = small_codec-ReadsBack;
  message_back = encode_message-back;
  cobs_frame = stuff-IsFrame;
}

abbrev pub switched_on : Message
switched_on = record { id = na cmd_led_switch 1; payload = led_data true 50 }

abbrev pub switched_off : Message
switched_off = record { id = na cmd_led_switch 2; payload = led_data false 0 }

-- The two messages on the wire, cut in the middle of the first and not between them.
abbrev reads : List Bytes
reads = (4 ∷ 2 ∷ []) ∷ (2 ∷ 51 ∷ 0 ∷ 4 ∷ 3 ∷ []) ∷ (1 ∷ 1 ∷ 0 ∷ []) ∷ []

abbrev outs : List Bytes
outs = (4 ∷ 2 ∷ 2 ∷ 51 ∷ 0 ∷ []) ∷ (4 ∷ 3 ∷ 1 ∷ 1 ∷ 0 ∷ []) ∷ []

receives-reads : (receives reads new_hook).frames ≡ outs
unfolding receives new_hook rf24_network_receive extract
receives-reads = refl

switched_on-Survives : Survives small_wire switched_on
unfolding convert_to_external_format
switched_on-Survives x b e p = (ground arith, unstuff-stuff b)

switched_off-Survives : Survives small_wire switched_off
unfolding convert_to_external_format
switched_off-Survives x b e p = (ground arith, unstuff-stuff b)

-- Two goroutines that take both messages, of which the second goes first.
abbrev overtaking : List Turn
overtaking = takes ∷ takes ∷ puts 1 ∷ puts 0 ∷ []

turns-receives_example :
    (p : Pool) × (rest : List Message) × (turns small_wire 2 overtaking
        (start_pool (receives reads new_hook).frames)
      ≡ some p)
    × AllRead small_wire p.frames rest
    × Perm (p.sent ++ (p.held ++ rest)) (switched_on ∷ switched_off ∷ [])
    × ((receives reads new_hook).buf ≡ [])
unfolding rf24_network_send convert_to_external_format
turns-receives_example =
    turns-receives small_wire (λ a b. true) 0 (switched_on ∷ switched_off ∷ []) outs reads 2
      overtaking small_wire-Lossless (switched_on-Survives, (switched_off-Survives, tt))
      (refl, (refl, refl)) refl

turns-in_order_example :
    (p : Pool) × (rest : List Message) × (turns small_wire 1 overtaking
        (start_pool (receives reads new_hook).frames)
      ≡ some p)
    × AllRead small_wire p.frames rest
    × (p.sent ++ (p.held ++ rest) ≡ switched_on ∷ switched_off ∷ [])
    × (length p.held ≤ 1)
unfolding rf24_network_send convert_to_external_format
turns-in_order_example =
    turns-in_order small_wire (λ a b. true) 0 (switched_on ∷ switched_off ∷ []) outs reads
      overtaking small_wire-Lossless (switched_on-Survives, (switched_off-Survives, tt))
      (refl, (refl, refl)) refl

receives-Frames_example :
    Frames
      (receives reads new_hook).frames
      (receives reads new_hook).buf
      (4 ∷ 2 ∷ 2 ∷ 51 ∷ 0 ∷ 4 ∷ 3 ∷ 1 ∷ 1 ∷ 0 ∷ [])
receives-Frames_example = receives-Frames reads

-- A radio that holds bytes, and gives at most three of them at once.
abbrev take_three : Bytes → Bytes × Bytes
take_three (a ∷ b ∷ c ∷ s) = (a ∷ b ∷ c ∷ [], s)
take_three s = (s, [])

abbrev some_bytes : Bytes → Bool
some_bytes [] = false
some_bytes (b ∷ bs) = true

abbrev byte_network : Network Bytes
byte_network = record { update = λ s. s; available = some_bytes; read = take_three }

three_in_order : (s : Bytes) → some_bytes s ≡ true → (take_three s).0 ++ (take_three s).1 ≡ s
three_in_order [] h = cc
three_in_order (a ∷ []) h = refl
three_in_order (a ∷ b ∷ []) h = refl
three_in_order (a ∷ b ∷ c ∷ s) h = refl

three_shrinks : (s : Bytes) → some_bytes s ≡ true → length (take_three s).1 < length s
three_shrinks [] h = cc
three_shrinks (a ∷ []) h = omega arith
three_shrinks (a ∷ b ∷ []) h = omega arith
three_shrinks (a ∷ b ∷ c ∷ s) h = omega arith

no_bytes : (s : Bytes) → some_bytes s ≡ false → s ≡ []
no_bytes [] h = refl
no_bytes (a ∷ s) h = cc

byte_network-Drains : Drains byte_network (λ s. s)
byte_network-Drains = record {
  in_order = three_in_order;
  shrinks = three_shrinks;
  empty = no_bytes;
}

receive-Frames_example :
    (t : Bytes) × (h : Hook) × (receive byte_network 14 (flatten reads) new_hook ≡ some (t, h))
    × (t ≡ [])
    × Frames h.frames h.buf (flatten reads)
unfolding new_hook receives
receive-Frames_example =
    receive-Frames byte_network (λ s. s) 14 (flatten reads) new_hook [] byte_network-Drains
      (omega arith) (receives-Frames [])
