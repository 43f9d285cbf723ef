-- ===== src/Radio.antt =====
-- plugins/rf24networknode/rf24networknodebackend/rfhook.go: messages over the radio, as frames that
-- end in a zero byte.
-- The channels are lists, so that a step which waits for room in one is a later step. The radio
-- library, protobuf and COBS are parameters.
pub mod Framing
pub mod Frames
pub mod Exchange
pub mod Children
pub mod Workers
pub mod Scheduled
use embd_project.Prelude.{
  ℕ, zero, suc, ◌+◌, ◌-◌, ◌%◌, ◌^◌, Bool, true, false, List, [], ◌∷◌, ◌++◌, length, take, drop,
  get_elem?, Option, none, some, ◌==◌, leb, if◌then◌else◌,
}
use embd_project.Errors.{Error, external_format_failed, marshal_failed, write_failed}
use embd_project.Message.{Message, zero_message}
use embd_project.Convert.{
  Bytes, PbMessage, Codec, Result, ok, err, panic, convert_to_internal_format,
  convert_to_external_format,
}

-- The buffer of an `RF24NetworkHook` and what it put on its channel of frames.
pub record Hook : Type 0 where
  pub buf : Bytes
  pub frames : List Bytes

unfoldable pub new_hook : Hook
new_hook = record { buf = []; frames = [] }

-- `buf[lo:hi]`
abbrev pub slice : Bytes → ℕ → ℕ → Bytes
slice buf lo hi = take (hi - lo) (drop lo buf)

-- `buf[i] == 0x00`
abbrev pub ends_at : Bytes → ℕ → Bool
ends_at buf i = elim (get_elem? buf i) [ some b ↦ b == 0 | none ↦ false ]

-- The loop over the new data, with the rounds that are left: `i` counts up, `start` is
-- `curFrameStart`. It returns the frames and the last `curFrameStart`.
unfoldable pub extract : Bytes → ℕ → ℕ → ℕ → List Bytes × ℕ
extract buf zero i start = ([], start)
extract buf (suc rounds) i start =
    let (later, last) = extract buf rounds (i + 1) (i + 1) in
    let (others, last') = extract buf rounds (i + 1) start in
    if ends_at buf i then (slice buf start (i + 1) ∷ later, last) else (others, last')

-- `rf24NetworkReceive`, on the bytes that `network.Read` put into the temporary buffer.
unfoldable pub rf24_network_receive : Bytes → Hook → Hook
rf24_network_receive read h =
    if length read == 0
    then h
    else let buf = h.buf ++ read in
      let (found, start) = extract buf (length read) (length h.buf) 0 in
      record {
        buf = if leb (length buf) start then [] else drop start buf;
        frames = h.frames ++ found;
      }

-- The radio library: its state after `Update`, whether data is there, and a `Read`.
pub record Network (S : Type 0) : Type 0 where
  pub update : S → S
  pub available : S → Bool
  pub read : S → Bytes × S

-- The loop of `Receive` on fuel; `none` when the fuel is spent.
unfoldable pub receive_loop : {S : Type 0} → Network S → ℕ → S → Hook → Option (S × Hook)
receive_loop n zero s h = none
receive_loop n (suc fuel) s h =
    let (bytes, s') = n.read s in
    let rest = receive_loop n fuel s' (rf24_network_receive bytes h) in
    if n.available s then rest else some (s, h)

-- `Receive`
unfoldable pub receive : {S : Type 0} → Network S → ℕ → S → Hook → Option (S × Hook)
receive n fuel s h = receive_loop n fuel (n.update s) h

-- Protobuf on a whole message and on its data, and COBS. `Unmarshal` leaves what it read so far.
pub record Wire : Type 0 where
  pub codec : Codec
  pub proto_marshal : PbMessage → Result Bytes
  pub proto_unmarshal : Bytes → PbMessage × Option Error
  pub cobs_encode : Bytes → Bytes
  pub cobs_decode : Bytes → Bytes

-- The rest of `rf24NetworkSend`, on the encoded payload; `&payload[0]` panics on an empty one.
-- `uint16(len(payload))` bytes are written. The result is what went out.
unfoldable pub write_payload : (ℕ → Bytes → Bool) → ℕ → Bytes → Result Bytes
write_payload write address [] = panic
write_payload write address (b ∷ bs) =
    let out = take (length (b ∷ bs) % 2 ^ 16) (b ∷ bs) in
    if write address out then ok out else err write_failed

-- `rf24NetworkSend`. The first parameter is `network.Write`, which may fail.
unfoldable pub rf24_network_send : Wire → (ℕ → Bytes → Bool) → Message → ℕ → Result Bytes
unfolding write_payload
rf24_network_send w write msg address = elim (convert_to_external_format w.codec msg) [
  | panic ↦ panic
  | err e ↦ err (external_format_failed e)
  | ok x ↦ elim (w.proto_marshal x) [
    | panic ↦ panic
    | err e ↦ err (marshal_failed e)
    | ok raw ↦ write_payload write address (w.cobs_encode raw)
  ]
]

-- One round of `processFrames`: the message that goes to `messageChan`, or `none` for a panic.
-- Both errors are only logged.
unfoldable pub process_frame : Wire → Bytes → Option Message
process_frame w frame =
    let raw = w.cobs_decode frame in
    elim (convert_to_internal_format w.codec (w.proto_unmarshal raw).0) [
      | ok m ↦ some m
      | err e ↦ some zero_message
      | panic ↦ none
    ]
