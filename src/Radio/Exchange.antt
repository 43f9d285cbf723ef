-- ===== src/Radio/Exchange.antt =====
-- Messages over the radio, from the sender's queue to the receiver's.
use mathlib.Core.List.{append-nil}
use embd_project.Prelude.{
  ℕ, ◌<◌, ◌%◌, ◌^◌, ◌≡◌, refl, sym, ◌∙◌, Bool, List, [], ◌∷◌, length, take-length, some, All, arith,
  flatten, inl, inr,
}
use embd_project.Message.{Message}
use embd_project.Convert.{Bytes, PbMessage, ok, convert_to_external_format}
use embd_project.Convert.RoundTrip.{ReadsBack, internal-external, Result-cases}
use embd_project.Radio.{Wire, new_hook, rf24_network_send, write_payload, process_frame}
use embd_project.Radio.Framing.{IsFrame, Frames-unique}
use embd_project.Radio.Frames.{receives, receives-Frames}

-- What protobuf and COBS document: a message that was written is read back, and an encoded payload has
-- one zero byte, which ends it.
pub record Lossless (w : Wire) : Type 0 where
  pub data_back : ReadsBack w.codec
  pub message_back :
      (x : PbMessage) (b : Bytes) → w.proto_marshal x ≡ ok b → (w.proto_unmarshal b).0 ≡ x
  pub cobs_frame : (b : Bytes) → IsFrame (w.cobs_encode b)

-- The message survives its encoding: COBS gives its bytes back, and they are few enough for their
-- number to be a uint16. (The COBS that the repository uses loses a zero which follows a multiple of
-- 254 other bytes.)
abbrev pub Survives : Wire → Message → Type 0
Survives w m =
    (x : PbMessage) (b : Bytes)
    → convert_to_external_format w.codec m ≡ ok x
    → w.proto_marshal x ≡ ok b
    → (length (w.cobs_encode b) < 2 ^ 16) × (w.cobs_decode (w.cobs_encode b) ≡ b)

-- The messages are sent to an address, each with success, and these bytes go out for each.
abbrev pub AllSent : Wire → (ℕ → Bytes → Bool) → ℕ → List Message → List Bytes → Type 0
AllSent w write address [] outs = outs ≡ []
AllSent w write address (m ∷ ms) [] = ⊥
AllSent w write address (m ∷ ms) (out ∷ outs) =
    (rf24_network_send w write m address ≡ ok out) × AllSent w write address ms outs

write_payload-ok :
    (write : ℕ → Bytes → Bool) (address : ℕ) (payload out : Bytes)
    → length payload < 2 ^ 16
    → write_payload write address payload ≡ ok out
    → out ≡ payload
unfolding write_payload
write_payload-ok write address [] out h e = cc
write_payload-ok write address (b ∷ bs) out h e =
    ground (arith, take-length (length (b ∷ bs) % 2 ^ 16) (b ∷ bs))

-- What goes out for a message that is sent.
sent_bytes :
    (w : Wire) (write : ℕ → Bytes → Bool) (m : Message) (address : ℕ) (out : Bytes)
    → Survives w m
    → rf24_network_send w write m address ≡ ok out
    → (x : PbMessage) × (b : Bytes) × (convert_to_external_format w.codec m ≡ ok x)
      × (w.proto_marshal x ≡ ok b)
      × (w.cobs_decode (w.cobs_encode b) ≡ b)
      × (out ≡ w.cobs_encode b)
unfolding rf24_network_send
sent_bytes w write m address out fits e =
    elim (Result-cases (convert_to_external_format w.codec m)) [
      | inl (x, ex) ↦ elim (Result-cases (w.proto_marshal x)) [
        | inl (b, eb) ↦ (
          x,
          b,
          ex,
          eb,
          (fits x b ex eb).1,
          write_payload-ok write address (w.cobs_encode b) out (fits x b ex eb).0
              (rw (rf24_network_send, ex, eb) at e),
        )
        | inr r ↦ ground arith
      ]
      | inr r ↦ ground arith
    ]

-- A frame that was sent is processed to its message.
process_frame-sent :
    (w : Wire) (write : ℕ → Bytes → Bool) (m : Message) (address : ℕ) (out : Bytes)
    → Lossless w
    → Survives w m
    → rf24_network_send w write m address ≡ ok out
    → (process_frame w out ≡ some m) × IsFrame out
unfolding process_frame
process_frame-sent w write m address out law fits e =
    let (x, b, ex, eb, back, eo) = sent_bytes w write m address out fits e in
    (
      rw
          (
            eo,
            process_frame,
            back,
            law.message_back x b eb,
            internal-external w.codec m x law.data_back ex,
          )
          refl,
      rw eo (law.cobs_frame b),
    )

-- The frames hold these messages, each one.
abbrev pub AllRead : Wire → List Bytes → List Message → Type 0
AllRead w [] ms = ms ≡ []
AllRead w (f ∷ fs) [] = ⊥
AllRead w (f ∷ fs) (m ∷ ms) = (process_frame w f ≡ some m) × AllRead w fs ms

sent-AllRead :
    (w : Wire) (write : ℕ → Bytes → Bool) (address : ℕ) (ms : List Message) (outs : List Bytes)
    → Lossless w
    → All (Survives w) ms
    → AllSent w write address ms outs
    → AllRead w outs ms × All IsFrame outs
sent-AllRead w write address [] [] law fits e = (refl, tt)
sent-AllRead w write address [] (o ∷ os) law fits e = cc
sent-AllRead w write address (m ∷ ms) [] law fits e = absurd e
sent-AllRead w write address (m ∷ ms) (out ∷ outs) law fits e =
    let (p, f) = process_frame-sent w write m address out law fits.0 e.0 in
    let (ps, fs) = sent-AllRead w write address ms outs law fits.1 e.1 in ((p, ps), (f, fs))

-- What went out comes in as the same frames, however the radio cuts the stream up.
pub receives-sent :
    (w : Wire) (write : ℕ → Bytes → Bool) (address : ℕ) (ms : List Message)
    (outs reads : List Bytes)
    → Lossless w
    → All (Survives w) ms
    → AllSent w write address ms outs
    → flatten reads ≡ flatten outs
    → ((receives reads new_hook).frames ≡ outs)
      × AllRead w outs ms
      × ((receives reads new_hook).buf ≡ [])
receives-sent w write address ms outs reads law fits e cut =
    let (done, framed) = sent-AllRead w write address ms outs law fits e in
    let h = receives reads new_hook in
    let (fs, left) =
      Frames-unique h.frames outs h.buf [] (flatten reads) (receives-Frames reads) (record {
        whole = append-nil (flatten outs) ∙ sym cut;
        framed = framed;
        open_end = refl;
      }) in
    (fs, done, left)
