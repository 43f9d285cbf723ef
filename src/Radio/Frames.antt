-- ===== src/Radio/Frames.antt =====
-- What a hook has found after any reads, and that `Receive` ends.
use mathlib.Core.List.{append_assoc, append-nil}
use embd_project.Prelude.{
  ℕ, zero, suc, ◌<◌, ◌≡◌, refl, sym, ap, ◌∙◌, true, false, List, [], ◌∷◌, ◌++◌, length, drop, some,
  ◌==◌, leb, if◌then◌else◌, All-append, arith, flatten, flatten-append, drop-length, Bool-cases,
  inl, inr,
}
use embd_project.Convert.{Bytes}
use embd_project.Radio.{
  Hook, new_hook, extract, rf24_network_receive, Network, receive, receive_loop,
}
use embd_project.Radio.Framing.{Frames, IsFrame, extract-Frames, restream}

-- One call of `rf24NetworkReceive` for each read.
unfoldable pub receives : List Bytes → Hook → Hook
receives [] h = h
receives (r ∷ rs) h = receives rs (rf24_network_receive r h)

abbrev pub Found : Hook → Bytes → Type 0
Found h stream = Frames h.frames h.buf stream

new_hook-Found : Found new_hook []
unfolding new_hook
new_hook-Found = record { whole = refl; framed = tt; open_end = refl }

-- The frames of more data join those of a stream.
join-Frames :
    {fs gs : List Bytes} {left left' stream : Bytes} (read : Bytes)
    → Frames fs left stream
    → Frames gs left' (left ++ read)
    → Frames (fs ++ gs) left' (stream ++ read)
join-Frames {fs} {gs} {left} {left'} {stream} read a b = record {
  whole =
      ap (λ l. l ++ left') (flatten-append fs gs)
      ∙ append_assoc (flatten fs) (flatten gs) left'
      ∙ ap (λ l. flatten fs ++ l) b.whole
      ∙ sym (append_assoc (flatten fs) left read)
      ∙ ap (λ l. l ++ read) a.whole;
  framed = All-append IsFrame fs gs a.framed b.framed;
  open_end = b.open_end;
}

kept :
    (start : ℕ) (buf : Bytes)
    → (if leb (length buf) start then [] else drop start buf) ≡ drop start buf
kept start buf = elim (Bool-cases (leb (length buf) start)) [
  | inl t ↦ rw t (sym (drop-length start buf (ground arith)))
  | inr f ↦ rw f refl
]

some_data : (n : ℕ) → (suc n == 0) ≡ false
some_data n = ground arith

rf24_network_receive-Found :
    (read stream : Bytes) (h : Hook)
    → Found h stream
    → Found (rf24_network_receive read h) (stream ++ read)
unfolding rf24_network_receive
rf24_network_receive-Found [] stream h a = restream a (sym (append-nil stream))
rf24_network_receive-Found (r ∷ rs) stream h a =
    let buf = h.buf ++ r ∷ rs in
    let found =
      extract-Frames (r ∷ rs) buf [] h.buf (length h.buf) 0 refl refl (omega arith) a.open_end in
    rw (some_data (length rs), kept (extract buf (length (r ∷ rs)) (length h.buf) 0).1 buf)
      (join-Frames (r ∷ rs) a found)

pub receives-Found :
    (reads : List Bytes) (stream : Bytes) (h : Hook)
    → Found h stream
    → Found (receives reads h) (stream ++ flatten reads)
unfolding receives
receives-Found [] stream h a = restream a (sym (append-nil stream))
receives-Found (r ∷ rs) stream h a =
    restream
      (receives-Found rs (stream ++ r) (rf24_network_receive r h)
        (rf24_network_receive-Found r stream h a))
      (append_assoc stream r (flatten rs))

-- However the radio cuts the stream up, what the hook put on its channel is the frames that are
-- complete in it, each of them whole, in order, and its buffer is the rest, in which no frame ends.
pub receives-Frames :
    (reads : List Bytes)
    → Frames (receives reads new_hook).frames (receives reads new_hook).buf (flatten reads)
receives-Frames reads = receives-Found reads [] new_hook new_hook-Found

-- The bytes that a radio holds come out of it in order, and some with each `Read`; there are none if
-- and only if it says so.
pub record Drains {S : Type 0} (n : Network S) (holds : S → Bytes) : Type 0 where
  pub in_order : (s : S) → n.available s ≡ true → (n.read s).0 ++ holds (n.read s).1 ≡ holds s
  pub shrinks : (s : S) → n.available s ≡ true → length (holds (n.read s).1) < length (holds s)
  pub empty : (s : S) → n.available s ≡ false → holds s ≡ []

receive_loop-Found :
    {S : Type 0} (n : Network S) (holds : S → Bytes) (fuel : ℕ) (s : S) (h : Hook) (stream : Bytes)
    → Drains n holds
    → length (holds s) < fuel
    → Found h stream
    → (t : S) × (h' : Hook) × (receive_loop n fuel s h ≡ some (t, h'))
      × (holds t ≡ [])
      × Found h' (stream ++ holds s)
unfolding receive_loop
receive_loop-Found n holds zero s h stream law enough a = absurd (omega arith)
receive_loop-Found n holds (suc fuel) s h stream law enough a = elim (Bool-cases (n.available s)) [
  | inl some_left ↦
      let (bytes, s') = n.read s in
      let (t, h', e, none_left, found) =
        receive_loop-Found n holds fuel s' (rf24_network_receive bytes h) (stream ++ bytes) law
          (omega (arith, law.shrinks s some_left)) (rf24_network_receive-Found bytes stream h a) in
      (
        t,
        h',
        rw some_left e,
        none_left,
        restream found (
            append_assoc stream bytes (holds s')
            ∙ ap (λ l. stream ++ l) (law.in_order s some_left)),
      )
  | inr none_left ↦ (
    s,
    h,
    rw none_left refl,
    law.empty s none_left,
    restream a (sym (append-nil stream) ∙ ap (λ l. stream ++ l) (sym (law.empty s none_left))),
  )
]

-- `Receive` ends, with fuel above the number of the bytes that the radio holds after `Update`: it takes
-- all of them, and if before it the hook's channel and buffer were what a stream of bytes gives, they
-- are now what that stream with these bytes gives, every complete frame and the open rest. The radio
-- must give its bytes in order, and some with each `Read`.
pub receive-Frames :
    {S : Type 0} (n : Network S) (holds : S → Bytes) (fuel : ℕ) (s : S) (h : Hook) (stream : Bytes)
    → Drains n holds
    → length (holds (n.update s)) < fuel
    → Frames h.frames h.buf stream
    → (t : S) × (h' : Hook) × (receive n fuel s h ≡ some (t, h'))
      × (holds t ≡ [])
      × Frames h'.frames h'.buf (stream ++ holds (n.update s))
unfolding receive
receive-Frames n holds fuel s h stream law enough a =
    receive_loop-Found n holds fuel (n.update s) h stream law enough a
