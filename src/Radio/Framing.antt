-- ===== src/Radio/Framing.antt =====
-- The frames of a stream: what a receiver of reads must find, whatever the reads are.
use mathlib.Core.List.{append_assoc, append-nil}
use embd_project.Prelude.{
  ℕ, ◌+◌, ◌-◌, ◌≡◌, ◌≢◌, refl, sym, ap, ◌∙◌, Bool, true, false, not, ◌&&◌, List, [], ◌∷◌, ◌++◌,
  length, drop, get_elem?, some, ◌==◌, Bool-cases, inl, inr, All, arith, flatten, length-append,
  drop-append, take-append, get_elem?-append,
}
use embd_project.Convert.{Bytes}
use embd_project.Radio.{extract, slice, ends_at}

-- No byte is zero.
abbrev pub zero_free : Bytes → Bool
zero_free [] = true
zero_free (b ∷ bs) = not (b == 0) && zero_free bs

-- One zero byte, which is the last.
abbrev pub is_frame : Bytes → Bool
is_frame [] = false
is_frame (b ∷ []) = b == 0
is_frame (b ∷ c ∷ bs) = not (b == 0) && is_frame (c ∷ bs)

abbrev pub IsFrame : Bytes → Type 0
IsFrame f = is_frame f ≡ true

-- Complete frames and an incomplete one.
pub record Frames (fs : List Bytes) (left : Bytes) (stream : Bytes) : Type 0 where
  pub whole : flatten fs ++ left ≡ stream
  pub framed : All IsFrame fs
  pub open_end : zero_free left ≡ true

zero_free-snoc :
    (xs : Bytes) (b : ℕ) → zero_free xs ≡ true → (b == 0) ≡ false → zero_free (xs ++ b ∷ []) ≡ true
zero_free-snoc [] b h e = ground arith
zero_free-snoc (x ∷ xs) b h e = ground (arith, zero_free-snoc xs b)

is_frame-snoc :
    (xs : Bytes) (b : ℕ) → zero_free xs ≡ true → (b == 0) ≡ true → is_frame (xs ++ b ∷ []) ≡ true
is_frame-snoc [] b h e = ground arith
is_frame-snoc (x ∷ []) b h e = ground arith
is_frame-snoc (x ∷ y ∷ xs) b h e = ground (arith, is_frame-snoc (y ∷ xs) b)

-- A frame at the front of a stream is determined.
frame_unique : (f g xs ys : Bytes) → IsFrame f → IsFrame g → f ++ xs ≡ g ++ ys → (f ≡ g) × (xs ≡ ys)
frame_unique [] g xs ys hf hg e = cc
frame_unique f [] xs ys hf hg e = cc
frame_unique (b ∷ []) (c ∷ []) xs ys hf hg e = ground arith
frame_unique (b ∷ []) (c ∷ d ∷ g) xs ys hf hg e = ground arith
frame_unique (b ∷ d ∷ f) (c ∷ []) xs ys hf hg e = ground arith
frame_unique (b ∷ b' ∷ f) (c ∷ c' ∷ g) xs ys hf hg e =
    ground (arith, frame_unique (b' ∷ f) (c' ∷ g) xs ys)

-- A stream with no zero byte has no frame at its front.
no_frame : (f xs ys : Bytes) → IsFrame f → zero_free ys ≡ true → f ++ xs ≢ ys
no_frame [] xs ys hf h e = cc
no_frame (b ∷ []) xs [] hf h e = cc
no_frame (b ∷ []) xs (y ∷ ys) hf h e = ground arith
no_frame (b ∷ c ∷ f) xs [] hf h e = cc
no_frame (b ∷ c ∷ f) xs (y ∷ ys) hf h e = ground (arith, no_frame (c ∷ f) xs ys)

-- A stream has one division into frames.
pub Frames-unique :
    (fs gs : List Bytes) (l r stream : Bytes)
    → Frames fs l stream
    → Frames gs r stream
    → (fs ≡ gs) × (l ≡ r)
Frames-unique [] [] l r stream a b = (refl, a.whole ∙ sym b.whole)
Frames-unique [] (g ∷ gs) l r stream a b = absurd (
    no_frame g (flatten gs ++ r) l b.framed.0 a.open_end
      (sym (append_assoc g (flatten gs) r) ∙ b.whole ∙ sym a.whole))
Frames-unique (f ∷ fs) [] l r stream a b = absurd (
    no_frame f (flatten fs ++ l) r a.framed.0 b.open_end
      (sym (append_assoc f (flatten fs) l) ∙ a.whole ∙ sym b.whole))
Frames-unique (f ∷ fs) (g ∷ gs) l r stream a b =
    let (ef, el) = frame_unique f g (flatten fs ++ l) (flatten gs ++ r) a.framed.0 b.framed.0 (
      sym (append_assoc f (flatten fs) l)
      ∙ a.whole
      ∙ sym b.whole
      ∙ append_assoc g (flatten gs) r) in
    let (es, e) =
      Frames-unique fs gs l r (flatten fs ++ l)
        (record { whole = refl; framed = a.framed.1; open_end = a.open_end })
        (record { whole = sym el; framed = b.framed.1; open_end = b.open_end }) in
    (cc, e)

byte_at :
    (buf done cur rest : Bytes) (b : ℕ)
    → buf ≡ done ++ (cur ++ b ∷ rest)
    → ends_at buf (length done + length cur) ≡ (b == 0)
byte_at buf done cur rest b e = ground (arith, here)
  where
    here : get_elem? buf (length done + length cur) ≡ some b
    here =
        rw (e, sym (append_assoc done cur (b ∷ rest)), sym (length-append done cur))
          (get_elem?-append (done ++ cur) b rest)

snoc_parts :
    (done cur rest : Bytes) (b : ℕ) → done ++ (cur ++ b ∷ rest) ≡ done ++ ((cur ++ b ∷ []) ++ rest)
snoc_parts done cur rest b = rw (append_assoc cur (b ∷ []) rest) refl

cut_frame :
    (buf done cur rest : Bytes) (b : ℕ)
    → buf ≡ done ++ (cur ++ b ∷ rest)
    → slice buf (length done) (length done + length cur + 1) ≡ cur ++ b ∷ []
cut_frame buf done cur rest b e =
    rw (e, drop-append, count, snoc_parts [] cur rest b) (take-append (cur ++ b ∷ []) rest)
  where
    count : length done + length cur + 1 - length done ≡ length (cur ++ b ∷ [])
    count = omega (arith, length-append cur (b ∷ []))

nil_parts : (buf done cur : Bytes) → buf ≡ done ++ (cur ++ []) → drop (length done) buf ≡ cur
nil_parts buf done cur e = rw (e, drop-append, append-nil cur) refl

after :
    (done cur : Bytes) (b i : ℕ)
    → i ≡ length done + length cur
    → i + 1 ≡ length (done ++ (cur ++ b ∷ []))
after done cur b i e =
    omega (arith, e, length-append done (cur ++ b ∷ []), length-append cur (b ∷ []))

pub restream : {fs : List Bytes} {left s t : Bytes} → Frames fs left s → s ≡ t → Frames fs left t
restream a e = record { whole = a.whole ∙ e; framed = a.framed; open_end = a.open_end }

-- What the loop of `rf24NetworkReceive` finds from a position on: `done` was cut off, `cur` is the
-- frame that is open.
pub extract-Frames :
    (rest buf done cur : Bytes) (i start : ℕ)
    → buf ≡ done ++ (cur ++ rest)
    → start ≡ length done
    → i ≡ length done + length cur
    → zero_free cur ≡ true
    → let (fs, last) = extract buf (length rest) i start in Frames fs (drop last buf) (cur ++ rest)
unfolding extract
extract-Frames [] buf done cur i start e es ei h =
    rw (es, nil_parts buf done cur e, append-nil cur)
      (record { whole = refl; framed = tt; open_end = h })
extract-Frames (b ∷ rest) buf done cur i start e es ei h = elim (Bool-cases (b == 0)) [
  | inl z ↦
      let closed = cur ++ b ∷ [] in
      let found =
        extract-Frames rest buf (done ++ closed) [] (i + 1) (i + 1)
          (e ∙ snoc_parts done cur rest b ∙ sym (append_assoc done closed rest))
          (after done cur b i ei) (omega (arith, after done cur b i ei)) refl in
      rw (at_end, z, cut)
        (record {
          whole =
              append_assoc closed _ _
              ∙ ap (λ l. closed ++ l) found.whole
              ∙ append_assoc cur (b ∷ []) rest;
          framed = (is_frame-snoc cur b h z, found.framed);
          open_end = found.open_end;
        })
  | inr nz ↦
      let found =
        extract-Frames rest buf done (cur ++ b ∷ []) (i + 1) start (e ∙ snoc_parts done cur rest b)
          es (omega (arith, ei, length-append cur (b ∷ []))) (zero_free-snoc cur b h nz) in
      rw (at_end, nz) (restream found (append_assoc cur (b ∷ []) rest))
]
  where
    at_end : ends_at buf i ≡ (b == 0)
    at_end = rw ei (byte_at buf done cur rest b e)

    cut : slice buf start (i + 1) ≡ cur ++ b ∷ []
    cut = rw (es, ei) (cut_frame buf done cur rest b e)
