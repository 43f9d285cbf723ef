-- ===== src/Lirc/Overwritten.antt =====
-- What a later reply does to the data of an earlier one.
use mathlib.Core.List.{append-nil}
use embd_project.Prelude.{
  ℕ, zero, suc, ◌+◌, ◌<◌, ◌≤◌, String, ◌≡◌, refl, sym, ap, ◌∙◌, true, List, [], ◌∷◌, ◌++◌, length,
  take, drop, ltb, arith,
}
use embd_project.Lirc.{
  Reply, Reader, receiving, Text, reply, read_lines, Slice, Heap, view, put_cell, put_array,
  append_line,
}
use embd_project.Lirc.Slices.{InArray, length-put_cell, append_all}
use embd_project.Lirc.Replies.{Answer, IsAnswer, answer_lines, Reads, Says, Left, answer_read}

-- The cells after lines were written from a place on.
overwrite : ℕ → List String → List String → List String
overwrite i [] cells = cells
overwrite i (x ∷ xs) cells = overwrite (suc i) xs (put_cell i x cells)

append_line-room :
    (spare : ℕ → ℕ) (a i : ℕ) (x : String) (H : Heap)
    → i < length (H.arrays a)
    → append_line spare x (record { array = a; len = i }) H
      ≡ (record { array = a; len = suc i }, put_array a (put_cell i x (H.arrays a)) H)
unfolding append_line
append_line-room spare a i x H h = rw (append_line, room, after) refl
  where
    room : ltb i (length (H.arrays a)) ≡ true
    room = ground (arith, h)

    after : i + 1 ≡ suc i
    after = omega arith

append_all-overwrite :
    (spare : ℕ → ℕ) (a i : ℕ) (xs : List String) (H : Heap)
    → i + length xs ≤ length (H.arrays a)
    → (append_all spare xs (record { array = a; len = i }) H).1.arrays a
      ≡ overwrite i xs (H.arrays a)
unfolding overwrite
append_all-overwrite spare a i [] H h = refl
append_all-overwrite spare a i (x ∷ xs) H h =
    ap (λ p. (append_all spare xs p.0 p.1).1.arrays a)
      (append_line-room spare a i x H (omega (arith, h)))
    ∙ append_all-overwrite spare a (suc i) xs (put_array a cells H) (rw self room)
    ∙ ap (overwrite (suc i) xs) self
  where
    cells : List String
    cells = put_cell i x (H.arrays a)

    self : (put_array a cells H).arrays a ≡ cells
    self = ground arith

    room : suc i + length xs ≤ length cells
    room = omega (arith, h, length-put_cell i x (H.arrays a))

-- Written from the start on, they stand before what is left of the cells.
overwrite-suc :
    (i : ℕ) (xs : List String) (y : String) (cells : List String)
    → overwrite (suc i) xs (y ∷ cells) ≡ y ∷ overwrite i xs cells
unfolding overwrite put_cell
overwrite-suc i [] y cells = refl
overwrite-suc i (x ∷ xs) y cells = overwrite-suc (suc i) xs y (put_cell i x cells)

overwrite-take :
    (n : ℕ) (xs cells : List String)
    → length xs ≤ n
    → n ≤ length cells
    → take n (overwrite zero xs cells) ≡ xs ++ drop (length xs) (take n cells)
unfolding overwrite put_cell
overwrite-take n [] cells h k = refl
overwrite-take n (x ∷ xs) [] h k = absurd (omega (arith, h, k))
overwrite-take zero (x ∷ xs) cells h k = absurd (omega (arith, h))
overwrite-take (suc n) (x ∷ xs) (y ∷ cells) h k =
    ap (take (suc n)) (overwrite-suc zero xs x cells)
    ∙ ap (λ l. x ∷ l) (overwrite-take n xs cells (omega (arith, h)) (omega (arith, k)))

length-prefix : (n : ℕ) (l : List String) → n ≤ length l → length (take n l) ≡ n
length-prefix zero l h = refl
length-prefix (suc n) [] h = absurd (omega (arith, h))
length-prefix (suc n) (x ∷ l) h = ap suc (length-prefix n l (omega (arith, h)))

-- A slice when lines were appended from the start of its array.
view-overwritten :
    (spare : ℕ → ℕ) (xs ys : List String) (s : Slice) (H : Heap)
    → InArray s H
    → view s H ≡ xs
    → length ys ≤ length xs
    → view s (append_all spare ys (record s { len = 0 }) H).1 ≡ ys ++ drop (length ys) xs
view-overwritten spare xs ys s H within seen fewer =
    let cells = H.arrays s.array in
    let len : length xs ≡ s.len = ap length (sym seen) ∙ length-prefix s.len cells within in
    ap (take s.len)
      (append_all-overwrite spare s.array zero ys H (omega (arith, fewer, len, within)))
    ∙ overwrite-take s.len ys cells (omega (arith, fewer, len)) within
    ∙ ap (λ l. ys ++ drop (length ys) l) seen

alone :
    (t : Text) (show : ℕ → String) (m : Answer) (r : Reader)
    → Reads t show
    → IsAnswer m
    → r.state ≡ receiving
    → (q : Reply) × (r' : Reader) × (read_lines t (answer_lines show m) r ≡ (r', reply q ∷ []))
      × Says q r'.heap m
      × Left t r m q r'
unfolding read_lines
alone t show m r reads ok idle =
    let (q, r', read, says, left) = answer_read t show m [] r reads ok idle in
    (q, r', ap (λ l. read_lines t l r) (sym (append-nil (answer_lines show m))) ∙ read, says, left)

-- A reply says what the daemon said when it is handed on; when one with no more data follows, then the
-- data of the first become those of the second, with what these leave of the first behind them.
pub read_lines-overwritten :
    (t : Text) (show : ℕ → String) (m n : Answer) (r : Reader)
    → Reads t show
    → IsAnswer m
    → IsAnswer n
    → r.state ≡ receiving
    → length n.contents ≤ length m.contents
    → (q q' : Reply) × (r' r'' : Reader) × (read_lines t (answer_lines show m) r
        ≡ (r', reply q ∷ []))
      × Says q r'.heap m
      × (read_lines t (answer_lines show n) r' ≡ (r'', reply q' ∷ []))
      × Says q' r''.heap n
      × (view q.contents r''.heap ≡ n.contents ++ drop (length n.contents) m.contents)
read_lines-overwritten t show m n r reads okm okn idle fewer =
    let (q, r', read, says, left) = alone t show m r reads okm idle in
    let (q', r'', read', says', left') = alone t show n r' reads okn left.idle in
    (
      q,
      q',
      r',
      r'',
      read,
      says,
      read',
      says',
      ap (view q.contents) left'.appended
          ∙ ap
              (λ x.
                view q.contents
                  (append_all t.spare n.contents (record x.contents { len = 0 }) r'.heap).1)
              left.kept
          ∙ view-overwritten t.spare m.contents n.contents q.contents r'.heap left.within
              says.contents fewer,
    )
