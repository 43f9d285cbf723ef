-- ===== src/Lirc/Slices.antt =====
-- What appending does to a slice.
use mathlib.Core.List.{append_assoc, append-nil}
use embd_project.Prelude.{
  ℕ, zero, suc, ◌+◌, ◌<◌, ◌≤◌, ◌==◌, String, ◌≡◌, refl, sym, ap, ◌∙◌, true, List, [], ◌∷◌, ◌++◌,
  length, take, ltb, arith, inl, inr, Bool-cases,
}
use embd_project.Lirc.{Slice, Heap, view, put_cell, blanks, append_line}

-- A slice is no longer than its array.
abbrev pub InArray : Slice → Heap → Type 0
InArray s H = s.len ≤ length (H.arrays s.array)

pub length-put_cell : (i : ℕ) (x : String) (l : List String) → length (put_cell i x l) ≡ length l
unfolding put_cell
length-put_cell i x [] = refl
length-put_cell zero x (y ∷ l) = refl
length-put_cell (suc i) x (y ∷ l) = ap suc (length-put_cell i x l)

take-put_cell :
    (i : ℕ) (x : String) (l : List String)
    → i < length l
    → take (suc i) (put_cell i x l) ≡ take i l ++ x ∷ []
unfolding put_cell
take-put_cell i x [] h = absurd (omega (arith, h))
take-put_cell zero x (y ∷ l) h = refl
take-put_cell (suc i) x (y ∷ l) h = ap (λ m. y ∷ m) (take-put_cell i x l (omega (arith, h)))

take-copied :
    (n : ℕ) (x : String) (l rest : List String)
    → n ≤ length l
    → take (suc n) (take n l ++ x ∷ rest) ≡ take n l ++ x ∷ []
take-copied zero x l rest h = refl
take-copied (suc n) x [] rest h = absurd (omega (arith, h))
take-copied (suc n) x (y ∷ l) rest h = ap (λ m. y ∷ m) (take-copied n x l rest (omega (arith, h)))

length-copied :
    (n : ℕ) (x : String) (l rest : List String)
    → n ≤ length l
    → suc n ≤ length (take n l ++ x ∷ rest)
length-copied zero x l rest h = omega arith
length-copied (suc n) x [] rest h = absurd (omega (arith, h))
length-copied (suc n) x (y ∷ l) rest h = omega (arith, length-copied n x l rest (omega (arith, h)))

same_array : (a : ℕ) → (a == a) ≡ true
same_array a = ground arith

after_one : (n : ℕ) → n + 1 ≡ suc n
after_one n = omega arith

append_line-view :
    (spare : ℕ → ℕ) (line : String) (s : Slice) (H : Heap)
    → InArray s H
    → let (s', H') = append_line spare line s H in
      (view s' H' ≡ view s H ++ line ∷ []) × InArray s' H'
unfolding append_line
append_line-view spare line s H h = elim (Bool-cases (ltb s.len (length (H.arrays s.array)))) [
  | inl room ↦
      rw (append_line, room, same_array s.array, after_one s.len)
        (
          take-put_cell s.len line (H.arrays s.array) (ground (arith, room)),
          ground (arith, room, length-put_cell s.len line (H.arrays s.array)),
        )
  | inr full ↦
      rw (append_line, full, same_array H.fresh, after_one s.len)
        (
          take-copied s.len line (H.arrays s.array) (blanks (spare s.len)) h,
          length-copied s.len line (H.arrays s.array) (blanks (spare s.len)) h,
        )
]

-- Lines that are appended one after the other.
abbrev pub append_all : (ℕ → ℕ) → List String → Slice → Heap → Slice × Heap
append_all spare [] s H = (s, H)
append_all spare (line ∷ lines) s H =
    let (s', H') = append_line spare line s H in append_all spare lines s' H'

pub append_all-view :
    (spare : ℕ → ℕ) (lines : List String) (s : Slice) (H : Heap)
    → InArray s H
    → let (s', H') = append_all spare lines s H in (view s' H' ≡ view s H ++ lines) × InArray s' H'
append_all-view spare [] s H h = (sym (append-nil (view s H)), h)
append_all-view spare (line ∷ lines) s H h =
    let (s', H') = append_line spare line s H in
    let (seen, h') = append_line-view spare line s H h in
    let (all, h'') = append_all-view spare lines s' H' h' in
    (all ∙ ap (λ l. l ++ lines) seen ∙ append_assoc (view s H) (line ∷ []) lines, h'')
