-- ===== src/Daemon/Leave/Missing.antt =====
-- daemon/daemon/machine.go: which elements the loops of `MachineLeave` read, where a removal moves the
-- next element under the index that the loop has just passed.
use embd_project.Prelude.{
  ℕ, zero, suc, ◌≤◌, ◌≡◌, ◌≢◌, refl, subst, inl, inr, Bool, true, false, List, [], ◌∷◌, ◌++◌, some,
  arith, any, any-append, length, length-append, get_elem?, Option-cases,
}
use embd_project.Machine.{Machine, Outcome, success}
use embd_project.Daemon.Leave.{range_stop, last_cells}
use embd_project.Daemon.Leave.Removing.{Removes}
use embd_project.Machine.Snapshots.{Outcome-cases}

-- No element is the same as a later one.
abbrev pub AllDifferent : {C : Type 0} → (C → C → Bool) → List C → Type 0
AllDifferent same [] = Unit {0}
AllDifferent same (x ∷ xs) = (any (same x) xs ≡ false) × AllDifferent same xs

any-get_elem? :
    {C : Type 0} (p : C → Bool) (xs : List C) (i : ℕ) (c : C)
    → any p xs ≡ false
    → get_elem? xs i ≡ some c
    → p c ≡ false
any-get_elem? p [] i c h e = cc
any-get_elem? p (x ∷ xs) zero c h e = ground arith
any-get_elem? p (x ∷ xs) (suc i) c h e = ground (arith, any-get_elem? p xs i c)

any-last_cells :
    {C : Type 0} (p : C → Bool) (x : C) (xs : List C)
    → any p xs ≡ false
    → xs ≢ []
    → any p (last_cells (x ∷ xs)) ≡ false
any-last_cells p x [] h n = absurd (n refl)
any-last_cells p x (y ∷ []) h n = h
any-last_cells p x (y ∷ z ∷ xs) h n = any-last_cells p y (z ∷ xs) (ground arith) (λ e. cc)

append-ne-nil : {C : Type 0} (before after : List C) (x : C) → before ++ x ∷ after ≢ []
append-ne-nil [] after x e = cc
append-ne-nil (b ∷ before) after x e = cc

-- What holds of no element of the array holds of none after one was taken out.
any-taken :
    {C : Type 0} (p : C → Bool) (h x : C) (before after behind : List C)
    → any p ((before ++ x ∷ after) ++ behind) ≡ false
    → any p ((before ++ after) ++ (last_cells (h ∷ (before ++ x ∷ after)) ++ behind)) ≡ false
any-taken p h x before after behind e =
    let all : any p (before ++ x ∷ after) ≡ false =
      ground (arith, any-append p (before ++ x ∷ after) behind) in
    ground (
      arith,
      any-append p (before ++ x ∷ after) behind,
      any-append p before (x ∷ after),
      any-append p before after,
      any-append p (before ++ after) (last_cells (h ∷ (before ++ x ∷ after)) ++ behind),
      any-append p (last_cells (h ∷ (before ++ x ∷ after))) behind,
      any-last_cells p h (before ++ x ∷ after) all (append-ne-nil before after x),
    )

any-behind :
    {C : Type 0} (p : C → Bool) (b c : C) (rest : List C)
    → any p (c ∷ rest) ≡ false
    → any p ((c ∷ rest) ++ (last_cells (c ∷ rest) ++ [])) ≡ false
any-behind p b c rest h = ground (
  arith,
  any-append p (c ∷ rest) (last_cells (c ∷ rest) ++ []),
  any-append p (last_cells (c ∷ rest)) [],
  any-last_cells p b (c ∷ rest) h (λ e. cc),
)

module _ {C : Type 0} (slice : Machine → List C) (same : C → C → Bool)
    (remove : C → Machine → Machine × Outcome) (law : Removes slice same remove)
    (same_sym : (a b : C) → same a b ≡ same b a) where
  -- The first element stays, because no index from 1 on reads it.
  abbrev Missed : C → List C → Machine → Type 0
  Missed h behind m =
      (rest : List C) × (slice m ≡ h ∷ rest) × (any (same h) (rest ++ behind) ≡ false)

  remove-Missed :
      (h : C) (behind : List C) (m : Machine) (c : C)
      → Missed h behind m
      → same h c ≡ false
      → (remove c m).1 ≡ success
      → Missed h (last_cells (slice m) ++ behind) (remove c m).0
        × (length (slice m) ≡ suc (length (slice (remove c m).0)))
  remove-Missed h behind m c (rest, shape, clear) differs r =
      let (x, before, after, p, q, s) = law c m r in go x before after p q s
    where
      go :
          (x : C) (before after : List C)
          → slice m ≡ before ++ x ∷ after
          → slice (remove c m).0 ≡ before ++ after
          → same c x ≡ true
          → Missed h (last_cells (slice m) ++ behind) (remove c m).0
            × (length (slice m) ≡ suc (length (slice (remove c m).0)))
      go x [] after p q s = absurd (ground (arith, same_sym h c))
      go x (b ∷ before) after p q s =
          let whole : rest ≡ before ++ x ∷ after = ground arith in
          (
            (
              before ++ after,
              ground arith,
              rw p (any-taken (same h) b x before after behind (ground arith)),
            ),
            ground (arith, p, q, length-append before (x ∷ after), length-append before after),
          )

  range_stop-Missed :
      (n i : ℕ) (h : C) (behind : List C) (m : Machine)
      → Missed h behind m
      → length (slice m) ≤ n
      → (range_stop slice remove n (suc i) behind m).1 ≢ success
  unfolding range_stop
  range_stop-Missed zero i h behind m (rest, shape, clear) le s = ground (arith, shape)
  range_stop-Missed (suc n) i h behind m (rest, shape, clear) le s =
      elim (Option-cases (get_elem? (rest ++ behind) i)) [
        | inl e ↦ ground (arith, shape)
        | inr (c, e) ↦
            let differs = any-get_elem? (same h) (rest ++ behind) i c clear e in
            elim (Outcome-cases (remove c m).1) [
              | inl r ↦
                  let (missed, shorter) =
                    remove-Missed h behind m c (rest, shape, clear) differs r in
                  range_stop-Missed n (suc i) h (last_cells (slice m) ++ behind) (remove c m).0
                    missed (ground arith) (ground (arith, shape))
              | inr r ↦ ground (arith, shape)
            ]
      ]

  first-Missed :
      (a b c : C) (rest : List C) (m m' : Machine)
      → slice m ≡ a ∷ b ∷ c ∷ rest
      → AllDifferent same (slice m)
      → (x : C) (before after : List C) → slice m ≡ before ++ x ∷ after
      → slice m' ≡ before ++ after
      → same a x ≡ true
      → slice m' ≡ b ∷ c ∷ rest
  first-Missed a b c rest m m' l d x [] after p q s = ground arith
  first-Missed a b c rest m m' l d x (y ∷ before) after p q s =
      absurd
        (ground (arith, l, subst (AllDifferent same) l d, any-append (same a) before (x ∷ after)))

  skips_from :
      (l : List C) (m : Machine)
      → slice m ≡ l
      → AllDifferent same l
      → 3 ≤ length l
      → (range_stop slice remove (length l) 0 [] m).1 ≢ success
  unfolding range_stop
  skips_from [] m l d h s = absurd (omega arith)
  skips_from (a ∷ []) m l d h s = absurd (omega arith)
  skips_from (a ∷ b ∷ []) m l d h s = absurd (omega arith)
  skips_from (a ∷ b ∷ c ∷ rest) m l d h s = elim (Outcome-cases (remove a m).1) [
    | inl r ↦
        let (x, before, after, p, q, t) = law a m r in
        let left = first-Missed a b c rest m (remove a m).0 l (rw l d) x before after p q t in
        range_stop-Missed (suc (suc (length rest))) 0 b (last_cells (slice m) ++ []) (remove a m).0
          (c ∷ rest, left, rw l (any-behind (same b) b c rest (ground arith)))
          (ground (arith, left)) (ground (arith, l))
    | inr r ↦ ground (arith, l)
  ]

  -- A slice of three or more different elements is never emptied.
  pub range_stop-skips :
      (m : Machine)
      → AllDifferent same (slice m)
      → 3 ≤ length (slice m)
      → (range_stop slice remove (length (slice m)) 0 [] m).1 ≢ success
  range_stop-skips m d h = skips_from (slice m) m refl d h
