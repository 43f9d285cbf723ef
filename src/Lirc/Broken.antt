-- ===== src/Lirc/Broken.antt =====
-- What the reader gets wrong.
use Prim.Native.Nat.{bit_and, bit_and-bitwise}
use embd_project.Prelude.{
  ℕ, ◌+◌, ◌*◌, ◌%◌, ◌^◌, ◌≤◌, ◌≡◌, ◌⊎◌, subst, refl, sym, ◌∙◌, String, true, false, List, [], ◌∷◌,
  length, All, ◌==◌, arith, inl, inr, Bool-cases, Option-cases,
}
use embd_project.Producers.{Event}
use embd_project.Lirc.Replies.{skip}
use embd_project.Lirc.{
  Reply, Reader, State, receiving, replying, status, data_start, data_len, in_data, at_end, Text,
  Read, nothing, panics, event, reply, code_loop, broadcast, event_of, first_word, read_line,
  read_in, read_lines, below,
}

zero_and : (b : ℕ) → bit_and 0 b ≡ 0
zero_and b = bit_and-bitwise 0 b

code_loop-zero : (bs : List ℕ) (i : ℕ) → code_loop bs i 0 ≡ 0
unfolding code_loop
code_loop-zero [] i = refl
code_loop-zero (b ∷ bs) i =
    rw (code_loop, zero_and ((b * 2 ^ (8 * i)) % 2 ^ 64)) (code_loop-zero bs (i + 1))

-- The code of an event is zero.
abbrev pub HasNoCode : Read → Type 0
HasNoCode (event e) = e.code ≡ 0
HasNoCode _ = Unit {0}

event_of-HasNoCode : (t : Text) (c : List ℕ) (ws : List String) → HasNoCode (event_of t c ws)
event_of-HasNoCode t c [] = tt
event_of-HasNoCode t c (a ∷ []) = tt
event_of-HasNoCode t c (a ∷ b ∷ []) = tt
event_of-HasNoCode t c (a ∷ b ∷ d ∷ []) = tt
event_of-HasNoCode t c (a ∷ b ∷ d ∷ e ∷ ws) = code_loop-zero c 0

broadcast-HasNoCode : (t : Text) (line : String) → HasNoCode (broadcast t line)
unfolding broadcast
broadcast-HasNoCode t line = elim (Option-cases (t.decode_hex (first_word (t.split line)))) [
  | inl e ↦ rw (broadcast, e) tt
  | inr (c, e) ↦ elim (Bool-cases (length c == 8)) [
    | inl h ↦ rw (broadcast, e, h) (event_of-HasNoCode t c (t.split line))
    | inr h ↦ rw (broadcast, e, h) tt
  ]
]

read_in-HasNoCode :
    (t : Text) (s : State) (line : String) (r : Reader) → HasNoCode (read_in t s line r).1
unfolding read_in
read_in-HasNoCode t receiving line r = ground (arith, broadcast-HasNoCode t line)
read_in-HasNoCode t replying line r = tt
read_in-HasNoCode t status line r = ground arith
read_in-HasNoCode t data_start line r = ground arith
read_in-HasNoCode t data_len line r = ground arith
read_in-HasNoCode t in_data line r = ground arith
read_in-HasNoCode t at_end line r = ground arith

Read-cases :
    (x : Read)
    → (x ≡ nothing)
      ⊎ ((x ≡ panics) ⊎ (((e : Event) × (x ≡ event e)) ⊎ ((m : Reply) × (x ≡ reply m))))
Read-cases nothing = inl refl
Read-cases panics = inr (inl refl)
Read-cases (event e) = inr (inr (inl (e, refl)))
Read-cases (reply m) = inr (inr (inr (m, refl)))

-- Every event that the reader hands on has the code 0, whatever the lines and the state of the reader:
-- the bytes of the code are combined with `&=`, from 0 on.
pub read_lines-HasNoCode :
    (t : Text) (lines : List String) (r : Reader) → All HasNoCode (read_lines t lines r).1
unfolding read_lines read_line
read_lines-HasNoCode t [] r = tt
read_lines-HasNoCode t (line ∷ lines) r =
    let code = read_in-HasNoCode t r.state line r in
    let rest = read_lines-HasNoCode t lines (read_line t line r).0 in
    elim (Read-cases (read_line t line r).1) [
      | inl e ↦ rw (read_lines, e) rest
      | inr (inl e) ↦ rw (read_lines, e) (tt, tt)
      | inr (inr (inl (x, e))) ↦ rw (read_lines, e) (subst HasNoCode e code, rest)
      | inr (inr (inr (m, e))) ↦ rw (read_lines, e) (tt, rest)
    ]

-- The reader waits for data of which it has more than there was to be.
record Overdue (r : Reader) : Type 0 where
  waiting : r.state ≡ in_data
  empty : r.message.data_length ≤ r.data_cnt

read_line-Overdue :
    (t : Text) (line : String) (r : Reader)
    → Overdue r
    → ((read_line t line r).1 ≡ nothing) × Overdue (read_line t line r).0
unfolding read_line read_in
read_line-Overdue t line r o =
    rw (o.waiting, past, other) (refl, record { waiting = refl; empty = omega (arith, o.empty) })
  where
    past : below r.data_cnt r.message.data_length ≡ false
    past = ground (arith, o.empty)

    other : (r.data_cnt + 1 == r.message.data_length) ≡ false
    other = ground (arith, o.empty)

read_lines-Overdue :
    (t : Text) (lines : List String) (r : Reader)
    → Overdue r
    → ((read_lines t lines r).1 ≡ []) × ((read_lines t lines r).0.state ≡ in_data)
unfolding read_lines
read_lines-Overdue t [] r o = (refl, o.waiting)
read_lines-Overdue t (line ∷ lines) r o =
    let (e, o') = read_line-Overdue t line r o in
    rw (read_lines, e) (read_lines-Overdue t lines (read_line t line r).0 o')

-- Once the daemon announces a reply with no data, by the lines DATA and 0, nothing comes out of the
-- reader again, neither replies nor events, whatever lines follow: it waits for data to the end.
pub read_lines-no_data :
    (t : Text) (zero : String) (lines : List String) (r : Reader)
    → r.state ≡ data_start
    → t.atoi zero ≡ (0, true)
    → let (r', out) = read_lines t ("DATA" ∷ zero ∷ lines) r in (out ≡ []) × (r'.state ≡ in_data)
unfolding read_lines read_line read_in
read_lines-no_data t zero lines r s h =
    let start : Reader = record r { state = data_len } in
    let stuck : Reader = record {
      state = in_data;
      message = record r.message { data_length = 0 };
      data_cnt = 0;
      heap = r.heap;
    } in
    subst (λ o. (o.1 ≡ []) × (o.0.state ≡ in_data))
      (sym (
        skip t "DATA" (zero ∷ lines) r start (rw s refl)
        ∙ skip t zero lines start stuck (rw h refl)))
      (read_lines-Overdue t lines stuck (record { waiting = refl; empty = omega arith }))
