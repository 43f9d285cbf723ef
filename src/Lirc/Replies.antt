-- ===== src/Lirc/Replies.antt =====
-- Replies of the LIRC daemon, read back from their lines.
use mathlib.Core.List.{append_assoc}
use embd_project.Prelude.{
  ℕ, suc, ◌+◌, ◌<◌, ◌^◌, String, ◌≡◌, ◌⊎◌, refl, sym, ap, ◌∙◌, subst, true, false, List, [], ◌∷◌,
  ◌++◌, map, length, flatten, All, ◌==◌, if◌then◌else◌, arith, inl, inr,
}
use embd_project.Lirc.{
  Slice, Heap, view, Reply, Reader, State, receiving, replying, status, data_start, data_len,
  in_data, at_end, Text, nothing, reply, read_line, read_in, read_lines, below, with_success,
  append_line,
}
use embd_project.Lirc.Slices.{InArray, append_all, append_all-view}

-- What the daemon says in a reply.
pub record Answer : Type 0 where
  pub command : String
  pub success : ℕ
  pub contents : List String

-- The lines in which the daemon sends it. The parameter writes a number.
abbrev pub data_lines : (ℕ → String) → List String → List String
data_lines show [] = "END" ∷ []
data_lines show (x ∷ xs) = "DATA" ∷ show (length (x ∷ xs)) ∷ ((x ∷ xs) ++ "END" ∷ [])

abbrev pub answer_lines : (ℕ → String) → Answer → List String
answer_lines show m =
    "BEGIN"
    ∷ m.command
    ∷ (if m.success == 1 then "SUCCESS" else "ERROR")
    ∷ data_lines show m.contents

-- The flag is 0 or 1, and the number of its data is an int.
pub record IsAnswer (m : Answer) : Type 0 where
  pub flag : (m.success ≡ 0) ⊎ (m.success ≡ 1)
  pub small : length m.contents < 2 ^ 63

-- A reply says what the daemon said, as long as the arrays are these.
pub record Says (q : Reply) (H : Heap) (m : Answer) : Type 0 where
  pub command : q.command ≡ m.command
  pub success : q.success ≡ m.success
  pub data_length : q.data_length ≡ length m.contents
  pub contents : view q.contents H ≡ m.contents

-- `Atoi` reads what `Itoa` writes.
abbrev pub Reads : Text → (ℕ → String) → Type 0
Reads t show = (n : ℕ) → n < 2 ^ 63 → t.atoi (show n) ≡ (n, true)

abbrev reader_at : State → Reply → ℕ → Heap → Reader
reader_at s m n H = record { state = s; message = m; data_cnt = n; heap = H }

pub skip :
    (t : Text) (line : String) (lines : List String) (r r' : Reader)
    → read_line t line r ≡ (r', nothing)
    → read_lines t (line ∷ lines) r ≡ read_lines t lines r'
unfolding read_lines
skip t line lines r r' e = rw (read_lines, e, e) refl

emit :
    (t : Text) (line : String) (lines : List String) (r r' : Reader) (m : Reply)
    → read_line t line r ≡ (r', reply m)
    → read_lines t (line ∷ lines) r
      ≡ ((read_lines t lines r').0, reply m ∷ (read_lines t lines r').1)
unfolding read_lines
emit t line lines r r' m e = rw (read_lines, e, e) refl

-- The reply with other data.
abbrev with_slice : Reply → Slice → Reply
with_slice m s = record m { contents = s }

below_lem : (n len : ℕ) → n < len → len < 2 ^ 63 → below n len ≡ true
below_lem n len h small = ground arith

-- A line of the data that is the last, and one that is not.
data_last :
    (t : Text) (line : String) (m : Reply) (n : ℕ) (H : Heap)
    → n + 1 ≡ m.data_length
    → m.data_length < 2 ^ 63
    → let (s, H') = append_line t.spare line m.contents H in
      read_line t line (reader_at in_data m n H)
      ≡ (reader_at at_end (with_slice m s) (n + 1) H', nothing)
unfolding read_line read_in
data_last t line m n H e small = rw (below_lem n m.data_length (omega (arith, e)) small, last) refl
  where
    last : (n + 1 == m.data_length) ≡ true
    last = ground arith

data_next :
    (t : Text) (line : String) (m : Reply) (n : ℕ) (H : Heap)
    → n + 1 < m.data_length
    → m.data_length < 2 ^ 63
    → let (s, H') = append_line t.spare line m.contents H in
      read_line t line (reader_at in_data m n H)
      ≡ (reader_at in_data (with_slice m s) (n + 1) H', nothing)
unfolding read_line read_in
data_next t line m n H h small = rw (below_lem n m.data_length (omega (arith, h)) small, more) refl
  where
    more : (n + 1 == m.data_length) ≡ false
    more = ground arith

-- The lines of the data.
data_read :
    (t : Text) (line : String) (ls rest : List String) (m : Reply) (n : ℕ) (H : Heap)
    → n + suc (length ls) ≡ m.data_length
    → m.data_length < 2 ^ 63
    → let (s, H') = append_all t.spare (line ∷ ls) m.contents H in
      (k : ℕ) × (read_lines t ((line ∷ ls) ++ rest) (reader_at in_data m n H)
        ≡ read_lines t rest (reader_at at_end (with_slice m s) k H'))
data_read t line [] rest m n H e small =
    let (s, H') = append_line t.spare line m.contents H in
    (
      n + 1,
      skip t line rest (reader_at in_data m n H) (reader_at at_end (with_slice m s) (n + 1) H')
          (data_last t line m n H e small),
    )
data_read t line (l ∷ ls) rest m n H e small =
    let (s, H') = append_line t.spare line m.contents H in
    let (k, read) = data_read t l ls rest (with_slice m s) (n + 1) H' (omega (arith, e)) small in
    (
      k,
      skip t line ((l ∷ ls) ++ rest) (reader_at in_data m n H)
            (reader_at in_data (with_slice m s) (n + 1) H')
            (data_next t line m n H (omega (arith, e)) small)
          ∙ read,
    )

-- How the reader stands after a reply: it waits for the next, its message is the reply, and the data
-- were appended from the start of the array that it had.
pub record Left (t : Text) (r : Reader) (m : Answer) (q : Reply) (r' : Reader) : Type 0 where
  pub idle : r'.state ≡ receiving
  pub kept : r'.message ≡ q
  pub appended :
      r'.heap ≡ (append_all t.spare m.contents (record r.message.contents { len = 0 }) r.heap).1
  pub within : InArray q.contents r'.heap

-- What the reader makes of the lines of a reply: a reply that says so, after which it is idle.
abbrev pub Handed : Text → List String → List String → Reader → Answer → Type 0
Handed t lines rest r m =
    (q : Reply) × (r' : Reader) × (read_lines t (lines ++ rest) r
      ≡ ((read_lines t rest r').0, reply q ∷ (read_lines t rest r').1))
    × Says q r'.heap m
    × Left t r m q r'

-- The message when its data begin.
abbrev started : String → ℕ → ℕ → ℕ → Reply
started command flag len a = record {
  command = command;
  success = flag;
  data_length = len;
  contents = record { array = a; len = 0 };
}

-- The lines after the status.
contents_read :
    (t : Text) (show : ℕ → String) (xs rest : List String) (command : String) (flag a n : ℕ)
    (H : Heap)
    → Reads t show
    → length xs < 2 ^ 63
    → Handed t
        (data_lines show xs)
        rest
        (reader_at data_start (started command flag 0 a) n H)
        (record { command = command; success = flag; contents = xs })
unfolding read_line read_in
contents_read t show [] rest command flag a n H reads small = (
  started command flag 0 a,
  reader_at receiving (started command flag 0 a) n H,
  emit t "END" rest _ _ _ refl,
  record { command = refl; success = refl; data_length = refl; contents = refl },
  record { idle = refl; kept = refl; appended = refl; within = omega arith },
)
contents_read t show (x ∷ xs) rest command flag a n H reads small =
    let len = length (x ∷ xs) in
    let start = started command flag 0 a in
    let sized = started command flag len a in
    let (s, H') = append_all t.spare (x ∷ xs) (record { array = a; len = 0 }) H in
    let (seen, within) =
      append_all-view t.spare (x ∷ xs) (record { array = a; len = 0 }) H (omega arith) in
    let more = ((x ∷ xs) ++ "END" ∷ []) ++ rest in
    let (k, read) = data_read t x xs ("END" ∷ rest) sized 0 H (omega arith) small in
    (
      with_slice sized s,
      reader_at receiving (with_slice sized s) k H',
      skip t "DATA" (show len ∷ more) (reader_at data_start start n H)
            (reader_at data_len start n H) refl
          ∙ skip t (show len) more (reader_at data_len start n H) (reader_at in_data sized 0 H)
              (rw (reads len small) refl)
          ∙ ap (λ l. read_lines t l (reader_at in_data sized 0 H))
              (append_assoc (x ∷ xs) ("END" ∷ []) rest)
          ∙ read
          ∙ emit t "END" rest (reader_at at_end (with_slice sized s) k H')
              (reader_at receiving (with_slice sized s) k H') (with_slice sized s) refl,
      record { command = refl; success = refl; data_length = refl; contents = seen },
      record { idle = refl; kept = refl; appended = refl; within = within },
    )

status_read :
    (t : Text) (command : String) (flag a n : ℕ) (H : Heap)
    → (flag ≡ 0) ⊎ (flag ≡ 1)
    → read_line t
        (if flag == 1 then "SUCCESS" else "ERROR")
        (reader_at status (started command 0 0 a) n H)
      ≡ (reader_at data_start (started command flag 0 a) n H, nothing)
unfolding read_line read_in with_success
status_read t command flag a n H (inl e) = rw e refl
status_read t command flag a n H (inr e) = rw e refl

-- The lines of one reply, before others.
pub answer_read :
    (t : Text) (show : ℕ → String) (m : Answer) (rest : List String) (r : Reader)
    → Reads t show
    → IsAnswer m
    → r.state ≡ receiving
    → Handed t (answer_lines show m) rest r m
unfolding read_line read_in
answer_read t show m rest r reads ok idle =
    let a = r.message.contents.array in
    let n = r.data_cnt in
    let H = r.heap in
    let tail = data_lines show m.contents ++ rest in
    let word = if m.success == 1 then "SUCCESS" else "ERROR" in
    let (q, r', read, says, ends) =
      contents_read t show m.contents rest m.command m.success a n H reads ok.small in
    (
      q,
      r',
      skip t "BEGIN" (m.command ∷ word ∷ tail) r (record r { state = replying }) (rw idle refl)
          ∙ skip t m.command (word ∷ tail) (record r { state = replying })
              (reader_at status (started m.command 0 0 a) n H) refl
          ∙ skip t word tail (reader_at status (started m.command 0 0 a) n H)
              (reader_at data_start (started m.command m.success 0 a) n H)
              (status_read t m.command m.success a n H ok.flag)
          ∙ read,
      says,
      record { idle = ends.idle; kept = ends.kept; appended = ends.appended; within = ends.within },
    )

-- Replies whose lines come one after the other, from when the reader waits for one, are handed on, one
-- for each and none else, and the last of them, which may be any, says at that moment what the daemon
-- said: its command, whether it succeeded, and all of its data, in order. (The data of those before it
-- may then be overwritten.) The reader then waits for the next.
pub read_lines-answer_lines :
    (t : Text) (show : ℕ → String) (ms : List Answer) (m : Answer) (r : Reader)
    → Reads t show
    → All IsAnswer (ms ++ m ∷ [])
    → r.state ≡ receiving
    → let (r', out) = read_lines t (flatten (map (answer_lines show) (ms ++ m ∷ []))) r in
      (earlier : List Reply) × (q : Reply) × (out ≡ map reply (earlier ++ q ∷ []))
      × (length earlier ≡ length ms)
      × Says q r'.heap m
      × (r'.state ≡ receiving)
unfolding read_lines
read_lines-answer_lines t show [] m r reads ok idle =
    let (q, r', read, says, ends) = answer_read t show m [] r reads ok.0 idle in
    (
      [],
      q,
      ap (λ p. p.1) read,
      refl,
      subst (λ H. Says q H m) (sym (ap (λ p. p.0.heap) read)) says,
      ap (λ p. p.0.state) read ∙ ends.idle,
    )
read_lines-answer_lines t show (x ∷ ms) m r reads (ok, oks) idle =
    let later = flatten (map (answer_lines show) (ms ++ m ∷ [])) in
    let (p, r', read, says', ends) = answer_read t show x later r reads ok idle in
    let (earlier, q, out, count, says, done) =
      read_lines-answer_lines t show ms m r' reads oks ends.idle in
    (
      p ∷ earlier,
      q,
      ap (λ o. o.1) read ∙ ap (λ l. reply p ∷ l) out,
      ap suc count,
      subst (λ H. Says q H m) (sym (ap (λ o. o.0.heap) read)) says,
      ap (λ o. o.0.state) read ∙ done,
    )
