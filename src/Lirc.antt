-- ===== src/Lirc.antt =====
-- pkg/controllers/lircbackend/lirc.go, lircrouter.go: what the lines of the LIRC daemon are read as, and
-- who handles a key press.
-- A line is one step, and the channels are lists. strings, hex, strconv and path/filepath are
-- parameters. An int is its bit pattern; the count of lines is plain, since no stream is that long.
-- Data of a reply is a slice, of an array that later replies may write.
pub mod Slices
pub mod Replies
pub mod Overwritten
pub mod Broken
pub mod Handled
use Prim.Native.Nat.{bit_and}
use embd_project.Prelude.{
  ℕ, zero, suc, take, ◌+◌, ◌*◌, ◌%◌, ◌^◌, String, Bool, true, false, List, [], ◌∷◌, ◌++◌, length,
  Option, none, some, ◌==◌, ltb, str_eq, ◌&&◌, if◌then◌else◌,
}
use embd_project.Producers.{Event}

-- A slice of strings, from the start of an array that is known by a number.
pub record Slice : Type 0 where
  pub array : ℕ
  pub len : ℕ

-- The arrays, with all the cells that they have, and the next number that is free. The array 0 has no
-- cells; a nil slice is one of it.
pub record Heap : Type 0 where
  pub arrays : ℕ → List String
  pub fresh : ℕ

-- The strings of a slice.
abbrev pub view : Slice → Heap → List String
view s H = take s.len (H.arrays s.array)

-- A cell is written.
unfoldable pub put_cell : ℕ → String → List String → List String
put_cell i x [] = []
put_cell zero x (y ∷ ys) = x ∷ ys
put_cell (suc i) x (y ∷ ys) = y ∷ put_cell i x ys

abbrev pub blanks : ℕ → List String
blanks zero = []
blanks (suc n) = "" ∷ blanks n

abbrev pub put_array : ℕ → List String → Heap → Heap
put_array a cells H = record H { arrays = λ b. if a == b then cells else H.arrays b }

-- `append`, which writes into the array if it has room, and else copies the slice to a new one. The
-- parameter says how many spare cells the runtime gives that.
unfoldable pub append_line : (ℕ → ℕ) → String → Slice → Heap → Slice × Heap
unfolding put_cell
append_line spare line s H =
    let cells = H.arrays s.array in
    let copied : List String = take s.len cells ++ line ∷ blanks (spare s.len) in
    if ltb s.len (length cells)
    then (record s { len = s.len + 1 }, put_array s.array (put_cell s.len line cells) H)
    else (
      record { array = H.fresh; len = s.len + 1 },
      put_array H.fresh copied (record H { fresh = H.fresh + 1 }),
    )

pub record Reply : Type 0 where
  pub command : String
  pub success : ℕ
  pub data_length : ℕ
  pub contents : Slice

-- The constants of `reader` that occur.
pub data State : Type 0 where
  receiving replying status data_start data_len in_data at_end : State

-- The variables of `reader`.
pub record Reader : Type 0 where
  pub state : State
  pub message : Reply
  pub data_cnt : ℕ
  pub heap : Heap

unfoldable pub new_reader : Reader
new_reader = record {
  state = receiving;
  message = record {
    command = "";
    success = 0;
    data_length = 0;
    contents = record { array = 0; len = 0 };
  };
  data_cnt = 0;
  heap = record { arrays = λ a. []; fresh = 1 };
}

-- `strings.Split` at spaces, `hex.DecodeString`, `strconv.Atoi` with whether it succeeds, and the
-- spare cells of an array that `append` makes.
pub record Text : Type 0 where
  pub split : String → List String
  pub decode_hex : String → Option (List ℕ)
  pub atoi : String → ℕ × Bool
  pub spare : ℕ → ℕ

-- What a line brings: nothing, an event, a reply, or a panic.
pub data Read : Type 0 where
  nothing panics : Read
  event : Event → Read
  reply : Reply → Read

-- The loop over the bytes of a code: `code &= uint64(c[i]) << uint(8*i)`.
unfoldable pub code_loop : List ℕ → ℕ → ℕ → ℕ
code_loop [] i code = code
code_loop (b ∷ bs) i code = code_loop bs (i + 1) (bit_and code ((b * 2 ^ (8 * i)) % 2 ^ 64))

-- The event of a line that was split; it panics if there are fewer than four words.
abbrev event_of : Text → List ℕ → List String → Read
event_of t c (w ∷ count ∷ button ∷ remote ∷ ws) =
    event (record {
      code = code_loop c 0 0;
      repeat = (t.atoi count).0;
      button = button;
      remote = remote;
    })
event_of t c _ = panics

-- The first word is the code; `strings.Split` gives one word at least.
abbrev first_word : List String → String
first_word [] = ""
first_word (w ∷ ws) = w

-- A broadcast line. An invalid count is only logged.
unfoldable pub broadcast : Text → String → Read
broadcast t line =
    let words = t.split line in
    elim (t.decode_hex (first_word words)) [
      | none ↦ nothing
      | some c ↦ if length c == 8 then event_of t c words else nothing
    ]

abbrev pub goes : State → Reader → Reader × Read
goes s r = (record r { state = s }, nothing)

abbrev pub sends : Reader → Reader × Read
sends r = (record r { state = receiving }, reply r.message)

-- `dataCnt < message.DataLength`, on an int
abbrev pub below : ℕ → ℕ → Bool
below n len = ltb len (2 ^ 63) && ltb n len

-- The rest of the case DATA, once the line is kept or not.
abbrev counted : Reader → Reader × Read
counted r =
    let n = r.data_cnt + 1 in
    (
      record r { data_cnt = n; state = if n == r.message.data_length then at_end else in_data },
      nothing,
    )

with_success : ℕ → Reader → Reader
with_success n r = record r { message = record r.message { success = n } }

-- One round of `reader`, on a line in a state.
unfoldable pub read_in : Text → State → String → Reader → Reader × Read
unfolding broadcast with_success append_line
read_in t receiving line r = if str_eq line "BEGIN" then goes replying r else (r, broadcast t line)
read_in t replying line r = goes status (record r {
  message = record {
    command = line;
    success = 0;
    data_length = 0;
    contents = record r.message.contents { len = 0 };
  };
})
read_in t status line r =
    if str_eq line "SUCCESS"
    then goes data_start (with_success 1 r)
    else if str_eq line "END"
    then sends (with_success 1 r)
    else if str_eq line "ERROR"
    then goes data_start (with_success 0 r)
    else goes receiving r
read_in t data_start line r =
    if str_eq line "END"
    then sends r
    else if str_eq line "DATA"
    then goes data_len r
    else goes receiving r
read_in t data_len line r =
    let (len, valid) = t.atoi line in
    let r' : Reader = record r { data_cnt = 0; message = record r.message { data_length = len } } in
    if valid then goes in_data r' else goes receiving r'
read_in t in_data line r =
    let (slice, heap) = append_line t.spare line r.message.contents r.heap in
    if below r.data_cnt r.message.data_length
    then counted (record r { message = record r.message { contents = slice }; heap = heap })
    else counted r
read_in t at_end line r = if str_eq line "END" then sends r else goes receiving r

unfoldable pub read_line : Text → String → Reader → Reader × Read
unfolding read_in
read_line t line r = read_in t r.state line r

-- What a run of lines brings, less the nothings; it ends with a panic.
unfoldable pub read_lines : Text → List String → Reader → Reader × List Read
unfolding read_line
read_lines t [] r = (r, [])
read_lines t (line ∷ lines) r =
    let (r', x) = read_line t line r in
    let rest = read_lines t lines r' in
    elim x [
      | nothing ↦ rest
      | panics ↦ (r', panics ∷ [])
      | event e ↦ (rest.0, event e ∷ rest.1)
      | reply m ↦ (rest.0, reply m ∷ rest.1)
    ]

-- `remoteButton`, the key of a handler.
abbrev pub RemoteButton : Type 0
RemoteButton = String × String

-- The handlers of a `Router`, and the default one. A handler is known by its number.
pub record Router : Type 0 where
  pub handlers : List (RemoteButton × ℕ)
  pub default_handler : Option ℕ

abbrev pub same_key : RemoteButton → RemoteButton → Bool
same_key (a, b) (c, d) = str_eq a c && str_eq b d

-- `l.handlers[rb] = handle`
unfoldable pub put_handler : RemoteButton → ℕ → List (RemoteButton × ℕ) → List (RemoteButton × ℕ)
put_handler k h [] = (k, h) ∷ []
put_handler k h ((j, g) ∷ rest) =
    let later = put_handler k h rest in if same_key j k then (k, h) ∷ rest else (j, g) ∷ later

unfoldable pub find_handler : RemoteButton → List (RemoteButton × ℕ) → Option ℕ
find_handler k [] = none
find_handler k ((j, g) ∷ rest) =
    let later = find_handler k rest in if same_key j k then some g else later

abbrev pub or_any : String → String
or_any s = if str_eq s "" then "*" else s

-- `Handle`
unfoldable pub handle : String → String → ℕ → Router → Router
handle remote button h l = record l {
  handlers = put_handler (or_any remote, or_any button) h l.handlers;
}

-- `SetDefaultHandle`
unfoldable pub set_default_handle : ℕ → Router → Router
set_default_handle h l = record l { default_handler = some h }

-- The loop over the handlers. The parameter is `filepath.Match`, whose errors are ignored.
unfoldable pub matching : (String → String → Bool) → Event → List (RemoteButton × ℕ) → List ℕ
matching matches e [] = []
matching matches e (((remote, button), h) ∷ rest) =
    let later = matching matches e rest in
    if matches remote e.remote && matches button e.button then h ∷ later else later

-- A round of `Run`: the handlers that it calls on an event.
unfoldable pub run_event : (String → String → Bool) → Event → Router → List ℕ
run_event matches e l = elim l.default_handler [
  | some h ↦ h ∷ []
  | none ↦ elim (find_handler (e.remote, e.button) l.handlers) [
    | some h ↦ h ∷ []
    | none ↦ matching matches e l.handlers
  ]
]
