-- ===== src/Tests/Lircs.antt =====
-- The theorems on the LIRC backend, applied to a daemon that writes a number as a tally.
use Prim.Native.String.{◌∷◌ as ◌∷ˢ◌, count}
use Prim.Native.String.count
use mathlib.Core.List.{Mem}
use embd_project.Prelude.{
  List, ℕ, zero, suc, String, ◌≡◌, refl, ap, ◌∙◌, Bool, true, [], ◌∷◌, map, flatten, length, ◌++◌,
  All, none, some, str_eq, if◌then◌else◌, inr, arith,
}
use embd_project.Producers.{Event}
use embd_project.Lirc.{
  Reply, Reader, Text, reply, receiving, data_start, in_data, new_reader, read_lines, find_handler,
  handle, run_event,
}
use embd_project.Lirc.Replies.{Answer, answer_lines, Says, Reads, read_lines-answer_lines}
use embd_project.Lirc.Broken.{HasNoCode, read_lines-HasNoCode, read_lines-no_data}
use embd_project.Lirc.Handled.{run_event-handle}

abbrev tally : ℕ → String
tally zero = ""
tally (suc n) = "I" ∷ˢ tally n

abbrev tallies : Text
tallies = record {
  split = λ s. "00000000000000ff" ∷ "I" ∷ "KEY_POWER" ∷ "tv" ∷ [];
  decode_hex = λ s. some (255 ∷ 0 ∷ 0 ∷ 0 ∷ 0 ∷ 0 ∷ 0 ∷ 0 ∷ []);
  atoi = λ s. (count s, true);
  spare = λ n. 1;
}

count-tally : (n : ℕ) → count (tally n) ≡ n
count-tally zero = count.nil
count-tally (suc n) = count.cons "I" (tally n) ∙ ap suc (count-tally n)

tallies-Reads : Reads tallies tally
tallies-Reads n h = ap (λ k. (k, true)) (count-tally n)

abbrev sent_once : Answer
sent_once = record { command = "SEND_ONCE tv KEY_POWER"; success = 1; contents = [] }

abbrev listed : Answer
listed = record { command = "LIST"; success = 1; contents = "tv" ∷ "radio" ∷ [] }

abbrev versioned : Answer
versioned = record { command = "VERSION"; success = 1; contents = "0.10" ∷ [] }

-- A list with two lines, and then a reply with one, which goes into the same array.
abbrev exchange : List Answer
exchange = sent_once ∷ listed ∷ []

read_lines-answer_lines_example :
    let lines = flatten (map (answer_lines tally) (exchange ++ versioned ∷ [])) in
    (earlier : List Reply) × (q : Reply) × ((read_lines tallies lines new_reader).1
      ≡ map reply (earlier ++ q ∷ []))
    × (length earlier ≡ 2)
    × Says q (read_lines tallies lines new_reader).0.heap versioned
    × ((read_lines tallies lines new_reader).0.state ≡ receiving)
unfolding new_reader
read_lines-answer_lines_example =
    read_lines-answer_lines tallies tally exchange versioned new_reader tallies-Reads
      (
        record { flag = inr refl; small = omega arith },
        (
          record { flag = inr refl; small = omega arith },
          (record { flag = inr refl; small = omega arith }, tt),
        ),
      )
      refl

read_lines-HasNoCode_example :
    All HasNoCode (read_lines tallies ("00000000000000ff I KEY_POWER tv" ∷ []) new_reader).1
read_lines-HasNoCode_example =
    read_lines-HasNoCode tallies ("00000000000000ff I KEY_POWER tv" ∷ []) new_reader

abbrev succeeded : Reader
succeeded = record new_reader { state = data_start }

read_lines-no_data_example :
    ((read_lines tallies ("DATA" ∷ "" ∷ "END" ∷ "BEGIN" ∷ []) succeeded).1 ≡ [])
    × ((read_lines tallies ("DATA" ∷ "" ∷ "END" ∷ "BEGIN" ∷ []) succeeded).0.state ≡ in_data)
unfolding new_reader
read_lines-no_data_example =
    read_lines-no_data tallies "" ("END" ∷ "BEGIN" ∷ []) succeeded refl
      (ap (λ k. (k, true)) count.nil)

abbrev power : Event
power = record { code = 0; repeat = 0; button = "KEY_POWER"; remote = "tv" }

abbrev star : String → String → Bool
star p s = if str_eq p "*" then true else str_eq p s

run_event-handle_example :
    Mem 7
      (run_event star power (handle "tv" "" 7 (record { handlers = []; default_handler = none })))
unfolding find_handler
run_event-handle_example =
    run_event-handle star power "tv" "" 7 (record { handlers = []; default_handler = none }) refl
      refl (inr (refl, refl))
