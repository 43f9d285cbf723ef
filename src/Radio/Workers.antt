-- ===== src/Radio/Workers.antt =====
-- plugins/rf24networknode/rf24networknodebackend/rfhook.go: `processFrames` in several goroutines, of
-- which a child starts one and a master two.
-- A goroutine takes a frame off the channel and holds its message until it can put that on
-- `messageChan`; which goroutine goes on is a schedule.
use embd_project.Prelude.{
  ℕ, zero, suc, List, [], ◌∷◌, ◌++◌, length, Option, none, some, ltb, if◌then◌else◌,
}
use embd_project.Message.{Message}
use embd_project.Convert.{Bytes}
use embd_project.Radio.{Wire, process_frame}

-- The frames that are left, the messages that goroutines hold, the longest held first, and what is on
-- `messageChan`.
pub record Pool : Type 0 where
  pub frames : List Bytes
  pub held : List Message
  pub sent : List Message

abbrev pub start_pool : List Bytes → Pool
start_pool fs = record { frames = fs; held = []; sent = [] }

-- A goroutine takes a frame, or the one that has this place among those that hold a message puts it on
-- the channel.
pub data Turn : Type 0 where
  takes : Turn
  puts : ℕ → Turn

-- The message at a place, and the others.
unfoldable pub pick : ℕ → List Message → Option (Message × List Message)
pick i [] = none
pick zero (m ∷ ms) = some (m, ms)
pick (suc i) (m ∷ ms) = elim (pick i ms) [ none ↦ none | some (x, rest) ↦ some (x, m ∷ rest) ]

-- A frame is taken, if there is one and a goroutine is free; `none` if a panic ends the program.
unfoldable pub take_frame : Wire → ℕ → List Bytes → Pool → Option Pool
take_frame w workers [] p = some p
take_frame w workers (f ∷ fs) p =
    let taken : Option Pool = elim (process_frame w f) [
      | none ↦ none
      | some m ↦ some (record p { frames = fs; held = p.held ++ m ∷ [] })
    ] in
    if ltb (length p.held) workers then taken else some p

-- A step of so many goroutines in `processFrames`.
unfoldable pub turn : Wire → ℕ → Turn → Pool → Option Pool
unfolding take_frame pick
turn w workers takes p = take_frame w workers p.frames p
turn w workers (puts i) p = elim (pick i p.held) [
  | none ↦ some p
  | some (m, others) ↦ some (record p { held = others; sent = p.sent ++ m ∷ [] })
]

-- A schedule.
unfoldable pub turns : Wire → ℕ → List Turn → Pool → Option Pool
unfolding turn
turns w workers [] p = some p
turns w workers (t ∷ ts) p = elim (turn w workers t p) [
  | none ↦ none
  | some p' ↦ turns w workers ts p'
]
