-- ===== src/Messenger/Streams.antt =====
-- The queues of a gRPC server's streams over any series of steps.
use embd_project.Prelude.{
  ℕ, ◌≤◌, String, ◌≡◌, Bool, false, List, [], ◌∷◌, map, any, some, none, Option, if◌then◌else◌,
  str_eq,
}
use embd_project.Message.{Message}
use embd_project.Queue.{Queue}
use embd_project.Convert.{Codec}
use embd_project.Messenger.{Server, fan_out, open_stream, begin_close, finish_close, tick_stream}

-- A step of the server: it opens a stream, fans a message out, ticks, and begins and ends to close.
pub data Step : Type 0 where
  opens fans : Step
  ticks begins finishes : String → Step

unfoldable pub step : Codec → (ℕ → String) → Server → Step → Server
step c name s opens = open_stream name s
step c name s fans = (fan_out s).0
step c name s (ticks id) = record s { stream_qs = tick_stream c id s.stream_qs }
step c name s (begins id) = begin_close id s
step c name s (finishes id) = finish_close id s

unfoldable pub run : Codec → (ℕ → String) → Server → List Step → Server
run c name s [] = s
run c name s (x ∷ xs) = run c name (step c name s x) xs

abbrev pub ids : List Queue → List String
ids = map λ q. q.q_id

abbrev pub listed : String → List String → Bool
listed id = any λ i. str_eq i id

-- No identity stands in the list twice.
abbrev DistinctIds : List String → Type 0
DistinctIds [] = Unit {0}
DistinctIds (i ∷ is) = (listed i is ≡ false) × DistinctIds is

-- No two streams have one identity, and no stream to come will have one that is in use.
record IsValid (name : ℕ → String) (s : Server) : Type 0 where
  distinct : DistinctIds (ids s.stream_qs)
  fresh : (k : ℕ) → s.s_q_count ≤ k → listed (name k) (ids s.stream_qs) ≡ false

-- The queue of the stream with this identity.
abbrev pub stream : String → List Queue → Option Queue
stream id [] = none
stream id (q ∷ qs) = if str_eq q.q_id id then some q else stream id qs
