-- ===== src/Messenger.antt =====
-- pkg/controllers/grpcmessageserver.go, pkg/controllers/mpi.go and the plugin's `listen` in
-- plugins/rf24networknode/rf24networknode.go: queues over gRPC streams.
-- A tick of a sender and an envelope at a receiver are one step each: a sender is the only consumer of
-- its queue, as the code's comments ask for. gRPC and the numbering of the streams are parameters.
pub mod Ticks
pub mod Relayed
pub mod Streams
use embd_project.Prelude.{
  ℕ, zero, suc, ◌+◌, String, Bool, true, false, List, [], ◌∷◌, ◌++◌, map, Option, none, some, ◌==◌,
  str_eq, if◌then◌else◌,
}
use embd_project.Message.{Message, zero_message}
use embd_project.Queue.{Queue, waits, message, shutdown, new_queue, add, get, done, len, shut_down}
use embd_project.Convert.{
  PbMessage, Codec, ok, err, panic, convert_to_external_format, convert_to_internal_format,
}

-- What a round of a send routine does: it skips the tick, ends, blocks in `Get`, sends an envelope, or
-- panics.
pub data Batch : Type 0 where
  skipped stopped blocked panics : Batch
  envelope : List PbMessage → Batch

-- A message converted and appended; an error is only logged, `none` is a panic.
unfoldable pub pack : Codec → Message → List PbMessage → Option (List PbMessage)
pack c m es = elim (convert_to_external_format c m) [
  | ok x ↦ some (es ++ x ∷ [])
  | err e ↦ some es
  | panic ↦ none
]

-- The loop `for i := 0; i < sqLen; i++` of a send routine.
unfoldable pub send_loop : Codec → ℕ → Queue → List PbMessage → Queue × Batch
send_loop c zero q es = (q, envelope es)
send_loop c (suc n) q es =
    let (q', got) = get q in
    elim got [
      | waits ↦ (q', blocked)
      | shutdown ↦ (q', stopped)
      | message m ↦ elim (pack c m es) [
        | none ↦ (q', panics)
        | some es' ↦ send_loop c n (done m q') es'
      ]
    ]

-- A tick of the send routine of `GRPCMessageServer.Messenger`, on the stream's queue.
unfoldable pub send_tick : Codec → Queue → Queue × Batch
unfolding send_loop
send_tick c q =
    if q.shutting_down
    then (q, stopped)
    else if len q == 0
    then (q, skipped)
    else send_loop c (len q) q []

-- The loop of a receiver over an envelope: a message that does not convert is dropped. `none` is a
-- panic.
unfoldable pub receive_envelope : Codec → List PbMessage → Queue → Option Queue
receive_envelope c [] q = some q
receive_envelope c (x ∷ xs) q = elim (convert_to_internal_format c x) [
  | ok m ↦ receive_envelope c xs (add m q)
  | err e ↦ receive_envelope c xs q
  | panic ↦ none
]

-- `grpcMessageServerInternal`, with the queues of its streams.
pub record Server : Type 0 where
  pub rcv_q : Queue
  pub snd_q : Queue
  pub stream_qs : List Queue
  pub s_q_count : ℕ

unfoldable pub new_server : Queue → Queue → Server
new_server rcv snd = record { rcv_q = rcv; snd_q = snd; stream_qs = []; s_q_count = 0 }

-- What a round of the routine in `work` does.
pub data Fanned : Type 0 where
  idle ended : Fanned
  fanned : Message → Fanned

-- One round of the routine in `work`: a message goes to the queues of all streams.
unfoldable pub fan_out : Server → Server × Fanned
fan_out s =
    let (q, got) = get s.rcv_q in
    elim got [
      | waits ↦ (s, idle)
      | shutdown ↦ (s, ended)
      | message m ↦ (record s { stream_qs = map (add m) s.stream_qs; rcv_q = done m q }, fanned m)
    ]

-- The start of `Messenger`: a queue for the stream. The parameter is `fmt.Sprintf("%d", _)`.
unfoldable pub open_stream : (ℕ → String) → Server → Server
open_stream name s = record s {
  s_q_count = s.s_q_count + 1;
  stream_qs = s.stream_qs ++ new_queue (name s.s_q_count) ∷ [];
}

-- `sq.ShutDown()` on the queue of this identity.
unfoldable pub shut_stream : String → List Queue → List Queue
shut_stream id [] = []
shut_stream id (q ∷ qs) =
    let rest = shut_stream id qs in if str_eq q.q_id id then shut_down q ∷ qs else q ∷ rest

-- The loop of the deferred function, which cuts the first queue of this identity out.
unfoldable pub cut_stream : String → List Queue → List Queue
cut_stream id [] = []
cut_stream id (q ∷ qs) = let rest = cut_stream id qs in if str_eq q.q_id id then qs else q ∷ rest

-- The end of `Messenger`, in which another routine may come between the two steps.
unfoldable pub begin_close : String → Server → Server
begin_close id s = record s { stream_qs = shut_stream id s.stream_qs }

unfoldable pub finish_close : String → Server → Server
finish_close id s = record s { stream_qs = cut_stream id s.stream_qs }

-- The queue with the result of a tick, and the envelope.
abbrev pub tick_stream : Codec → String → List Queue → List Queue
tick_stream c id [] = []
tick_stream c id (q ∷ qs) =
    let rest = tick_stream c id qs in if str_eq q.q_id id then (send_tick c q).0 ∷ qs else q ∷ rest

-- `MPIInternal`, as far as its `Messenger` goes.
pub record Mpi : Type 0 where
  pub rcv_q : Queue
  pub snd_q : Queue

-- A tick of the send routine of `MPI.Messenger`.
unfoldable pub mpi_send_tick : Codec → Mpi → Mpi × Batch
mpi_send_tick c d = let (q, sent) = send_tick c d.rcv_q in (record d { rcv_q = q }, sent)

-- An envelope that `MPI.Messenger` receives; `none` is a panic.
unfoldable pub mpi_receive : Codec → List PbMessage → Mpi → Option Mpi
mpi_receive c es d = elim (receive_envelope c es d.snd_q) [
  | none ↦ none
  | some q ↦ some (record d { snd_q = q })
]

-- The loop of the plugin's `listen` over an envelope: a message that does not convert is added as the
-- empty one.
unfoldable pub plugin_receive : Codec → List PbMessage → Queue → Option Queue
plugin_receive c [] q = some q
plugin_receive c (x ∷ xs) q = elim (convert_to_internal_format c x) [
  | ok m ↦ plugin_receive c xs (add m q)
  | err e ↦ plugin_receive c xs (add zero_message q)
  | panic ↦ none
]

-- The loop of the plugin's `listen` that fills an envelope: it ends as soon as the queue is empty.
unfoldable pub plugin_loop : Codec → ℕ → Queue → List PbMessage → Queue × Batch
plugin_loop c zero q es = (q, envelope es)
plugin_loop c (suc n) q es =
    let (q', got) = get q in
    elim got [
      | waits ↦ (q', blocked)
      | shutdown ↦ (q', stopped)
      | message m ↦ elim (pack c m es) [
        | none ↦ (q', panics)
        | some es' ↦
            let q'' = done m q' in
            let rest = plugin_loop c n q'' es' in if len q'' == 0 then (q'', envelope es') else rest
      ]
    ]

abbrev pub max_messages_per_env : ℕ
max_messages_per_env = 5

-- A round of the plugin's send routine.
unfoldable pub plugin_send : Codec → Queue → Queue × Batch
unfolding plugin_loop
plugin_send c q = if q.shutting_down then (q, stopped) else plugin_loop c max_messages_per_env q []
