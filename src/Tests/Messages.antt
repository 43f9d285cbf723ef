-- ===== src/Tests/Messages.antt =====
-- The queue's, the converters' and the ring's theorems, applied.
use embd_project.Prelude.{
  ℕ, ◌≡◌, refl, true, false, List, [], ◌∷◌, some, ◌==◌, arith, if◌then◌else◌,
}
use embd_project.Errors.{external}
use embd_project.Message.{
  Payload, unit_test_data, ultra_sonic_data, drive_data, led_data, lirc_data, heartbeat_data,
  nil_data, unit_test, id_eq,
}
use embd_project.Queue.{
  Queue, new_queue, message, add, get, adds, gets, dones, shuts_down, Call, run,
}
use embd_project.Queue.Identity.{has_id}
use embd_project.Queue.NoLoss.{run-new_queue-NoLoss}
use embd_project.Queue.Stingy.{get-run_idle}
use embd_project.Queue.Drain.{drain, drain-shut_down}
use embd_project.Queue.Reenqueue.{readded, readded_twice-processed_twice}
use embd_project.Convert.{
  Codec, Kind, Bytes, Result, ok, err, convert_to_internal_format, convert_to_external_format,
}
use embd_project.Convert.RoundTrip.{ReadsBack, internal-external}
use embd_project.StatusLog.{StatusLog, info, restoring, dump_log}
use embd_project.StatusLog.Ring.{logged, dump_log-logged}
use embd_project.Tests.Values.{message_of, switch_on, switch_off}

-- A producer adds a message twice while a worker holds another one.
abbrev calls : List Call
calls = adds switch_on ∷ gets ∷ dones switch_on ∷ adds switch_off ∷ adds switch_on ∷ []

run-new_queue-NoLoss_example : has_id switch_on.id (run (new_queue "led-1") calls).queue ≡ true
unfolding run new_queue id_eq
run-new_queue-NoLoss_example = run-new_queue-NoLoss "led-1" calls switch_on.id refl refl

get-run_idle_example :
    ((run (new_queue "led-1") calls).processing switch_on.id ≡ false)
    × (has_id switch_on.id (get (run (new_queue "led-1") calls)).0.queue ≡ false)
unfolding run new_queue get id_eq
get-run_idle_example =
    get-run_idle "led-1" calls switch_off (refl, (tt, (refl, (refl, (refl, tt))))) refl

abbrev shut_queue : Queue
shut_queue =
    run (new_queue "led-1") (adds switch_on ∷ adds (message_of unit_test "") ∷ shuts_down ∷ [])

drain-shut_down_example : drain 3 shut_queue ≡ some (switch_on ∷ message_of unit_test "" ∷ [])
unfolding run new_queue id_eq
drain-shut_down_example = drain-shut_down shut_queue refl

readded_twice-processed_twice_example :
    let first = get (add switch_off (run (new_queue "led-1") (readded switch_on switch_off))) in
    (first.1 ≡ message switch_on)
    × (first.0.processing switch_on.id ≡ true)
    × ((get first.0).1 ≡ message switch_off)
readded_twice-processed_twice_example =
    readded_twice-processed_twice "led-1" switch_on switch_off refl
      (run (new_queue "led-1") (readded switch_on switch_off)) refl

-- A codec that encodes what an LED gets, and takes nothing else.
abbrev encode : Payload → Result Bytes
encode (led_data is_on n) = ok ((if is_on then 1 else 0) ∷ n ∷ [])
encode _ = err (external "proto")

abbrev decode : Kind → Bytes → Result Payload
decode k (a ∷ n ∷ []) = ok (led_data (a == 1) n)
decode k _ = err (external "proto")

abbrev led_codec : Codec
led_codec = record { marshal = encode; unmarshal = decode }

led_codec-ReadsBack : ReadsBack led_codec
led_codec-ReadsBack (led_data true n) b h = ground arith
led_codec-ReadsBack (led_data false n) b h = ground arith
led_codec-ReadsBack (unit_test_data s) b h = cc
led_codec-ReadsBack (ultra_sonic_data n) b h = cc
led_codec-ReadsBack (drive_data n) b h = cc
led_codec-ReadsBack (lirc_data c r u m) b h = cc
led_codec-ReadsBack (heartbeat_data s a i l) b h = cc
led_codec-ReadsBack nil_data b h = cc

internal-external_example :
    convert_to_internal_format led_codec (record { id = some switch_on.id; payload = 1 ∷ 50 ∷ [] })
    ≡ ok switch_on
unfolding convert_to_external_format
internal-external_example =
    internal-external led_codec switch_on (record { id = some switch_on.id; payload = 1 ∷ 50 ∷ [] })
      led_codec-ReadsBack refl

abbrev log_of : ℕ → StatusLog
log_of n = record { code = info; msg = restoring; timestamp = n }

dump_log-logged_example :
    dump_log (logged (log_of 6 ∷ log_of 5 ∷ log_of 4 ∷ log_of 3 ∷ log_of 2 ∷ []))
    ≡ some (log_of 6 ∷ log_of 5 ∷ log_of 4 ∷ log_of 3 ∷ [])
dump_log-logged_example =
    dump_log-logged (log_of 6 ∷ log_of 5 ∷ log_of 4 ∷ log_of 3 ∷ log_of 2 ∷ [])
