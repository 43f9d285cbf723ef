-- ===== src/Producers.antt =====
-- pkg/drivers/ultrasonic.go and pkg/controllers/lirc.go: the parts that turn readings and
-- remote-control events into messages, and number them with a uint64 that wraps around.
-- What the sensor and the LIRC socket deliver is the argument of a callback.
pub mod Queued
use embd_project.Prelude.{ℕ, ◌+◌, String, List, [], ◌∷◌}
use embd_project.Message.{Message, sensor_ultra_sonic, lirc_event, ultra_sonic_data, lirc_data}
use embd_project.Queue.{Queue, add}
use embd_project.Drive.{u64}

-- A producer: the number of its next message, and its send queue.
pub record Producer : Type 0 where
  pub version : ℕ
  pub snd_q : Queue

-- `lircbackend.Event`; `Repeat` is an int, as its bit pattern.
pub record Event : Type 0 where
  pub code : ℕ
  pub repeat : ℕ
  pub button : String
  pub remote : String

-- The message of a reading, for a driver with a qualifier.
abbrev pub reading_message : String → ℕ → ℕ → Message
reading_message qualifier version sample = record {
  id = record {
    typ = sensor_ultra_sonic;
    sub_type = "raw";
    version = version;
    qualifier = qualifier;
  };
  payload = ultra_sonic_data sample;
}

-- The callback of `UltraSonic.work`.
unfoldable pub on_reading : String → ℕ → Producer → Producer
on_reading qualifier sample d = record {
  version = u64 (d.version + 1);
  snd_q = add (reading_message qualifier d.version sample) d.snd_q;
}

abbrev pub event_message : ℕ → Event → Message
event_message count e = record {
  id = record { typ = lirc_event; sub_type = ""; version = count; qualifier = "" };
  payload = lirc_data e.code e.repeat e.button e.remote;
}

-- `lircReceiveEventHandler`
unfoldable pub on_event : Event → Producer → Producer
on_event e d = record {
  version = u64 (d.version + 1);
  snd_q = add (event_message d.version e) d.snd_q;
}

-- A producer after a series of inputs.
unfoldable pub feed_all {ℓ} :
    {X : Type ℓ} → (X → Producer → Producer) → List X → Producer → Producer
feed_all f [] d = d
feed_all f (x ∷ xs) d = feed_all f xs (f x d)
