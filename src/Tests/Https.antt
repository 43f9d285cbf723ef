-- ===== src/Tests/Https.antt =====
-- The theorems on the HTTP interface, applied to a mux that knows three paths.
use embd_project.Prelude.{String, ◌≡◌, refl, List, [], ◌∷◌, none, str_eq, if◌then◌else◌}
use embd_project.Errors.{ok, err, external}
use embd_project.Daemon.{Daemon, update}
use embd_project.Options.{validate, apply}
use embd_project.Http
use embd_project.Http.Handlers.{Env, serve}
use embd_project.Http.Client.{Client}
use embd_project.Http.Routed.{match_segments}
use embd_project.Http.Called.{updates, call, told, Connected, call-operation}
use embd_project.Tests.Values.{outside, wire, rover_ready, keeping}

abbrev cut : String → List String
cut path =
    if str_eq path "/update"
    then "update" ∷ []
    else if str_eq path "/driver/rover/driver_led/led-1"
    then "driver" ∷ "rover" ∷ "driver_led" ∷ "led-1" ∷ []
    else "machine" ∷ "" ∷ []

abbrev mux : Http.Mux
mux = record {
  segments = cut;
  vars = λ p path. match_segments p (cut path);
  unrouted = λ m path. record { status = 404; body = [] };
}

abbrev env : Env
env = record {
  mux = mux;
  outside = outside;
  wire = wire;
  mkdir = λ id. none;
  to_lower = λ s. s;
  read_machine = λ b. err (external "json");
  read_options = λ b. ok [];
  write_copy = λ m. ok [];
  write_copies = λ ms. ok [];
  write_ping = λ o. ok [];
  write_text = λ s. ok [];
  write_error = λ e. [];
}

abbrev client : Client Daemon
client = record {
  carry = serve env;
  read_error = λ b. external "server";
  write_machine = λ m. [];
  write_options = λ o. [];
  read_copy = λ b. err (external "json");
  read_copies = λ b. err (external "json");
}

client-Connected : Connected env client
client-Connected = record { carries = λ r d. refl; documented = λ p path. refl }

call-operation_example : call client (updates []) (keeping rover_ready) ≡ (
  (update (λ s. s) [] (keeping rover_ready)).0,
  told env client (update (λ s. s) [] (keeping rover_ready)).1,
)
unfolding update validate apply
call-operation_example =
    call-operation env client (updates []) (keeping rover_ready) client-Connected (refl, (refl, tt))
      refl (λ h. cc)
