-- ===== src/Http/Handlers.antt =====
-- daemon/server/handlers.go: the handlers, and the answer of the server to a request.
use embd_project.Prelude.{ℕ, String, List, [], Option, none, some}
use embd_project.Prelude.Maps.{lookup}
use embd_project.Factories.{Json}
use embd_project.Errors.{Error, Result, ok, err, no_variable, getting_failed}
use embd_project.Options.{OptionMap, BoolOptions}
use embd_project.Machine.{Machine, Outside, Outcome, success, fails, stuck}
use embd_project.Daemon
use embd_project.Daemon.{
  Daemon, Wire, machine_join, daemon_attach_adaptors, daemon_start_drivers,
  daemon_start_controllers, daemon_stop_driver, daemon_stop_controller, daemon_detach_adaptor,
}
use embd_project.Daemon.Leave.{machine_leave}
use embd_project.Daemon.Copies.{MachineCopy, machine_get, machines_get}
use embd_project.Http

-- What the handlers use from outside the repository.
pub record Env : Type 0 where
  pub mux : Http.Mux
  pub outside : Outside
  pub wire : Wire
  pub mkdir : String → Option Error
  pub to_lower : String → String
  pub read_machine : Json → Result Machine
  pub read_options : Json → Result OptionMap
  pub write_copy : MachineCopy → Result Json
  pub write_copies : List MachineCopy → Result Json
  pub write_ping : BoolOptions → Result Json
  pub write_text : String → Result Json
  pub write_error : Error → Json

-- The daemon after a handler, and its response; `none` if the handler panics or never ends.
abbrev pub Answer : Type 0
Answer = Daemon × Option Http.Response

-- The status codes of net/http.
abbrev pub ok_status : ℕ
ok_status = 200

abbrev pub created : ℕ
created = 201

abbrev pub accepted : ℕ
accepted = 202

abbrev pub no_content : ℕ
no_content = 204

abbrev pub not_found : ℕ
not_found = 404

abbrev pub server_failed : ℕ
server_failed = 500

abbrev pub respond : ℕ → Json → Option Http.Response
respond status body = some (record { status = status; body = body })

-- `processServerError`
unfoldable pub process_server_error : Env → Error → Option Http.Response
process_server_error v e = respond server_failed (v.write_error e)

-- How a handler ends after the daemon's method.
unfoldable pub answer : Env → ℕ → Daemon × Outcome → Answer
unfolding process_server_error
answer v status (d, success) = (d, respond status [])
answer v status (d, fails e) = (d, process_server_error v e)
answer v status (d, stuck) = (d, none)

-- A variable of the path.
unfoldable pub with_var : Env → String → Http.Vars → Daemon → (String → Answer) → Answer
unfolding process_server_error
with_var v name vs d f = elim (lookup name vs) [
  | none ↦ (d, process_server_error v (no_variable name))
  | some x ↦ f x
]

-- The body of a request, or what was read from it.
abbrev pub with_read {ℓ} : {A : Type ℓ} → Env → Result A → Daemon → (A → Answer) → Answer
with_read v (err e) d f = (d, process_server_error v e)
with_read v (ok a) d f = f a

-- `driverStart`, `controllerStart` and `adaptorAttach`
unfoldable pub driver_start : Env → Result Json → Daemon → Answer
driver_start v body d =
    with_read v body d λ b. answer v accepted (daemon_start_drivers v.wire v.outside b d)

unfoldable pub controller_start : Env → Result Json → Daemon → Answer
controller_start v body d =
    with_read v body d λ b. answer v accepted (daemon_start_controllers v.wire v.outside b d)

unfoldable pub adaptor_attach : Env → Result Json → Daemon → Answer
adaptor_attach v body d =
    with_read v body d λ b. answer v accepted (daemon_attach_adaptors v.wire v.outside b d)

unfoldable pub driver_stop : Env → Http.Vars → Daemon → Answer
driver_stop v vs d = with_var v "machineID" vs d λ m.
    with_var v "driverType" vs d
      λ t. with_var v "driverID" vs d λ i. answer v accepted (daemon_stop_driver v.outside m t i d)

unfoldable pub controller_stop : Env → Http.Vars → Daemon → Answer
controller_stop v vs d = with_var v "machineID" vs d λ m.
    with_var v "controllerID" vs d λ i. answer v accepted (daemon_stop_controller v.outside m i d)

unfoldable pub adaptor_detach : Env → Http.Vars → Daemon → Answer
adaptor_detach v vs d = with_var v "machineID" vs d λ m. with_var v "adaptorType" vs d λ t.
    with_var v "adaptorID" vs d λ i. answer v accepted (daemon_detach_adaptor v.outside m t i d)

unfoldable pub machine_create : Env → Result Json → Daemon → Answer
machine_create v body d =
    with_read v body d
      λ b. with_read v (v.read_machine b) d λ m. answer v created (machine_join v.mkdir m d)

unfoldable pub machine_delete : Env → Http.Vars → Daemon → Answer
machine_delete v vs d =
    with_var v "machineID" vs d λ m. answer v no_content (machine_leave v.outside m d)

-- `machineGet`; a copy that cannot be encoded is an error of the server.
unfoldable pub get_machine : Env → Http.Vars → Daemon → Answer
get_machine v vs d = with_var v "machineID" vs d λ id. elim (machine_get id d) [
  | err e ↦ (d, process_server_error v (getting_failed e))
  | ok copy ↦ with_read v (v.write_copy copy) d λ b. (d, respond ok_status b)
]

-- `machineUpdate`, whose body is a comment: it answers, and does nothing.
unfoldable pub machine_update : Env → Http.Vars → Daemon → Answer
machine_update v vs d = with_var v "machineID" vs d λ id. (d, respond accepted [])

unfoldable pub get_machines : Env → Daemon → Answer
get_machines v d = elim (machines_get d) [
  | none ↦ (d, respond no_content [])
  | some copies ↦ with_read v (v.write_copies copies) d λ b. (d, respond ok_status b)
]

-- The end of `ping` and `globalStatus`: the status is written before the body is encoded.
abbrev pub written : Env → Result Json → Option Http.Response
written v (ok b) = respond ok_status b
written v (err e) = respond ok_status (v.write_error e)

unfoldable pub ping : Env → Daemon → Answer
ping v d = (d, written v (v.write_ping d.opts))

unfoldable pub global_status : Env → Daemon → Answer
global_status v d = (d, written v (v.write_text "Ok!"))

unfoldable pub update : Env → Result Json → Daemon → Answer
update v body d =
    with_read v body d
      λ b. with_read v (v.read_options b) d λ n. answer v accepted (Daemon.update v.to_lower n d)

-- The handler of a route.
unfoldable pub handle : Env → Http.Handler → Http.Vars → Result Json → Daemon → Answer
handle v Http.Handler.ping vs body d = ping v d
handle v Http.Handler.global_status vs body d = global_status v d
handle v Http.Handler.update vs body d = update v body d
handle v Http.Handler.adaptor_attach vs body d = adaptor_attach v body d
handle v Http.Handler.adaptor_detach vs body d = adaptor_detach v vs d
handle v Http.Handler.driver_start vs body d = driver_start v body d
handle v Http.Handler.driver_stop vs body d = driver_stop v vs d
handle v Http.Handler.controller_start vs body d = controller_start v body d
handle v Http.Handler.controller_stop vs body d = controller_stop v vs d
handle v Http.Handler.machine_create vs body d = machine_create v body d
handle v Http.Handler.machine_delete vs body d = machine_delete v vs d
handle v Http.Handler.machine_get vs body d = get_machine v vs d
handle v Http.Handler.machine_update vs body d = machine_update v vs d
handle v Http.Handler.machines_get vs body d = get_machines v d

-- The server's answer to a request.
unfoldable pub serve : Env → Http.Request → Daemon → Answer
serve v r d = elim (Http.dispatch v.mux Http.backend_routes r.method r.path) [
  | none ↦ (d, some (v.mux.unrouted r.method r.path))
  | some (h, vs) ↦ handle v h vs r.body d
]
