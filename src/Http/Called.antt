-- ===== src/Http/Called.antt =====
-- From a call of the client through the server to the daemon's method, and back.
use embd_project.Prelude.{
  ℕ, String, ◌≡◌, refl, ◌∙◌, List, [], ◌∷◌, Option, none, some, Bool, true, false, arith, ◌≢◌,
}
use embd_project.Prelude.Maps.{lookup}
use embd_project.Factories.{Json}
use embd_project.Options.{OptionMap}
use embd_project.Errors.{Error, ok, connection_failed}
use embd_project.Machine.{Machine, Outcome, success, fails, stuck}
use embd_project.Daemon
use embd_project.Daemon.{
  Daemon, daemon_attach_adaptors, daemon_start_drivers, daemon_start_controllers,
  daemon_stop_driver, daemon_stop_controller, daemon_detach_adaptor,
}
use embd_project.Daemon.Leave
use embd_project.Http
use embd_project.Http.Handlers
use embd_project.Http.Handlers.{
  Env, serve, handle, answer, with_var, process_server_error, created, accepted, no_content,
}
use embd_project.Http.Client.{
  Client, called, join_path, checked, ok_or_accepted, start_drivers, start_controllers,
  attach_adaptors, stop_driver, stop_controller, detach_adaptor, machine_join, machine_leave,
  update,
}
use embd_project.Http.Routed.{Documented, Named, first_match, dispatch-first_match}

-- The calls that change the daemon. The client's `MachineUpdate`, whose handler does nothing, is not one.
pub data Call : Type 0 where
  starts_drivers starts_controllers attaches_adaptors : Json → Call
  stops_driver detaches_adaptor : String → String → String → Call
  stops_controller : String → String → Call
  joins : Machine → Call
  leaves : String → Call
  updates : OptionMap → Call

-- The parts of a call's path.
abbrev pub parts : Call → List String
parts (starts_drivers b) = "driver" ∷ []
parts (starts_controllers b) = "controller" ∷ []
parts (attaches_adaptors b) = "adaptor" ∷ []
parts (stops_driver m t i) = "driver" ∷ m ∷ t ∷ i ∷ []
parts (detaches_adaptor m t i) = "adaptor" ∷ m ∷ t ∷ i ∷ []
parts (stops_controller m i) = "controller" ∷ m ∷ i ∷ []
parts (joins m) = "machine" ∷ m.machine_id ∷ []
parts (leaves m) = "machine" ∷ m ∷ []
parts (updates n) = "update" ∷ []

-- The client's function.
unfoldable pub call : Client Daemon → Call → Daemon → Daemon × Option Error
call c (starts_drivers b) = start_drivers c b
call c (starts_controllers b) = start_controllers c b
call c (attaches_adaptors b) = attach_adaptors c b
call c (stops_driver m t i) = stop_driver c m t i
call c (detaches_adaptor m t i) = detach_adaptor c m t i
call c (stops_controller m i) = stop_controller c m i
call c (joins m) = machine_join c m
call c (leaves m) = machine_leave c m
call c (updates n) = update c n

-- The daemon's method.
abbrev pub operation : Env → Call → Daemon → Daemon × Outcome
operation v (starts_drivers b) = daemon_start_drivers v.wire v.outside b
operation v (starts_controllers b) = daemon_start_controllers v.wire v.outside b
operation v (attaches_adaptors b) = daemon_attach_adaptors v.wire v.outside b
operation v (stops_driver m t i) = daemon_stop_driver v.outside m t i
operation v (detaches_adaptor m t i) = daemon_detach_adaptor v.outside m t i
operation v (stops_controller m i) = daemon_stop_controller v.outside m i
operation v (joins m) = Daemon.machine_join v.mkdir m
operation v (leaves m) = Daemon.Leave.machine_leave v.outside m
operation v (updates n) = Daemon.update v.to_lower n

-- What the client learns of a method's outcome: the text of its error, or, if the method panicked, that
-- the connection broke.
abbrev pub told : Env → Client Daemon → Outcome → Option Error
told v c success = none
told v c (fails e) = some (c.read_error (v.write_error e))
told v c stuck = some connection_failed

-- The client talks to this server.
pub record Connected (v : Env) (c : Client Daemon) : Type 0 where
  pub carries : (r : Http.Request) (d : Daemon) → c.carry r d ≡ serve v r d
  pub documented : Documented v.mux

-- The machine or the options that a call sends are those that the server reads.
abbrev pub Arrives : Env → Client Daemon → Call → Type 0
Arrives v c (joins m) = v.read_machine (c.write_machine m) ≡ ok m
Arrives v c (updates n) = v.read_options (c.write_options n) ≡ ok n
Arrives v c _ = Unit {0}

-- The server cuts the path where the client joined it, and no part is empty.
abbrev pub WellNamed : Env → Call → Type 0
WellNamed v x = (v.mux.segments (join_path (parts x)) ≡ parts x) × Named (parts x)

pub serve_found :
    (v : Env) (r : Http.Request) (d : Daemon) (h : Http.Handler) (vs : Http.Vars)
    → Http.dispatch v.mux Http.backend_routes r.method r.path ≡ some (h, vs)
    → serve v r d ≡ handle v h vs r.body d
unfolding serve
serve_found v r d h vs e = rw (serve, e) refl

reached :
    (v : Env) (m : Http.Method) (x : Call) (h : Http.Handler) (vs : Http.Vars)
    → Documented v.mux
    → WellNamed v x
    → first_match Http.backend_routes m (parts x) ≡ some (h, vs)
    → Http.dispatch v.mux Http.backend_routes m (join_path (parts x)) ≡ some (h, vs)
reached v m x h vs doc (cut, named) e =
    dispatch-first_match v.mux Http.backend_routes m (join_path (parts x)) doc ∙ rw cut e

told-answer :
    (v : Env) (c : Client Daemon) (takes : ℕ → Bool) (status : ℕ) (o : Daemon × Outcome)
    → takes status ≡ true
    → takes 500 ≡ false
    → checked c takes (answer v status o).1 ≡ told v c o.1
unfolding answer process_server_error
told-answer v c takes status (d, success) h f = ground arith
told-answer v c takes status (d, fails e) h f = ground arith
told-answer v c takes status (d, stuck) h f = refl

answer-daemon : (v : Env) (status : ℕ) (o : Daemon × Outcome) → (answer v status o).0 ≡ o.0
unfolding answer
answer-daemon v status (d, success) = refl
answer-daemon v status (d, fails e) = refl
answer-daemon v status (d, stuck) = refl

called-answer :
    (v : Env) (c : Client Daemon) (m : Http.Method) (path : List String) (body : Json)
    (takes : ℕ → Bool) (d : Daemon) (status : ℕ) (o : Daemon × Outcome)
    → Connected v c
    → takes status ≡ true
    → takes 500 ≡ false
    → serve v (record { method = m; path = join_path path; body = ok body }) d ≡ answer v status o
    → called c m path body takes d ≡ (o.0, told v c o.1)
called-answer v c m path body takes d status o conn h f e =
    rw
      (
        conn.carries (record { method = m; path = join_path path; body = ok body }) d,
        e,
        answer-daemon v status o,
        told-answer v c takes status o h f,
      )
      refl

-- The server's answer to a call whose path reaches a handler.
found :
    (v : Env) (x : Call) (m : Http.Method) (b : Json) (h : Http.Handler) (vs : Http.Vars)
    (d : Daemon)
    → Documented v.mux
    → WellNamed v x
    → first_match Http.backend_routes m (parts x) ≡ some (h, vs)
    → serve v (record { method = m; path = join_path (parts x); body = ok b }) d
      ≡ handle v h vs (ok b) d
found v x m b h vs d doc named e =
    serve_found v (record { method = m; path = join_path (parts x); body = ok b }) d h vs
      (reached v m x h vs doc named e)

-- A call of the client which starts, stops, attaches or detaches parts, creates or deletes a machine,
-- or updates the daemon's options, runs the daemon's method of that name on its arguments. If that
-- method comes to an end, then the client returns no error exactly if it succeeds, and else the text
-- of its error. The names in the path must not be empty, mux must cut the path where the client joined
-- it, and a machine or options that are sent must be read back.
pub call-operation :
    (v : Env) (c : Client Daemon) (x : Call) (d : Daemon)
    → Connected v c
    → WellNamed v x
    → Arrives v c x
    → (operation v x d).1 ≢ stuck
    → call c x d ≡ ((operation v x d).0, told v c (operation v x d).1)
unfolding call start_drivers start_controllers attach_adaptors stop_driver stop_controller
    detach_adaptor machine_join machine_leave update Http.backend_routes handle
    Http.Handlers.driver_start Http.Handlers.controller_start Http.Handlers.adaptor_attach
    Http.Handlers.driver_stop Http.Handlers.controller_stop Http.Handlers.adaptor_detach
    Http.Handlers.machine_create Http.Handlers.machine_delete Http.Handlers.update with_var lookup
call-operation v c (starts_drivers b) d conn named back ends =
    called-answer v c Http.post ("driver" ∷ []) b ok_or_accepted d accepted
      (operation v (starts_drivers b) d) conn refl refl
      (found v (starts_drivers b) Http.post b Http.Handler.driver_start [] d conn.documented named
        refl)
call-operation v c (starts_controllers b) d conn named back ends =
    called-answer v c Http.post ("controller" ∷ []) b ok_or_accepted d accepted
      (operation v (starts_controllers b) d) conn refl refl
      (found v (starts_controllers b) Http.post b Http.Handler.controller_start [] d conn.documented
        named refl)
call-operation v c (attaches_adaptors b) d conn named back ends =
    called-answer v c Http.post ("adaptor" ∷ []) b ok_or_accepted d accepted
      (operation v (attaches_adaptors b) d) conn refl refl
      (found v (attaches_adaptors b) Http.post b Http.Handler.adaptor_attach [] d conn.documented
        named refl)
call-operation v c (stops_driver m t i) d conn named back ends =
    called-answer v c Http.delete ("driver" ∷ m ∷ t ∷ i ∷ []) [] ok_or_accepted d accepted
      (operation v (stops_driver m t i) d) conn refl refl
      (found v (stops_driver m t i) Http.delete [] Http.Handler.driver_stop
        (("machineID", m) ∷ ("driverType", t) ∷ ("driverID", i) ∷ []) d conn.documented named
        (rw (first_match, named.1.1.0, named.1.1.1.0, named.1.1.1.1.0) refl))
call-operation v c (detaches_adaptor m t i) d conn named back ends =
    called-answer v c Http.delete ("adaptor" ∷ m ∷ t ∷ i ∷ []) [] ok_or_accepted d accepted
      (operation v (detaches_adaptor m t i) d) conn refl refl
      (found v (detaches_adaptor m t i) Http.delete [] Http.Handler.adaptor_detach
        (("machineID", m) ∷ ("adaptorType", t) ∷ ("adaptorID", i) ∷ []) d conn.documented named
        (rw (first_match, named.1.1.0, named.1.1.1.0, named.1.1.1.1.0) refl))
call-operation v c (stops_controller m i) d conn named back ends =
    called-answer v c Http.delete ("controller" ∷ m ∷ i ∷ []) [] ok_or_accepted d accepted
      (operation v (stops_controller m i) d) conn refl refl
      (found v (stops_controller m i) Http.delete [] Http.Handler.controller_stop
        (("machineID", m) ∷ ("controllerID", i) ∷ []) d conn.documented named
        (rw (first_match, named.1.1.0, named.1.1.1.0) refl))
call-operation v c (joins m) d conn named back ends =
    let b = c.write_machine m in
    called-answer v c Http.post ("machine" ∷ m.machine_id ∷ []) b _ d created
      (operation v (joins m) d) conn refl refl
      (found v (joins m) Http.post b Http.Handler.machine_create (("machineID", m.machine_id) ∷ [])
          d conn.documented named (rw (first_match, named.1.1.0) refl)
        ∙ rw back refl)
call-operation v c (leaves m) d conn named back ends =
    called-answer v c Http.delete ("machine" ∷ m ∷ []) [] _ d no_content (operation v (leaves m) d)
      conn refl refl
      (found v (leaves m) Http.delete [] Http.Handler.machine_delete (("machineID", m) ∷ []) d
        conn.documented named (rw (first_match, named.1.1.0, first_match, named.1.1.0) refl))
call-operation v c (updates n) d conn named back ends =
    let b = c.write_options n in
    called-answer v c Http.post ("update" ∷ []) b ok_or_accepted d accepted
      (operation v (updates n) d) conn refl refl
      (found v (updates n) Http.post b Http.Handler.update [] d conn.documented named refl
        ∙ rw back refl)
