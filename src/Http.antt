-- ===== src/Http.antt =====
-- daemon/server: the daemon's HTTP interface, from a request to the daemon's method and its response.
-- gorilla/mux, net/http and encoding/json are parameters. A pattern is a list of its segments.
pub mod Handlers
pub mod Client
pub mod Routed
pub mod Called
pub mod Ignored
use embd_project.Prelude.{
  ℕ, String, List, [], ◌∷◌, Option, none, some, Bool, true, false, ◌&&◌, if◌then◌else◌,
}
use embd_project.Factories.{Json}
use embd_project.Errors.{Result}

pub data Method : Type 0 where
  get post delete : Method

-- A literal segment of a pattern, or a variable `{name}`.
pub data Segment : Type 0 where
  lit var : String → Segment

abbrev pub Pattern : Type 0
Pattern = List Segment

-- The handlers of the router.
pub data Handler : Type 0 where
  ping global_status update : Handler
  adaptor_attach adaptor_detach : Handler
  driver_start driver_stop : Handler
  controller_start controller_stop : Handler
  machine_create machine_delete machine_get machine_update machines_get : Handler

-- `route`
pub record Route : Type 0 where
  pub name : String
  pub method : Method
  pub pattern : Pattern
  pub handler : Handler

abbrev route : String → Method → Pattern → Handler → Route
route n m p h = record { name = n; method = m; pattern = p; handler = h }

-- The routes of `initBackendRoutes`.
unfoldable pub backend_routes : List Route
backend_routes =
    route "Ping" get (lit "ping" ∷ []) ping
    ∷ route "GlobalStatus" get (lit "healthz" ∷ []) global_status
    ∷ route "Update" post (lit "update" ∷ []) update
    ∷ route "AdaptorAttach" post (lit "adaptor" ∷ []) adaptor_attach
    ∷ route "AdaptorDetach" delete
        (lit "adaptor" ∷ var "machineID" ∷ var "adaptorType" ∷ var "adaptorID" ∷ []) adaptor_detach
    ∷ route "DriverStart" post (lit "driver" ∷ []) driver_start
    ∷ route "DriverStop" delete
        (lit "driver" ∷ var "machineID" ∷ var "driverType" ∷ var "driverID" ∷ []) driver_stop
    ∷ route "ControllerStart" post (lit "controller" ∷ []) controller_start
    ∷ route "ControllerStop" delete (lit "controller" ∷ var "machineID" ∷ var "controllerID" ∷ [])
        controller_stop
    ∷ route "MachineCreate" post (lit "machine" ∷ var "machineID" ∷ []) machine_create
    ∷ route "MachineDelete" delete (lit "machine" ∷ var "machineID" ∷ []) machine_delete
    ∷ route "MachineGet" get (lit "machine" ∷ var "machineID" ∷ []) machine_get
    ∷ route "MachineUpdate" post (lit "machine" ∷ lit "update" ∷ var "machineID" ∷ [])
        machine_update
    ∷ route "MachinesGet" get (lit "machines" ∷ []) machines_get
    ∷ []

-- A request; its body may fail to be read.
pub record Request : Type 0 where
  pub method : Method
  pub path : String
  pub body : Result Json

pub record Response : Type 0 where
  pub status : ℕ
  pub body : Json

-- The variables of a request.
abbrev pub Vars : Type 0
Vars = List (String × String)

-- `mux`: how it cuts a path at its slashes, the variables of a path that a pattern matches, and its
-- answer when no route matches.
pub record Mux : Type 0 where
  pub segments : String → List String
  pub vars : Pattern → String → Option Vars
  pub unrouted : Method → String → Response

-- `==` on methods.
abbrev pub same_method : Method → Method → Bool
same_method get get = true
same_method post post = true
same_method delete delete = true
same_method _ _ = false

-- The route that `mux` takes: the first of those that match with the method.
unfoldable pub dispatch : Mux → List Route → Method → String → Option (Handler × Vars)
dispatch x [] m path = none
dispatch x (r ∷ rs) m path =
    let rest = dispatch x rs m path in
    elim (x.vars r.pattern path) [
      | none ↦ rest
      | some vs ↦ if same_method r.method m then some (r.handler, vs) else rest
    ]
