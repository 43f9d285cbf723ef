-- ===== src/Http/Client.antt =====
-- common/client: the client's calls. `Post`, `Get` and `Delete` of resty are a parameter, which carries a
-- request to the server and brings its response, or none.
use Prim.Native.String.{◌++◌ as join}
use embd_project.Prelude.{
  ℕ, String, List, [], ◌∷◌, Option, none, some, Bool, ◌||◌, ◌==◌, if◌then◌else◌,
}
use embd_project.Factories.{Json}
use embd_project.Errors.{Error, Result, ok, err, connection_failed}
use embd_project.Options.{OptionMap}
use embd_project.Machine.{Machine}
use embd_project.Daemon.Copies.{MachineCopy}
use embd_project.Http.{Request, Response, Method, get, post, delete}
use embd_project.Http.Handlers.{ok_status, created, accepted, no_content, not_found}

-- What carries requests, and encoding/json at the client.
pub record Client (S : Type 0) : Type 0 where
  pub carry : Request → S → S × Option Response
  pub read_error : Json → Error  -- `processErrorBody`
  pub write_machine : Machine → Json
  pub write_options : OptionMap → Json
  pub read_copy : Json → Result MachineCopy
  pub read_copies : Json → Result (List MachineCopy)

-- The path of a request: its parts, each after a slash.
abbrev pub join_path : List String → String
join_path [] = ""
join_path (s ∷ ss) = join "/" (join s (join_path ss))

-- What a call makes of the response: an error, unless the status is one that it takes. There is no
-- response when the connection breaks; for a server that never answers, the client waits forever, and
-- the result here has no meaning.
abbrev pub checked : {S : Type 0} → Client S → (ℕ → Bool) → Option Response → Option Error
checked c takes none = some connection_failed
checked c takes (some r) = if takes r.status then none else some (c.read_error r.body)

abbrev pub called :
    {S : Type 0} → Client S → Method → List String → Json → (ℕ → Bool) → S → S × Option Error
called c m path body takes s =
    let (s', r) = c.carry (record { method = m; path = join_path path; body = ok body }) s in
    (s', checked c takes r)

-- The statuses that most calls take.
abbrev pub ok_or_accepted : ℕ → Bool
ok_or_accepted status = status == ok_status || status == accepted

module _ {S : Type 0} (c : Client S) where
  unfoldable pub start_drivers : Json → S → S × Option Error
  start_drivers conf = called c post ("driver" ∷ []) conf ok_or_accepted

  unfoldable pub start_controllers : Json → S → S × Option Error
  start_controllers conf = called c post ("controller" ∷ []) conf ok_or_accepted

  unfoldable pub attach_adaptors : Json → S → S × Option Error
  attach_adaptors conf = called c post ("adaptor" ∷ []) conf ok_or_accepted

  unfoldable pub stop_driver : String → String → String → S → S × Option Error
  stop_driver id t i = called c delete ("driver" ∷ id ∷ t ∷ i ∷ []) [] ok_or_accepted

  unfoldable pub stop_controller : String → String → S → S × Option Error
  stop_controller id i = called c delete ("controller" ∷ id ∷ i ∷ []) [] ok_or_accepted

  unfoldable pub detach_adaptor : String → String → String → S → S × Option Error
  detach_adaptor id t i = called c delete ("adaptor" ∷ id ∷ t ∷ i ∷ []) [] ok_or_accepted

  unfoldable pub machine_join : Machine → S → S × Option Error
  machine_join m =
      called c post ("machine" ∷ m.machine_id ∷ []) (c.write_machine m)
        (λ status. status == created)

  unfoldable pub machine_leave : String → S → S × Option Error
  machine_leave id =
      called c delete ("machine" ∷ id ∷ []) []
        (λ status. status == no_content || status == not_found)

  unfoldable pub machine_update : String → OptionMap → S → S × Option Error
  machine_update id opts =
      called c post ("machine" ∷ "update" ∷ id ∷ []) (c.write_options opts) ok_or_accepted

  -- `Update`
  unfoldable pub update : OptionMap → S → S × Option Error
  update opts = called c post ("update" ∷ []) (c.write_options opts) ok_or_accepted

  -- What a call that gets something makes of the response; `none` at the status 204.
  abbrev got : {A : Type 0} → (Json → Result A) → Option Response → Result (Option A)
  got {A} read none = err connection_failed
  got {A} read (some r) =
      let value : Result (Option A) = elim (read r.body) [ ok a ↦ ok (some a) | err e ↦ err e ] in
      if r.status == ok_status
      then value
      else if r.status == no_content
      then ok none
      else err (c.read_error r.body)

  unfoldable pub machine_get : String → S → S × Result (Option MachineCopy)
  machine_get id s =
      let (s', r) =
        c.carry (record { method = get; path = join_path ("machine" ∷ id ∷ []); body = ok [] }) s in
      (s', got c.read_copy r)

  unfoldable pub machines_get : S → S × Result (Option (List MachineCopy))
  machines_get s =
      let (s', r) =
        c.carry (record { method = get; path = join_path ("machines" ∷ []); body = ok [] }) s in
      (s', got c.read_copies r)
