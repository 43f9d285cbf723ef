-- ===== src/Http/Ignored.antt =====
-- Calls that succeed without doing anything.
use embd_project.Prelude.{String, ◌≡◌, refl, ap, ◌∙◌, [], ◌∷◌, none, some, false, str_eq}
use embd_project.Prelude.Maps.{lookup}
use embd_project.Errors.{ok}
use embd_project.Options.{OptionMap}
use embd_project.Daemon.{Daemon}
use embd_project.Http
use embd_project.Http.Handlers
use embd_project.Http.Handlers.{Env, serve, handle, with_var}
use embd_project.Http.Client.{Client, join_path, machine_update, machine_leave}
use embd_project.Http.Routed.{first_match, dispatch-first_match}
use embd_project.Http.Called.{Connected, serve_found}

update_found :
    (id : String)
    → str_eq id "" ≡ false
    → first_match Http.backend_routes Http.post ("machine" ∷ "update" ∷ id ∷ [])
      ≡ some (Http.Handler.machine_update, ("machineID", id) ∷ [])
unfolding Http.backend_routes
update_found id named = rw (first_match, named) refl

-- The client's `MachineUpdate` reports success and changes nothing, whatever the options are and
-- whether there is a machine of that id or not, as long as the id is not empty and mux cuts the path
-- where the client joined it.
pub machine_update-ignored :
    (v : Env) (c : Client Daemon) (id : String) (opts : OptionMap) (d : Daemon)
    → Connected v c
    → str_eq id "" ≡ false
    → v.mux.segments (join_path ("machine" ∷ "update" ∷ id ∷ [])) ≡ "machine" ∷ "update" ∷ id ∷ []
    → machine_update c id opts d ≡ (d, none)
unfolding machine_update handle Http.Handlers.machine_update with_var lookup
machine_update-ignored v c id opts d conn named cut = rw (conn.carries r d, answered) refl
  where
    r : Http.Request
    r = record {
      method = Http.post;
      path = join_path ("machine" ∷ "update" ∷ id ∷ []);
      body = ok (c.write_options opts);
    }

    answered : serve v r d ≡ (d, some (record { status = 202; body = [] }))
    answered = serve_found v r d Http.Handler.machine_update (("machineID", id) ∷ []) (
        dispatch-first_match v.mux Http.backend_routes Http.post r.path conn.documented
        ∙ ap (first_match Http.backend_routes Http.post) cut
        ∙ update_found id named)

-- The client's `MachineLeave` reports success and changes nothing if no route matches its path and mux
-- answers 404, as it documents: so it does for an empty id.
pub machine_leave-unrouted :
    (v : Env) (c : Client Daemon) (id : String) (d : Daemon)
    → Connected v c
    → first_match Http.backend_routes Http.delete (v.mux.segments (join_path ("machine" ∷ id ∷ [])))
      ≡ none
    → (v.mux.unrouted Http.delete (join_path ("machine" ∷ id ∷ []))).status ≡ 404
    → machine_leave c id d ≡ (d, none)
unfolding machine_leave serve
machine_leave-unrouted v c id d conn missed answer = rw (conn.carries r d, unserved, answer) refl
  where
    r : Http.Request
    r = record { method = Http.delete; path = join_path ("machine" ∷ id ∷ []); body = ok [] }

    unserved : serve v r d ≡ (d, some (v.mux.unrouted r.method r.path))
    unserved =
        rw
          (
            serve,
            dispatch-first_match v.mux Http.backend_routes Http.delete r.path conn.documented,
            missed,
          )
          refl
