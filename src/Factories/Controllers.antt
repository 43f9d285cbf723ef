-- ===== src/Factories/Controllers.antt =====
-- pkg/controllers: `NewControllerConfs`, `NewControllerConf` and the `ValidateConf` of each kind.
use embd_project.Prelude.{
  ℕ, String, Bool, false, ◌&&◌, ◌||◌, not, List, [], ◌∷◌, Option, none, some, leb, str_eq,
  if◌then◌else◌,
}
use embd_project.Errors.{
  Error, Result, ok, err, then_do, unknown_kind, no_kind, no_name, wrong_kind, no_host,
  invalid_port, no_key_files, no_plugin,
}
use embd_project.Factories.{Json}
use embd_project.Machine.{ControllerConf}

-- `ControllerConfEnvelope`
pub record ControllerEnvelope : Type 0 where
  pub typ : String
  pub id : String
  pub subscriptions : List String
  pub conf : Json

pub data ControllerKind : Type 0 where
  autonomous_drive grpc_message_server lirc mpi : ControllerKind

abbrev pub controller_name : ControllerKind → String
controller_name autonomous_drive = "autonomous-drive"
controller_name grpc_message_server = "grpc-message-server"
controller_name lirc = "lirc"
controller_name mpi = "mpi"

-- The switch of `NewController` and `NewControllerConf`.
unfoldable pub controller_kind : String → Option ControllerKind
controller_kind t =
    if str_eq t "autonomous-drive"
    then some autonomous_drive
    else if str_eq t "grpc-message-server"
    then some grpc_message_server
    else if str_eq t "lirc"
    then some lirc
    else if str_eq t "mpi"
    then some mpi
    else none

-- A port as Go's `int`.
pub data Port : Type 0 where
  nonnegative : ℕ → Port
  negative : ℕ → Port

-- The fields of the four kinds of controllers that `ValidateConf` reads.
pub record ControllerSettings : Type 0 where
  pub base : ControllerConf
  pub host_address : String
  pub port : Port
  pub tls_enabled : Bool
  pub cert_file : String
  pub key_file : String
  pub plugin_name : String

abbrev pub valid_port : Port → Bool
valid_port (nonnegative n) = leb n 65535
valid_port (negative n) = false

-- The checks of a server's address, port and key files.
unfoldable pub validate_server : ControllerSettings → Option Error
validate_server c =
    if str_eq c.host_address ""
    then some no_host
    else if not (valid_port c.port)
    then some invalid_port
    else if c.tls_enabled && (str_eq c.cert_file "" || str_eq c.key_file "")
    then some no_key_files
    else none

unfoldable pub validate_kind : ControllerKind → ControllerSettings → Option Error
unfolding validate_server
validate_kind grpc_message_server c = validate_server c
validate_kind mpi c = if str_eq c.plugin_name "" then some no_plugin else validate_server c
validate_kind _ c = none

-- `ValidateConf` of the four kinds of controllers.
unfoldable pub validate_controller : ControllerKind → ControllerSettings → Option Error
unfolding validate_kind
validate_controller k c =
    if str_eq c.base.typ ""
    then some no_kind
    else if str_eq c.base.id ""
    then some no_name
    else if not (str_eq c.base.typ (controller_name k))
    then some (wrong_kind c.base.typ)
    else validate_kind k c

-- `NewControllerConf`: the fields of a kind are empty until the JSON is decoded over them.
unfoldable pub new_controller_conf :
    String → String → List String → Result (ControllerKind × ControllerSettings)
new_controller_conf t id subs = elim (controller_kind t) [
  | none ↦ err unknown_kind
  | some k ↦ ok (
    k,
    record {
      base = record { typ = t; id = id; subscriptions = subs };
      host_address = "";
      port = nonnegative 0;
      tls_enabled = false;
      cert_file = "";
      key_file = "";
      plugin_name = "";
    },
  )
]

-- One round of `NewControllerConfs`.
unfoldable pub controller_conf :
    (Json → ControllerSettings → Result ControllerSettings)
    → ControllerEnvelope
    → Result ControllerConf
controller_conf decode e = then_do (new_controller_conf e.typ e.id e.subscriptions) λ (k, c).
    then_do (decode e.conf c)
      λ c'. elim (validate_controller k c') [ none ↦ ok c'.base | some x ↦ err x ]

unfoldable pub new_controller_confs :
    (Json → ControllerSettings → Result ControllerSettings)
    → List ControllerEnvelope
    → Result (List ControllerConf)
new_controller_confs decode [] = ok []
new_controller_confs decode (e ∷ es) =
    then_do (controller_conf decode e)
      λ c. then_do (new_controller_confs decode es) λ cs. ok (c ∷ cs)
