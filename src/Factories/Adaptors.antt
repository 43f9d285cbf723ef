-- ===== src/Factories/Adaptors.antt =====
-- pkg/adaptors: `NewAdaptorConfs`, `NewAdaptorConf` and the `ValidateConf` of each kind.
use embd_project.Prelude.{String, not, List, [], ◌∷◌, Option, none, some, str_eq, if◌then◌else◌}
use embd_project.Errors.{
  Error, Result, ok, err, then_do, unknown_kind, no_kind, no_name, wrong_kind,
}
use embd_project.Factories.{Json}
use embd_project.Machine.{AdaptorConf}

-- `AdaptorConfEnvelope`
pub record AdaptorEnvelope : Type 0 where
  pub typ : String
  pub id : String
  pub conf : Json

pub data AdaptorKind : Type 0 where
  unit_test_adaptor firmata_serial raspi : AdaptorKind

abbrev pub adaptor_name : AdaptorKind → String
adaptor_name unit_test_adaptor = "adaptor_unittest"
adaptor_name firmata_serial = "adaptor_firmata_serial"
adaptor_name raspi = "adaptor_raspi"

-- The switch of `NewAdaptor` and `NewAdaptorConf`.
unfoldable pub adaptor_kind : String → Option AdaptorKind
adaptor_kind t =
    if str_eq t "adaptor_unittest"
    then some unit_test_adaptor
    else if str_eq t "adaptor_firmata_serial"
    then some firmata_serial
    else if str_eq t "adaptor_raspi"
    then some raspi
    else none

-- `ValidateConf` of the three kinds of adaptors.
unfoldable pub validate_adaptor : AdaptorKind → AdaptorConf → Option Error
validate_adaptor k c =
    if str_eq c.typ ""
    then some no_kind
    else if str_eq c.id ""
    then some no_name
    else if not (str_eq c.typ (adaptor_name k))
    then some (wrong_kind c.typ)
    else none

-- `NewAdaptorConf`
unfoldable pub new_adaptor_conf : String → String → Result (AdaptorKind × AdaptorConf)
new_adaptor_conf t id = elim (adaptor_kind t) [
  | none ↦ err unknown_kind
  | some k ↦ ok (k, record { typ = t; id = id })
]

-- One round of `NewAdaptorConfs`.
unfoldable pub adaptor_conf :
    (Json → AdaptorConf → Result AdaptorConf) → AdaptorEnvelope → Result AdaptorConf
adaptor_conf decode e = then_do (new_adaptor_conf e.typ e.id) λ (k, c).
    then_do (decode e.conf c) λ c'. elim (validate_adaptor k c') [ none ↦ ok c' | some x ↦ err x ]

unfoldable pub new_adaptor_confs :
    (Json → AdaptorConf → Result AdaptorConf) → List AdaptorEnvelope → Result (List AdaptorConf)
new_adaptor_confs decode [] = ok []
new_adaptor_confs decode (e ∷ es) =
    then_do (adaptor_conf decode e) λ c. then_do (new_adaptor_confs decode es) λ cs. ok (c ∷ cs)
