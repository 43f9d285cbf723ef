-- ===== src/Factories/Drivers.antt =====
-- pkg/drivers: `NewDriverConfs`, `NewDriverConf` and the `ValidateConf` of each kind of driver.
use embd_project.Prelude.{
  String, Bool, true, ◌&&◌, not, List, [], ◌∷◌, Option, none, some, str_eq, any, if◌then◌else◌,
}
use embd_project.Errors.{
  Error, Result, ok, err, then_do, unknown_kind, no_kind, no_name, wrong_kind, unknown_qualifier,
}
use embd_project.Factories.{Json}
use embd_project.Machine.{DriverConf}

-- `DriverConfEnvelope`
pub record DriverEnvelope : Type 0 where
  pub typ : String
  pub id : String
  pub adaptor_id : String
  pub qualifier : String
  pub subscriptions : List String
  pub conf : Json

pub data DriverKind : Type 0 where
  unit_test_driver dual_motors led ultra_sonic : DriverKind

abbrev pub driver_name : DriverKind → String
driver_name unit_test_driver = "driver_unittest"
driver_name dual_motors = "driver_dualmotors"
driver_name led = "driver_led"
driver_name ultra_sonic = "driver_ultrasonic"

-- The switch of `NewDriver` and `NewDriverConf`.
unfoldable pub driver_kind : String → Option DriverKind
driver_kind t =
    if str_eq t "driver_unittest"
    then some unit_test_driver
    else if str_eq t "driver_dualmotors"
    then some dual_motors
    else if str_eq t "driver_led"
    then some led
    else if str_eq t "driver_ultrasonic"
    then some ultra_sonic
    else none

abbrev is_one_of : List String → String → Bool
is_one_of names s = any (str_eq s) names

-- `LEDQualifiers_value` and `UltraSonicQualifiers_value`; the other kinds allow any qualifier.
unfoldable pub known_qualifier : DriverKind → String → Bool
known_qualifier led s =
    is_one_of ("General" ∷ "Debug1" ∷ "Debug2" ∷ "Debug3" ∷ "Status1" ∷ "Status2" ∷ "Status3" ∷ [])
      s
known_qualifier ultra_sonic s =
    is_one_of ("FrontFacing" ∷ "RearFacing" ∷ "LeftFacing" ∷ "RightFacing" ∷ []) s
known_qualifier _ s = true

-- `NewDriverConf`
unfoldable pub new_driver_conf :
    String → String → String → String → List String → Result (DriverKind × DriverConf)
unfolding driver_kind
new_driver_conf t id adaptor_id qualifier subs = elim (driver_kind t) [
  | none ↦ err unknown_kind
  | some k ↦ ok (
    k,
    record {
      typ = t;
      id = id;
      adaptor_id = adaptor_id;
      qualifier = qualifier;
      subscriptions = subs;
    },
  )
]

-- `ValidateConf` of the four kinds of drivers.
unfoldable pub validate_driver : DriverKind → DriverConf → Option Error
unfolding known_qualifier
validate_driver k c =
    if str_eq c.typ ""
    then some no_kind
    else if str_eq c.id ""
    then some no_name
    else if not (str_eq c.typ (driver_name k))
    then some (wrong_kind c.typ)
    else if not (str_eq c.qualifier "") && not (known_qualifier k c.qualifier)
    then some (unknown_qualifier c.qualifier)
    else none

-- One round of `NewDriverConfs`; the parameter decodes the envelope's JSON over a configuration.
unfoldable pub driver_conf :
    (Json → DriverConf → Result DriverConf) → DriverEnvelope → Result DriverConf
driver_conf decode e =
    then_do (new_driver_conf e.typ e.id e.adaptor_id e.qualifier e.subscriptions) λ (k, c).
      then_do (decode e.conf c) λ c'. elim (validate_driver k c') [ none ↦ ok c' | some x ↦ err x ]

unfoldable pub new_driver_confs :
    (Json → DriverConf → Result DriverConf) → List DriverEnvelope → Result (List DriverConf)
new_driver_confs decode [] = ok []
new_driver_confs decode (e ∷ es) =
    then_do (driver_conf decode e) λ c. then_do (new_driver_confs decode es) λ cs. ok (c ∷ cs)
