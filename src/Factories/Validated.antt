-- ===== src/Factories/Validated.antt =====
-- What the factories let through.
use embd_project.Prelude.{
  ℕ, String, ◌≤◌, ◌≡◌, ◌≢◌, ◌↔◌, ◌⊎◌, inl, inr, refl, true, false, List, [], ◌∷◌, map, none, some,
  str_eq, eq_iff, arith, if◌then◌else◌, All, Option-cases, Bool-cases,
}
use embd_project.Errors.{Result, ok, Result-cases}
use embd_project.Factories.{Json}
use embd_project.Machine.{DriverConf}
use embd_project.Factories.Drivers.{
  DriverKind, DriverEnvelope, driver_name, driver_kind, known_qualifier, new_driver_conf,
  validate_driver, driver_conf, new_driver_confs, unit_test_driver, dual_motors, led, ultra_sonic,
}
use embd_project.Factories.Controllers.{
  ControllerSettings, Port, nonnegative, negative, grpc_message_server, validate_controller,
  validate_kind, validate_server,
}

-- A configuration that a driver's factory may accept: it has an id, its type is one of the four, and
-- its qualifier, if it has one, is of its kind.
abbrev pub AcceptedDriver : DriverConf → Type 0
AcceptedDriver c =
    (c.id ≢ "")
    × (k : DriverKind) × (driver_kind c.typ ≡ some k)
    × ((c.qualifier ≡ "") ⊎ (known_qualifier k c.qualifier ≡ true))

pub driver_kind-name : (t : String) (k : DriverKind) → driver_kind t ≡ some k → t ≡ driver_name k
unfolding driver_kind
driver_kind-name t k h = ground (
  arith,
  eq_iff t "driver_unittest",
  eq_iff t "driver_dualmotors",
  eq_iff t "driver_led",
  eq_iff t "driver_ultrasonic",
)

validate_driver-none :
    (k : DriverKind) (c : DriverConf)
    → validate_driver k c ≡ none
    → (c.id ≢ "")
      × (c.typ ≡ driver_name k)
      × ((c.qualifier ≡ "") ⊎ (known_qualifier k c.qualifier ≡ true))
unfolding validate_driver
validate_driver-none k c h = (
  λ e. ground (arith, eq_iff c.id ""),
  ground (arith, eq_iff c.typ (driver_name k)),
  elim (Option-cases (if str_eq c.qualifier "" then some true else none)) [
    | inl e ↦ inr (ground arith)
    | inr (b, e) ↦ inl (ground (arith, eq_iff c.qualifier ""))
  ],
)

driver_name-kind : (k : DriverKind) → driver_kind (driver_name k) ≡ some k
unfolding driver_kind
driver_name-kind unit_test_driver = refl
driver_name-kind dual_motors = refl
driver_name-kind led = refl
driver_name-kind ultra_sonic = refl

driver_conf-ok :
    (decode : Json → DriverConf → Result DriverConf) (e : DriverEnvelope) (c : DriverConf)
    → driver_conf decode e ≡ ok c
    → AcceptedDriver c × (c.typ ≡ e.typ)
unfolding driver_conf new_driver_conf
driver_conf-ok decode e c h = elim (Option-cases (driver_kind e.typ)) [
  | inl n ↦ absurd (ground arith)
  | inr (k, n) ↦
      let base : DriverConf = record {
        typ = e.typ;
        id = e.id;
        adaptor_id = e.adaptor_id;
        qualifier = e.qualifier;
        subscriptions = e.subscriptions;
      } in
      elim (Result-cases (decode e.conf base)) [
        | inr (x, d) ↦ absurd (ground arith)
        | inl (c', d) ↦
            let same : c' ≡ c = ground arith in
            let (i, t, q) = validate_driver-none k c (ground arith) in
            ((i, k, rw t (driver_name-kind k), q), ground (arith, t, driver_kind-name e.typ k n))
      ]
]

-- When `NewDriverConfs` returns no error, whatever JSON decodes to, then the configurations have the
-- envelopes' types in their order, and each has an id, one of the four types of drivers, and either
-- no qualifier or one of its kind.
pub new_driver_confs-ok :
    (decode : Json → DriverConf → Result DriverConf) (es : List DriverEnvelope)
    (cs : List DriverConf)
    → new_driver_confs decode es ≡ ok cs
    → (map {A = DriverConf} {B = String} (λ c. c.typ) cs
        ≡ map {A = DriverEnvelope} {B = String} (λ e. e.typ) es)
      × All AcceptedDriver cs
unfolding new_driver_confs
new_driver_confs-ok decode [] cs h = let e : cs ≡ [] = ground arith in rw e (refl, tt)
new_driver_confs-ok decode (e ∷ es) cs h = elim (Result-cases (driver_conf decode e)) [
  | inr (x, d) ↦ absurd (ground arith)
  | inl (c, d) ↦ elim (Result-cases (new_driver_confs decode es)) [
    | inr (x, r) ↦ absurd (ground arith)
    | inl (cs', r) ↦
        let shape : cs ≡ c ∷ cs' = ground arith in
        let (a, t) = driver_conf-ok decode e c d in
        let (ts, as') = new_driver_confs-ok decode es cs' r in
        rw shape (ground (arith, t, ts), (a, as'))
  ]
]

-- A server's checks as one condition.
abbrev pub ServerAccepted : ControllerSettings → Type 0
ServerAccepted c =
    (c.host_address ≢ "")
    × ((n : ℕ) × (c.port ≡ nonnegative n) × (n ≤ 65535))
    × (c.tls_enabled ≡ true → (c.cert_file ≢ "") × (c.key_file ≢ ""))

validate_server-port :
    (c : ControllerSettings) (p : Port)
    → c.port ≡ p
    → validate_server c ≡ none
    → (n : ℕ) × (c.port ≡ nonnegative n) × (n ≤ 65535)
unfolding validate_server
validate_server-port c (nonnegative n) e h = (n, e, ground arith)
validate_server-port c (negative n) e h = absurd (ground arith)

validate_server_sound : (c : ControllerSettings) → validate_server c ≡ none → ServerAccepted c
unfolding validate_server
validate_server_sound c h = (
  λ e. ground (arith, eq_iff c.host_address ""),
  validate_server-port c c.port refl h,
  λ tls. (λ e. ground (arith, eq_iff c.cert_file ""), λ e. ground (arith, eq_iff c.key_file "")),
)

eq_false : (s t : String) → s ≢ t → str_eq s t ≡ false
eq_false s t n = elim (Bool-cases (str_eq s t)) [
  | inl e ↦ absurd (n ((eq_iff s t).0 e))
  | inr e ↦ e
]

validate_server_complete : (c : ControllerSettings) → ServerAccepted c → validate_server c ≡ none
unfolding validate_server
validate_server_complete c (host, (n, p, le), tls) =
    rw (eq_false c.host_address "" host, p)
      (ground (arith, eq_iff c.cert_file "", eq_iff c.key_file ""))

-- `ValidateConf` of the message server accepts a configuration exactly when its type is the server's,
-- it has an id and a host address, its port lies between 0 and 65535, and, with TLS, it names a
-- certificate and a key.
pub validate_controller-server_iff :
    (c : ControllerSettings)
    → (validate_controller grpc_message_server c ≡ none)
      ↔ ((c.base.typ ≡ "grpc-message-server") × (c.base.id ≢ "") × ServerAccepted c)
unfolding validate_controller validate_kind
validate_controller-server_iff c = (
  λ h. (
    ground (arith, eq_iff c.base.typ "grpc-message-server"),
    λ e. ground (arith, eq_iff c.base.id ""),
    validate_server_sound c (ground arith),
  ),
  λ (t, i, s). rw (t, eq_false c.base.id "" i) (validate_server_complete c s),
)
