-- ===== src/Errors.antt =====
-- The errors that the daemon's Go code returns, one constructor for each message, with its values.
-- An `error` is an `Option Error`, and `nil` is `none`.
use embd_project.Prelude.{ℕ, String, ◌≡◌, refl, ◌⊎◌, inl, inr}

pub data Error : Type 0 where
  -- common/message/message.go
  unknown_message_type : String → Error
  converter_unknown_type : ℕ → Error
  queue_shutting_down : String → String → Error
  queue_not_empty : String → String → ℕ → Error
  queue_not_shut_down : String → String → Error
  -- common/messagerouter/messagerouter.go
  no_entry_for_node : String → Error
  -- pkg/machine/machine.go
  none_specified : Error
  already_running : String → Error
  no_adaptor : String → Error
  not_found : String → String → Error
  controller_not_found : String → Error
  -- `Error(s): %s, %s`: the operation's error, the snapshot's, or both
  op_failed : Error → Error
  snapshot_failed : Error → Error
  both_failed : Error → Error → Error
  -- daemon/daemon
  no_machine : String → Error
  machine_exists : String → Error
  no_directory : Error → Error
  -- common/types/errors.go and the factories
  unknown_kind : Error
  -- the `ValidateConf` methods
  no_kind : Error
  no_name : Error
  wrong_kind : String → Error
  unknown_qualifier : String → Error
  no_host invalid_port no_key_files no_plugin : Error
  -- pkg/option/option.go
  unknown_option : String → Error
  immutable_option : Error
  invalid_option_value : String → Error
  -- plugins/rf24networknode/rf24networknodebackend/rfhook.go
  external_format_failed marshal_failed : Error → Error
  write_failed : Error
  -- plugins/rf24networknode/rf24networknode.go
  no_id : Error
  invalid_address invalid_heartbeat : ℕ → Error
  -- common/procwatcher/procwatcher.go
  process_does_not_exist unknown_process process_exists no_such_file : Error
  process_not_running : String → Error
  -- daemon/server and common/client
  no_variable : String → Error
  getting_failed : Error → Error
  connection_failed : Error
  -- what code outside the repository returned
  external : String → Error

-- A value and an `error`, of which the caller reads one.
pub data Result {ℓ} (A : Type ℓ) : Type ℓ where
  ok : A → Result A
  err : Error → Result A

-- `if err != nil { return err }` and the rest.
abbrev pub then_do {ℓ κ} : {A : Type ℓ} {B : Type κ} → Result A → (A → Result B) → Result B
then_do (ok a) f = f a
then_do (err e) f = err e

pub Result-cases {ℓ} :
    {A : Type ℓ} (r : Result A) → ((a : A) × (r ≡ ok a)) ⊎ ((e : Error) × (r ≡ err e))
Result-cases (ok a) = inl (a, refl)
Result-cases (err e) = inr (e, refl)
