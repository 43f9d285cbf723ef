-- ===== src/Plugin.antt =====
-- plugins/rf24networknode/rf24networknode.go: which configurations the plugin accepts.
-- An int is its bit pattern, and the address a uint16.
pub mod Addresses
use Prim.Native.Nat.{bit_and}
use embd_project.Prelude.{
  ℕ, String, Bool, List, Option, none, some, ◌==◌, ltb, not, str_eq, ◌||◌, ◌&&◌, if◌then◌else◌, ◌^◌,
}
use embd_project.Errors.{Error, no_id, invalid_address, invalid_heartbeat}

-- `RF24NetworkNodeConf`, less the pins, the channel and the machine. A channel is a byte, so that
-- its check always succeeds.
pub record NodeConf : Type 0 where
  pub id : String
  pub subscriptions : List String
  pub address : ℕ
  pub master : Bool
  pub heartbeat_interval : ℕ
  pub router_worker_count : ℕ

-- `HeartbeatInterval > 0`, on an int
abbrev pub positive : ℕ → Bool
positive n = ltb 0 n && ltb n (2 ^ 63)

-- An octal digit of the address is more than 5.
abbrev pub digit_too_large : ℕ → Bool
digit_too_large a =
    ltb 0o5 (bit_and a 0o7)
    || (ltb 0o50 (bit_and a 0o70) || (ltb 0o500 (bit_and a 0o700) || ltb 0o5000 (bit_and a 0o7000)))

-- `ValidateConf`
unfoldable pub validate_conf : NodeConf → Option Error
validate_conf c =
    if str_eq c.id ""
    then some no_id
    else if c.master && not (c.address == 0)
    then some (invalid_address c.address)
    else if not c.master && not (positive c.heartbeat_interval)
    then some (invalid_heartbeat c.heartbeat_interval)
    else if digit_too_large c.address
    then some (invalid_address c.address)
    else none
