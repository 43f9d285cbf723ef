-- ===== src/Factories.antt =====
-- pkg/drivers/drivers.go, pkg/controllers/controllers.go and pkg/adaptors/adaptors.go: from the
-- envelopes of a request to configurations, and the `ValidateConf` methods. The decoding of JSON into
-- a prepared configuration is a parameter.
pub mod Drivers
pub mod Controllers
pub mod Adaptors
pub mod Validated
use embd_project.Prelude.{ℕ, List}

-- Raw JSON, as bytes.
abbrev pub Json : Type 0
Json = List ℕ
