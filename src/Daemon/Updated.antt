-- ===== src/Daemon/Updated.antt =====
-- What an update of the daemon's options leaves behind.
use embd_project.Prelude.{String, ◌≡◌, [], ◌∷◌, none}
use embd_project.Options.{OptionMap, OptionLibrary, validate_option}
use embd_project.Daemon.{Daemon}

-- With a library, a validation ends, and succeeds if every name is accepted.
abbrev pub Accepted : (String → String) → OptionLibrary → OptionMap → Type 0
Accepted f l [] = Unit {0}
Accepted f l ((k, v) ∷ n) = (validate_option f l k ≡ none) × Accepted f l n
