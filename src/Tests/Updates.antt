-- ===== src/Tests/Updates.antt =====
-- The theorem on the update of the daemon's options, applied.
use embd_project.Prelude.{String, false, [], ◌∷◌}
use embd_project.Options.{OptionMap}

abbrev same : String → String
same s = s

-- The option that the daemon is to be rid of.
abbrev change : OptionMap
change = ("Debug", false) ∷ []
